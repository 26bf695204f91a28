-- ===== src/Bench/Count.antt =====
-- The requests that the in-process benchmark (bench/request_pipeline_bench.cc) records.
use rtb_engine.Base.{
  ℕ, zero, suc, ◌+◌, ◌≡◌, refl, sym, ap, ◌∙◌, subst, inl, inr, Bool, true, false, not, List, [],
  ◌∷◌, ◌++◌, map, Option, none, some, arith, if◌then◌else◌, ltb, length, Bool-cases, Option-cases,
}
use mathlib.Core.List.{append-nil, append_assoc, map-append}
use rtb_engine.Types.{CampaignStoreSnapshot}
use rtb_engine.Double.{Double}
use rtb_engine.Protobuf.{Protobuf, BidRequest}
use rtb_engine.Framing.{stage_response_frame}
use rtb_engine.Request.{elapsed, Handled}
use rtb_engine.Benchmark.{
  BenchmarkRecorder, RequestTimingBreakdown, record_request, completed_requests,
}
use rtb_engine.Benchmark.Summary.{length-map}
use rtb_engine.Worker.Frames.{is_ok, drops, frame_times}
use rtb_engine.Bench.Due.{recorded_times, parse_times, added, due, due-early}
use rtb_engine.Bench.{BenchState, finish_iteration, iteration, iterations}

record_request-times :
    (t : RequestTimingBreakdown) (r : BenchmarkRecorder)
    → recorded_times (record_request t r) ≡ recorded_times r ++ t.parse_ns ∷ []
unfolding record_request
record_request-times t r =
    map-append (λ (s : RequestTimingBreakdown). s.parse_ns) r.requests (t ∷ [])

-- Unless the program ends, these parse times are recorded.
abbrev Records : List ℕ → Option BenchState → Type 0
Records times none = Unit
Records times (some state) = recorded_times state.recorder ≡ times

tested :
    (n : List ℕ) (b : Bool) (o : Option BenchState)
    → Records n o
    → Records n (if b then none else o)
tested n true o h = tt
tested n false o h = h

recorded_next :
    (warmup request_index : ℕ) (now : ℕ → ℕ) (t : RequestTimingBreakdown) (r : BenchmarkRecorder)
    → t.parse_ns ≡ elapsed (now 1) (now 2)
    → recorded_times (if ltb request_index warmup then r else record_request t r)
      ≡ recorded_times r ++ added warmup now request_index
recorded_next warmup request_index now t r h = elim (Bool-cases (ltb request_index warmup)) [
  | inl e ↦ rw e (sym (append-nil (recorded_times r)))
  | inr e ↦ rw e (record_request-times t r ∙ ap (λ (n : ℕ). recorded_times r ++ n ∷ []) h)
]

Records-inv :
    (n : List ℕ) (o : Option BenchState) (state : BenchState)
    → Records n o
    → o ≡ some state
    → recorded_times state.recorder ≡ n
Records-inv n o state h e = subst (Records n) e h

frame_times-parse :
    {F : Type 0} (now : ℕ → ℕ) (handled : Handled F)
    → (frame_times now handled).parse_ns ≡ elapsed (now 1) (now 2)
unfolding frame_times
frame_times-parse now handled = refl

length-parse_times :
    (clocks : ℕ → ℕ → ℕ) (count request_index : ℕ)
    → length (parse_times clocks count request_index) ≡ count
unfolding parse_times
length-parse_times clocks zero request_index = refl
length-parse_times clocks (suc count) request_index =
    ap suc (length-parse_times clocks count (1 + request_index))

module _ {F : Type 0} ⦃d : Double F⦄ (proto : Protobuf F)
    (serialize_as_string : BidRequest → List ℕ) (store : CampaignStoreSnapshot F) (warmup : ℕ) where
  finish_iteration-Records :
      (now : ℕ → ℕ) (request_index : ℕ) (state : BenchState) (handled : Handled F)
      → Records
          (recorded_times state.recorder ++ added warmup now request_index)
          (finish_iteration proto serialize_as_string store warmup now request_index state handled)
  unfolding finish_iteration
  finish_iteration-Records now request_index state handled =
      tested _ (drops handled.result.status) _ (
        tested _ (not (stage_response_frame proto handled.result.response state.write_buffer).0) _ (
          recorded_next warmup request_index now (frame_times now handled) state.recorder
            (frame_times-parse now handled)))

  iteration-Records :
      (now : ℕ → ℕ) (request_index : ℕ) (state : BenchState)
      → Records
          (recorded_times state.recorder ++ added warmup now request_index)
          (iteration proto serialize_as_string store warmup now request_index state)
  unfolding iteration
  iteration-Records now request_index state =
      tested _ (not (is_ok _)) _ (finish_iteration-Records now request_index _ _)

  iterations-Records :
      (clocks : ℕ → ℕ → ℕ) (left request_index : ℕ) (state : BenchState)
      → Records
          (recorded_times state.recorder ++ due warmup clocks left request_index)
          (iterations proto serialize_as_string store warmup clocks left request_index state)
  unfolding iterations due
  iterations-Records clocks zero request_index state =
      sym (append-nil (recorded_times state.recorder))
  iterations-Records clocks (suc left) request_index state =
      elim (Option-cases (
        iteration proto serialize_as_string store warmup (clocks request_index) request_index
          state)) [
            | inl e ↦ rw (e, iterations) tt
            | inr (next, e) ↦
                rw (e, iterations)
                  (subst
                    (λ (n : List ℕ). Records n (
                      iterations proto serialize_as_string store warmup clocks left
                        (1 + request_index) next))
                    (total next (
                      Records-inv _ _ next
                        (iteration-Records (clocks request_index) request_index state) e))
                    (iterations-Records clocks left (1 + request_index) next))
          ]
    where
      total :
          (next : BenchState)
          → recorded_times next.recorder
            ≡ recorded_times state.recorder ++ added warmup (clocks request_index) request_index
          → recorded_times next.recorder ++ due warmup clocks left (1 + request_index)
            ≡ recorded_times state.recorder
              ++ (added warmup (clocks request_index) request_index
                  ++ due warmup clocks left (1 + request_index))
      total next h =
          ap (λ (ts : List ℕ). ts ++ due warmup clocks left (1 + request_index)) h
          ∙ append_assoc (recorded_times state.recorder)
              (added warmup (clocks request_index) request_index)
              (due warmup clocks left (1 + request_index))

  -- When the loop of the in-process benchmark, started with an empty recorder, gets through its
  -- warm-up and its counted requests, as many requests are recorded as were to be counted, and the
  -- recorded parse times are those of the iterations after the warm-up, in order.
  pub iterations-records :
      (clocks : ℕ → ℕ → ℕ) (count : ℕ) (start final : BenchState)
      → start.recorder.requests ≡ []
      → iterations proto serialize_as_string store warmup clocks (warmup + count) 0 start
        ≡ some final
      → (completed_requests final.recorder ≡ count)
        × (recorded_times final.recorder ≡ parse_times clocks count warmup)
  unfolding completed_requests
  iterations-records clocks count start final h e = (
    sym (length-map (λ (t : RequestTimingBreakdown). t.parse_ns) final.recorder.requests)
        ∙ ap length times
        ∙ length-parse_times clocks count warmup,
    times,
  )
    where
      times : recorded_times final.recorder ≡ parse_times clocks count warmup
      times =
          Records-inv _ _ final (iterations-Records clocks (warmup + count) 0 start) e
          ∙ ap
              (λ (rs : List RequestTimingBreakdown).
                map (λ (t : RequestTimingBreakdown). t.parse_ns) rs
                ++ due warmup clocks (warmup + count) 0)
              h
          ∙ due-early warmup clocks count warmup (warmup + count) 0 refl (omega arith)
