-- ===== src/Bench/Due.antt =====
-- The parse times that the in-process benchmark (bench/request_pipeline_bench.cc) is to record.
use rtb_engine.Base.{
  ℕ, zero, suc, ◌+◌, ◌≤◌, ◌≡◌, refl, ap, ◌∙◌, true, false, List, [], ◌∷◌, ◌++◌, map, arith,
  if◌then◌else◌, ltb,
}
use rtb_engine.Request.{elapsed}
use rtb_engine.Benchmark.{BenchmarkRecorder, RequestTimingBreakdown}

-- The parse times that are recorded.
abbrev pub recorded_times : BenchmarkRecorder → List ℕ
recorded_times recorder = map (λ (t : RequestTimingBreakdown). t.parse_ns) recorder.requests

-- The parse times of `count` iterations from an index on; the second and the third reading of the
-- clock in an iteration are those around `parse_bid_request`.
unfoldable pub parse_times : (ℕ → ℕ → ℕ) → ℕ → ℕ → List ℕ
parse_times clocks zero request_index = []
parse_times clocks (suc count) request_index =
    elapsed (clocks request_index 1) (clocks request_index 2)
    ∷ parse_times clocks count (1 + request_index)

-- What an iteration adds.
abbrev pub added : ℕ → (ℕ → ℕ) → ℕ → List ℕ
added warmup now request_index =
    if ltb request_index warmup then [] else elapsed (now 1) (now 2) ∷ []

-- What the iterations that are left add.
unfoldable pub due : ℕ → (ℕ → ℕ → ℕ) → ℕ → ℕ → List ℕ
due warmup clocks zero request_index = []
due warmup clocks (suc left) request_index =
    added warmup (clocks request_index) request_index ++ due warmup clocks left (1 + request_index)

due-late :
    (warmup : ℕ) (clocks : ℕ → ℕ → ℕ) (left request_index : ℕ)
    → warmup ≤ request_index
    → due warmup clocks left request_index ≡ parse_times clocks left request_index
unfolding due parse_times
due-late warmup clocks zero request_index h = refl
due-late warmup clocks (suc left) request_index h =
    let counted : ltb request_index warmup ≡ false = ground arith in
    rw (counted, due-late warmup clocks left (1 + request_index) (omega arith)) refl

pub due-early :
    (warmup : ℕ) (clocks : ℕ → ℕ → ℕ) (count early left request_index : ℕ)
    → left ≡ early + count
    → request_index + early ≡ warmup
    → due warmup clocks left request_index ≡ parse_times clocks count warmup
unfolding due
due-early warmup clocks count zero left request_index h k =
    let now : request_index ≡ warmup = omega arith in
    due-late warmup clocks left request_index (omega arith)
    ∙ ap (λ n. parse_times clocks n request_index) (omega arith)
    ∙ ap (parse_times clocks count) now
due-early warmup clocks count (suc early) zero request_index h k = absurd (omega arith)
due-early warmup clocks count (suc early) (suc left) request_index h k =
    let warming : ltb request_index warmup ≡ true = ground arith in
    rw
      (
        warming,
        due-early warmup clocks count early left (1 + request_index) (omega arith) (omega arith),
      )
      refl
