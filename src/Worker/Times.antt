-- ===== src/Worker/Times.antt =====
-- The times that `process_ready_frames` (src/worker_runtime.cc) records for a request.
use rtb_engine.Base.{ℕ, ◌+◌, ◌-◌, ◌^◌, ◌≤◌, ◌<◌, ◌≡◌, inl, inr, some, arith, Bool-cases}
use rtb_engine.Types.{RequestContext, ParsedMessage, is_eligible, CampaignStoreSnapshot}
use rtb_engine.Double.{Double}
use rtb_engine.Protobuf.{Protobuf}
use rtb_engine.Rng.{WorkerRng}
use rtb_engine.Request.{
  elapsed, short_timing, full_timing, request_context, handle_in, handle_request,
}
use rtb_engine.Benchmark.{RequestTimingBreakdown}
use rtb_engine.Worker.{WorkerRuntime}
use rtb_engine.Worker.Frames.{no_times, frame_times, handle_message}

-- The sum of the phases.
abbrev pub phase_sum : RequestTimingBreakdown → ℕ
phase_sum t =
    t.parse_ns
    + (t.normalize_validate_ns
        + (t.retrieve_ns + (t.decide_ns + (t.response_build_ns + t.response_stage_ns))))

elapsed_lem : (a b : ℕ) → a ≤ b → b < 2 ^ 64 → elapsed a b ≡ b - a
elapsed_lem a b h k = omega arith

-- A clock that does not go back, and does not reach its end.
pub record IsSteady (now : ℕ → ℕ) : Type 0 where
  pub forward : (i : ℕ) → now i ≤ now (1 + i)
  pub before_end : (i : ℕ) → now i < 2 ^ 64

module _ (now : ℕ → ℕ) (steady : IsSteady now) where
  lap : (i : ℕ) → elapsed (now i) (now (1 + i)) ≡ now (1 + i) - now i
  lap i = elapsed_lem (now i) (now (1 + i)) (steady.forward i) (steady.before_end (1 + i))

  whole_short : elapsed (now 0) (now 9) ≡ now 9 - now 0
  whole_short =
      elapsed_lem (now 0) (now 9)
        (omega (
          arith,
          steady.forward 0,
          steady.forward 1,
          steady.forward 2,
          steady.forward 3,
          steady.forward 4,
          steady.forward 5,
          steady.forward 6,
          steady.forward 7,
          steady.forward 8,
        ))
        (steady.before_end 9)

  whole_full : elapsed (now 0) (now 13) ≡ now 13 - now 0
  whole_full =
      elapsed_lem (now 0) (now 13)
        (omega (
          arith,
          steady.forward 0,
          steady.forward 1,
          steady.forward 2,
          steady.forward 3,
          steady.forward 4,
          steady.forward 5,
          steady.forward 6,
          steady.forward 7,
          steady.forward 8,
          steady.forward 9,
          steady.forward 10,
          steady.forward 11,
          steady.forward 12,
        ))
        (steady.before_end 13)

  steps :
      (now 0 ≤ now 1)
      × (now 1 ≤ now 2)
      × (now 2 ≤ now 3)
      × (now 3 ≤ now 4)
      × (now 4 ≤ now 5)
      × (now 5 ≤ now 6)
      × (now 6 ≤ now 7)
      × (now 7 ≤ now 8)
      × (now 8 ≤ now 9)
      × (now 9 ≤ now 10)
      × (now 10 ≤ now 11)
      × (now 11 ≤ now 12)
      × (now 12 ≤ now 13)
  steps = (
    steady.forward 0,
    steady.forward 1,
    steady.forward 2,
    steady.forward 3,
    steady.forward 4,
    steady.forward 5,
    steady.forward 6,
    steady.forward 7,
    steady.forward 8,
    steady.forward 9,
    steady.forward 10,
    steady.forward 11,
    steady.forward 12,
  )

  full :
      elapsed (now 1) (now 2)
        + (elapsed (now 4) (now 5)
            + (elapsed (now 6) (now 7)
                + (elapsed (now 8) (now 9)
                    + (elapsed (now 10) (now 11) + elapsed (now 12) (now 13)))))
      ≤ elapsed (now 0) (now 13)
  full = omega (arith, lap 1, lap 4, lap 6, lap 8, lap 10, lap 12, whole_full, steps)

  short :
      elapsed (now 1) (now 2)
        + (elapsed (now 4) (now 5)
            + (0 + (0 + (elapsed (now 6) (now 7) + elapsed (now 8) (now 9)))))
      ≤ elapsed (now 0) (now 9)
  short = omega (arith, lap 1, lap 4, lap 6, lap 8, whole_short, steps)

  module _ {F : Type 0} ⦃d : Double F⦄ where
    times_in :
        (context : RequestContext) (store : CampaignStoreSnapshot F) (rng : WorkerRng)
        → (let t =
              frame_times now (handle_in (λ i. now (4 + i)) context store rng (some no_times)) in
            phase_sum t ≤ t.total_internal_ns)
    unfolding handle_in frame_times short_timing full_timing
    times_in context store rng = elim (Bool-cases (is_eligible context)) [
      | inl e ↦ rw (e, e) full
      | inr e ↦ rw (e, e) short
    ]

    -- With a clock that does not go back and stays below 2 ^ 64, the times that are recorded for
    -- the phases of a request add up to no more than its recorded total, on the short path and on
    -- the full one.
    pub phase_sum-frame_times :
        (proto : Protobuf F) (store : CampaignStoreSnapshot F) (runtime : WorkerRuntime F)
        (parsed_message : ParsedMessage)
        → (let t = frame_times now (handle_message proto store now runtime parsed_message) in
            phase_sum t ≤ t.total_internal_ns)
    unfolding handle_request
    phase_sum-frame_times proto store runtime parsed_message =
        times_in (request_context parsed_message (now 3)) store runtime.rng
