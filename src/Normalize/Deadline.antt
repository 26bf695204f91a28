-- ===== src/Normalize/Deadline.antt =====
-- The deadline of src/normalize.cc, and which contexts it leaves eligible.
use rtb_engine.Base.{ℕ, ◌+◌, ◌*◌, ◌^◌, ◌≤◌, ◌<◌, ◌≡◌, ◌↔◌, true, arith}
use native.Mathlib.Decide.{dec_lt}
use rtb_engine.Types.{
  response_safety_margin_ns, ns_per_ms, NoBidReason, RequestProcessingStatus, ParsedMessage,
  is_eligible,
}
use rtb_engine.Normalize.{compute_deadline_ns, build_request_context}

-- A budget of 2 ms or more puts the deadline one safety margin before the end of the budget; a
-- smaller one leaves no time. The sum does not wrap if the end of the budget fits 64 bits.
pub compute_deadline_ns_lem :
    (received_at_ns tmax_ms : ℕ)
    → received_at_ns + tmax_ms * ns_per_ms < 2 ^ 64
    → ((2 ≤ tmax_ms)
        → compute_deadline_ns received_at_ns tmax_ms + response_safety_margin_ns
          ≡ received_at_ns + tmax_ms * ns_per_ms)
      × ((tmax_ms < 2) → compute_deadline_ns received_at_ns tmax_ms ≡ received_at_ns)
unfolding compute_deadline_ns
compute_deadline_ns_lem received_at_ns tmax_ms h = (λ k. ground arith, λ k. ground arith)

-- For a 64-bit arrival and a 32-bit budget, a deadline that would pass the end of the 64-bit clock
-- wraps to before the arrival.
pub deadline_wraps :
    (received_at_ns tmax_ms : ℕ)
    → received_at_ns < 2 ^ 64
    → tmax_ms < 2 ^ 32
    → 2 ^ 64 + response_safety_margin_ns ≤ received_at_ns + tmax_ms * ns_per_ms
    → compute_deadline_ns received_at_ns tmax_ms < received_at_ns
unfolding compute_deadline_ns
deadline_wraps received_at_ns tmax_ms h k l = ground arith

abbrev Later : ParsedMessage → ℕ → Type 0
Later m received_at_ns = received_at_ns < compute_deadline_ns received_at_ns m.tmax_ms

pub build_request_context-eligible :
    (m : ParsedMessage) (received_at_ns : ℕ)
    → (is_eligible (build_request_context m received_at_ns) ≡ true)
      ↔ ((m.processing_status ≡ RequestProcessingStatus.ok) × Later m received_at_ns)
unfolding build_request_context is_eligible
build_request_context-eligible m received_at_ns = (λ h. ground arith, λ h. ground arith)

expired_context :
    (m : ParsedMessage) (received_at_ns : ℕ)
    → compute_deadline_ns received_at_ns m.tmax_ms ≤ received_at_ns
    → ((build_request_context m received_at_ns).processing_status ≡ RequestProcessingStatus.expired)
      × ((build_request_context m received_at_ns).no_bid_reason ≡ NoBidReason.deadline_exceeded)
unfolding build_request_context
expired_context m received_at_ns h = ground arith

-- A request that came in well before the end of the clock is eligible exactly when it was parsed
-- and its budget is at least 2 ms.
pub build_request_context-budget :
    (m : ParsedMessage) (received_at_ns : ℕ)
    → received_at_ns + m.tmax_ms * ns_per_ms < 2 ^ 64
    → (is_eligible (build_request_context m received_at_ns) ≡ true)
      ↔ ((m.processing_status ≡ RequestProcessingStatus.ok) × (2 ≤ m.tmax_ms))
build_request_context-budget m received_at_ns h = (forth, back)
  where
    due : (2 ≤ m.tmax_ms) → Later m received_at_ns
    due k = omega (arith, (compute_deadline_ns_lem received_at_ns m.tmax_ms h).0 k)

    at_once : (m.tmax_ms < 2) → compute_deadline_ns received_at_ns m.tmax_ms ≡ received_at_ns
    at_once = (compute_deadline_ns_lem received_at_ns m.tmax_ms h).1

    forth :
        is_eligible (build_request_context m received_at_ns) ≡ true
        → (m.processing_status ≡ RequestProcessingStatus.ok) × (2 ≤ m.tmax_ms)
    forth e =
        let p = (build_request_context-eligible m received_at_ns).0 e in
        elim (dec_lt m.tmax_ms 2) [
          | yes small ↦ absurd (omega (arith, p.1, at_once small))
          | no large ↦ (p.0, omega arith)
        ]

    back :
        (m.processing_status ≡ RequestProcessingStatus.ok) × (2 ≤ m.tmax_ms)
        → is_eligible (build_request_context m received_at_ns) ≡ true
    back p = (build_request_context-eligible m received_at_ns).1 (p.0, due p.1)

-- With a budget below 2 ms, well before the end of the clock, the request is expired and its
-- no-bid reason is the deadline.
pub build_request_context-late :
    (m : ParsedMessage) (received_at_ns : ℕ)
    → received_at_ns + m.tmax_ms * ns_per_ms < 2 ^ 64
    → m.tmax_ms < 2
    → ((build_request_context m received_at_ns).processing_status ≡ RequestProcessingStatus.expired)
      × ((build_request_context m received_at_ns).no_bid_reason ≡ NoBidReason.deadline_exceeded)
build_request_context-late m received_at_ns h small =
    expired_context m received_at_ns
      (omega (arith, (compute_deadline_ns_lem received_at_ns m.tmax_ms h).1 small))
