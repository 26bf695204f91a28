-- ===== src/Request/Outcome.antt =====
-- The branches of `handle_request` (src/handle_request.cc): when the connection is to be dropped,
-- when the request is too late, and what every response carries.
use rtb_engine.Base.{
  ℕ, ◌≤◌, ◌<◌, ◌≡◌, ◌↔◌, refl, sym, ap, ◌∙◌, subst, inl, inr, true, false, Option, arith,
  Bool-cases,
}
use mathlib.Core.Bool.{false≢true}
use rtb_engine.Types.{
  NoBidReason, RequestProcessingStatus, ParsedMessage, RequestContext, is_eligible,
  CampaignStoreSnapshot, BidDecision,
}
use rtb_engine.Double.{Double}
use rtb_engine.Rng.{WorkerRng}
use rtb_engine.Protobuf.{bid_status_bid}
use rtb_engine.Normalize.{compute_deadline_ns, initial_context, build_request_context}
use rtb_engine.Retrieve.{retrieve_candidates}
use rtb_engine.Decision.{no_bid, make_bid_decision}
use rtb_engine.Response.{build_bid_response}
use rtb_engine.Request.Keys.{
  message_lacks_key, lacks_key-same, HasKeys, HasKeys-lacks_key, lacks_key-none,
}
use rtb_engine.Request.{
  HandleRequestStatus, HandleRequestTimingBreakdown, lacks_key, validate_request_context,
  request_context, result_status, short_timing, full_timing, Handled, handle_in, handle_request,
}

context_drops :
    (m : ParsedMessage) (t : ℕ)
    → m.processing_status ≡ RequestProcessingStatus.ok
    → (result_status (validate_request_context (build_request_context m t))
        ≡ HandleRequestStatus.drop_connection)
      ↔ (lacks_key (build_request_context m t) ≡ true)
unfolding result_status validate_request_context build_request_context initial_context
context_drops m t h = (λ e. ground arith, λ e. ground arith)

pub context_eligible :
    (m : ParsedMessage) (t : ℕ)
    → is_eligible (validate_request_context (build_request_context m t)) ≡ true
    → (lacks_key (build_request_context m t) ≡ false)
      × (m.processing_status ≡ RequestProcessingStatus.ok)
      × (t < compute_deadline_ns t m.tmax_ms)
unfolding is_eligible validate_request_context build_request_context initial_context
context_eligible m t h = ground arith

pub eligible_context :
    (m : ParsedMessage) (t : ℕ)
    → lacks_key (build_request_context m t) ≡ false
    → m.processing_status ≡ RequestProcessingStatus.ok
    → t < compute_deadline_ns t m.tmax_ms
    → is_eligible (validate_request_context (build_request_context m t)) ≡ true
unfolding is_eligible validate_request_context build_request_context initial_context
eligible_context m t h k l = ground arith

late_context :
    (m : ParsedMessage) (t : ℕ)
    → lacks_key (build_request_context m t) ≡ false
    → compute_deadline_ns t m.tmax_ms ≤ t
    → (result_status (validate_request_context (build_request_context m t))
        ≡ HandleRequestStatus.response_ready)
      × (is_eligible (validate_request_context (build_request_context m t)) ≡ false)
      × ((validate_request_context (build_request_context m t)).no_bid_reason
          ≡ NoBidReason.deadline_exceeded)
unfolding result_status is_eligible validate_request_context build_request_context initial_context
late_context m t h k = ground arith

context_id :
    (m : ParsedMessage) (t : ℕ)
    → (validate_request_context (build_request_context m t)).request_id ≡ m.request_id
unfolding validate_request_context build_request_context initial_context
context_id m t = ground arith

module _ {F : Type 0} ⦃d : Double F⦄ (now : ℕ → ℕ) (context : RequestContext)
    (store : CampaignStoreSnapshot F) (rng : WorkerRng)
    (timing : Option HandleRequestTimingBreakdown) where
  pub handle_in_early :
      is_eligible context ≡ false
      → handle_in now context store rng timing ≡ record {
        result = record {
          status = result_status context;
          context = context;
          decision = no_bid context.no_bid_reason;
          response = build_bid_response context (no_bid context.no_bid_reason);
        };
        rng = rng;
        timing = short_timing now timing;
      }
  unfolding handle_in
  handle_in_early e = rw e refl

  pub handle_in_full :
      is_eligible context ≡ true
      → handle_in now context store rng timing ≡ record {
        result = record {
          status = result_status context;
          context = context;
          decision = (make_bid_decision context (retrieve_candidates store context) rng).0;
          response =
              build_bid_response context
                (make_bid_decision context (retrieve_candidates store context) rng).0;
        };
        rng = (make_bid_decision context (retrieve_candidates store context) rng).1;
        timing = full_timing now timing;
      }
  unfolding handle_in
  handle_in_full e = rw e refl

  handle_in_shape :
      ((handle_in now context store rng timing).result.status ≡ result_status context)
      × ((handle_in now context store rng timing).result.context ≡ context)
      × ((handle_in now context store rng timing).result.response
          ≡ build_bid_response context (handle_in now context store rng timing).result.decision)
  handle_in_shape = elim (Bool-cases (is_eligible context)) [
    | inl e ↦ let p = handle_in_full e in rw p (refl, refl, refl)
    | inr e ↦ let p = handle_in_early e in rw p (refl, refl, refl)
  ]

response_id :
    {F : Type 0} ⦃d : Double F⦄ (context : RequestContext) (decision : BidDecision F)
    → (build_bid_response context decision).request_id ≡ context.request_id
unfolding build_bid_response
response_id context decision = ground arith

response_status :
    {F : Type 0} ⦃d : Double F⦄ (context : RequestContext) (decision : BidDecision F)
    → ((build_bid_response context decision).status ≡ bid_status_bid) ↔ (decision.has_bid ≡ true)
unfolding build_bid_response
response_status context decision = (λ h. ground arith, λ h. ground arith)

module _ {F : Type 0} ⦃d : Double F⦄ (now : ℕ → ℕ) (m : ParsedMessage) (t : ℕ)
    (store : CampaignStoreSnapshot F) (rng : WorkerRng)
    (timing : Option HandleRequestTimingBreakdown) where
  abbrev handled : Handled F
  handled = handle_request now m t store rng timing

  -- For a message that the parser accepted, the connection is to be dropped exactly when the
  -- country, device type or ad slot of the message has the key for "none", or the auction type is
  -- unspecified.
  pub handle_request-drops :
      m.processing_status ≡ RequestProcessingStatus.ok
      → (handled.result.status ≡ HandleRequestStatus.drop_connection) ↔ (¬ HasKeys m)
  unfolding handle_request
  handle_request-drops h =
      let shape = handle_in_shape now (request_context m t) store rng timing in
      let (forth, back) = context_drops m t h in
      (
        λ e k.
            false≢true
              (sym (HasKeys-lacks_key m k) ∙ sym (lacks_key-same m t) ∙ forth (sym shape.0 ∙ e)),
        λ n. shape.0 ∙ back (lacks_key-same m t ∙ lacks_key-none m n),
      )

  -- A message with all its keys whose deadline is not after its arrival is answered without a bid,
  -- for the reason `deadline_exceeded`; the connection stays, and no random number is drawn.
  pub handle_request-expired :
      message_lacks_key m ≡ false
      → compute_deadline_ns t m.tmax_ms ≤ t
      → (handled.result.status ≡ HandleRequestStatus.response_ready)
        × (handled.result.decision ≡ no_bid NoBidReason.deadline_exceeded)
        × (handled.rng ≡ rng)
  unfolding handle_request
  handle_request-expired h k =
      let late = late_context m t (lacks_key-same m t ∙ h) k in
      let p = handle_in_early now (request_context m t) store rng timing late.1 in
      (
        ap (λ (r : Handled F). r.result.status) p ∙ late.0,
        ap (λ (r : Handled F). r.result.decision) p ∙ ap no_bid late.2,
        ap (λ (r : Handled F). r.rng) p,
      )

  -- On every branch the response carries the id of the request, and its status announces a bid
  -- exactly when the decision has one.
  pub handle_request-answers :
      (handled.result.response.request_id ≡ m.request_id)
      × ((handled.result.response.status ≡ bid_status_bid)
          ↔ (handled.result.decision.has_bid ≡ true))
  unfolding handle_request
  handle_request-answers =
      let shape = handle_in_shape now (request_context m t) store rng timing in
      (
        ap (λ r. r.request_id) shape.2
            ∙ response_id (request_context m t) handled.result.decision
            ∙ context_id m t,
        subst (λ r. (r.status ≡ bid_status_bid) ↔ (handled.result.decision.has_bid ≡ true))
            (sym shape.2) (response_status (request_context m t) handled.result.decision),
      )
