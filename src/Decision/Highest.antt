-- ===== src/Decision/Highest.antt =====
-- `make_bid_decision` of src/decision.cc as a whole, over the list of candidates.
use rtb_engine.Base.{
  ◌≡◌, refl, sym, ap, ◌∙◌, subst, inl, inr, ◌↔◌, Bool, true, false, ◌||◌, List, [], ◌∷◌, arith,
  if◌then◌else◌, All, All-append, All-map, All-Listed, Listed, Bool-cases,
}
use mathlib.Core.Bool.{false≢true}
use rtb_engine.Types.{RequestContext, is_eligible, NoBidReason, CampaignView, BidDecision}
use rtb_engine.Double.{Double, IsIeee, ◌≼◌}
use rtb_engine.Rng.{WorkerRng}
use rtb_engine.Rng.Range.{IsValid}
use rtb_engine.Decision.{Best, no_bid, consider_candidate, choose_best, make_bid_decision}
use rtb_engine.Decision.Winner.{Backed, Sound, can_bid}
use rtb_engine.Decision.Round.{draw_offer, drawn_prices, Round, consider_candidate-Round}

module _ {F : Type 0} ⦃d : Double F⦄ (laws : IsIeee F) where
  -- Some candidate of the list can make an offer.
  abbrev pub any_can_bid : List (CampaignView F) → Bool
  any_can_bid [] = false
  any_can_bid (c ∷ cs) = can_bid laws c || any_can_bid cs

  -- What the loop over the rest of the candidates does.
  record Run (candidates rest : List (CampaignView F)) (before after : Best F) : Type 0 where
    sound : Sound laws candidates after
    bids : after.best_decision.has_bid ≡ (before.best_decision.has_bid || any_can_bid rest)
    kept : (x : F) → x ≼ before.best_bid_price → x ≼ after.best_bid_price
    covered : All (λ p. p ≼ after.best_bid_price) (drawn_prices rest before.rng)

  Run-Round :
      (candidates : List (CampaignView F)) (c : CampaignView F) (rest : List (CampaignView F))
      (before between after : Best F)
      → Round laws candidates c before between
      → Run candidates rest between after
      → Run candidates (c ∷ rest) before after
  unfolding drawn_prices
  Run-Round candidates c rest before between after now later = record {
    sound = later.sound;
    bids = ground (arith, now.bids, later.bids);
    kept = λ x h. later.kept x (now.kept x h);
    covered =
        All-append (λ p. p ≼ after.best_bid_price) (draw_offer c before.rng).0 _
          (All-map (λ p. p ≼ between.best_bid_price) (λ p. p ≼ after.best_bid_price)
            (draw_offer c before.rng).0 later.kept now.covered)
          (subst (λ g. All (λ p. p ≼ after.best_bid_price) (drawn_prices rest g)) now.stepped
            later.covered);
  }

  choose_best-Run :
      (candidates rest : List (CampaignView F)) (before : Best F)
      → All (λ c. Listed c candidates) rest
      → Sound laws candidates before
      → Run candidates rest before (choose_best rest before)
  unfolding choose_best drawn_prices
  choose_best-Run candidates [] before l s = record {
    sound = s;
    bids = ground arith;
    kept = λ x h. h;
    covered = tt;
  }
  choose_best-Run candidates (c ∷ rest) before l s =
      let now : Round laws candidates c before (consider_candidate c before) =
        consider_candidate-Round laws candidates c l.0 before s in
      Run-Round candidates c rest before _ _ now
        (choose_best-Run candidates rest (consider_candidate c before) l.1 now.sound)

  abbrev start : WorkerRng → Best F
  start rng = record {
    best_decision = no_bid NoBidReason.no_eligible_campaign;
    best_bid_price = d.neg_infinity;
    rng = rng;
  }

  start-Sound :
      (candidates : List (CampaignView F)) (rng : WorkerRng)
      → IsValid rng
      → Sound laws candidates (start rng)
  start-Sound candidates rng v = record {
    rng_valid = v;
    waiting = λ _. (refl, refl);
    backed = λ e. absurd (false≢true e);
    leading = λ e. absurd (false≢true e);
  }

  last : List (CampaignView F) → WorkerRng → Best F
  last candidates rng = choose_best candidates (start rng)

  last-Run :
      (candidates : List (CampaignView F)) (rng : WorkerRng)
      → IsValid rng
      → Run candidates candidates (start rng) (last candidates rng)
  unfolding last
  last-Run candidates rng v =
      choose_best-Run candidates candidates (start rng)
        (All-Listed (λ c. Listed c candidates) candidates (λ c l. l)) (start-Sound candidates rng v)

  decision_eligible :
      (context : RequestContext) (candidates : List (CampaignView F)) (rng : WorkerRng)
      → is_eligible context ≡ true
      → make_bid_decision context candidates rng
        ≡ ((last candidates rng).best_decision, (last candidates rng).rng)
  unfolding make_bid_decision last choose_best
  decision_eligible context [] rng e = rw e
  decision_eligible context (c ∷ cs) rng e = rw e

  decision_ineligible :
      (context : RequestContext) (candidates : List (CampaignView F)) (rng : WorkerRng)
      → is_eligible context ≡ false
      → make_bid_decision context candidates rng ≡ (no_bid context.no_bid_reason, rng)
  unfolding make_bid_decision
  decision_ineligible context candidates rng e = rw e

  module _ (context : RequestContext) (candidates : List (CampaignView F)) (rng : WorkerRng) where
    abbrev decided : BidDecision F
    decided = (make_bid_decision context candidates rng).0

    bid_eligible : decided.has_bid ≡ true → is_eligible context ≡ true
    bid_eligible h = elim (Bool-cases (is_eligible context)) [
      | inl e ↦ e
      | inr e ↦ absurd (
          false≢true
            (sym (ap (λ p. p.0.has_bid) (decision_ineligible context candidates rng e)) ∙ h))
    ]

    -- With a valid generator there is a bid exactly when the request is eligible and some
    -- candidate has a campaign and a creative.
    pub make_bid_decision-has_bid :
        IsValid rng
        → (decided.has_bid ≡ true)
          ↔ ((is_eligible context ≡ true) × (any_can_bid candidates ≡ true))
    make_bid_decision-has_bid v = (forth, back)
      where
        forth :
            decided.has_bid ≡ true → (is_eligible context ≡ true) × (any_can_bid candidates ≡ true)
        forth h =
            let e = bid_eligible h in
            (
              e,
              sym (last-Run candidates rng v).bids
                  ∙ sym (ap (λ p. p.0.has_bid) (decision_eligible context candidates rng e))
                  ∙ h,
            )

        back :
            (is_eligible context ≡ true) × (any_can_bid candidates ≡ true) → decided.has_bid ≡ true
        back (e, some_can) =
            ap (λ p. p.0.has_bid) (decision_eligible context candidates rng e)
            ∙ (last-Run candidates rng v).bids
            ∙ some_can

    -- With a valid generator, a bid names a campaign of one of the candidates and a creative of
    -- that candidate, at a finite price between the configured bounds, with no no-bid reason.
    pub make_bid_decision-Backed :
        IsValid rng → decided.has_bid ≡ true → Backed laws candidates decided
    make_bid_decision-Backed v h =
        let path : decided ≡ (last candidates rng).best_decision =
          ap (λ p. p.0) (decision_eligible context candidates rng (bid_eligible h)) in
        subst (Backed laws candidates) (sym path) (
          (last-Run candidates rng v).sound.backed
            (ap (λ (b : BidDecision F). b.has_bid) (sym path) ∙ h))

    -- With a valid generator, the price of a bid is at least every price that was drawn for a
    -- candidate.
    pub make_bid_decision-highest :
        IsValid rng
        → decided.has_bid ≡ true
        → All (λ p. p ≼ decided.bid_price) (drawn_prices candidates rng)
    make_bid_decision-highest v h =
        let path : decided ≡ (last candidates rng).best_decision =
          ap (λ p. p.0) (decision_eligible context candidates rng (bid_eligible h)) in
        let top : (last candidates rng).best_bid_price ≡ decided.bid_price =
          (last-Run candidates rng v).sound.leading
            (ap (λ (b : BidDecision F). b.has_bid) (sym path) ∙ h)
          ∙ ap (λ (b : BidDecision F). b.bid_price) (sym path) in
        subst (λ t. All (λ p. p ≼ t) (drawn_prices candidates rng)) top
          (last-Run candidates rng v).covered

    -- With a valid generator, a decision without a bid is the empty one, with the reason of the
    -- context for a request that is not eligible and `no_eligible_campaign` for one that is.
    pub make_bid_decision-no_bid :
        IsValid rng
        → decided.has_bid ≡ false
        → decided
          ≡ no_bid (
              if is_eligible context
              then NoBidReason.no_eligible_campaign
              else context.no_bid_reason)
    make_bid_decision-no_bid v h = elim (Bool-cases (is_eligible context)) [
      | inl e ↦
          let path = decision_eligible context candidates rng e in
          ap (λ p. p.0) path
          ∙ ((last-Run candidates rng v).sound.waiting (sym (ap (λ p. p.0.has_bid) path) ∙ h)).0
          ∙ reason e
      | inr e ↦ ap (λ p. p.0) (decision_ineligible context candidates rng e) ∙ reason e
    ]
      where
        reason :
            {q : Bool}
            → is_eligible context ≡ q
            → no_bid {F = F} (if q then NoBidReason.no_eligible_campaign else context.no_bid_reason)
              ≡ no_bid {F = F} (
                  if is_eligible context
                  then NoBidReason.no_eligible_campaign
                  else context.no_bid_reason)
        reason e =
            ap
              (λ t.
                no_bid {F = F}
                  (if t then NoBidReason.no_eligible_campaign else context.no_bid_reason))
              (sym e)

    -- A decision leaves the generator in a valid state.
    pub make_bid_decision-IsValid :
        IsValid rng → IsValid (make_bid_decision context candidates rng).1
    make_bid_decision-IsValid v = elim (Bool-cases (is_eligible context)) [
      | inl e ↦
          subst (λ p. IsValid p.1) (sym (decision_eligible context candidates rng e))
            (last-Run candidates rng v).sound.rng_valid
      | inr e ↦ subst (λ p. IsValid p.1) (sym (decision_ineligible context candidates rng e)) v
    ]
