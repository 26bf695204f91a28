-- ===== src/Decision/Round.antt =====
-- One round of the loop of `make_bid_decision` (src/decision.cc), over all its branches, and the
-- prices that the candidates draw.
use rtb_engine.Base.{
  ◌≡◌, ◌≢◌, refl, sym, ap, ◌∙◌, subst, inl, inr, true, false, not, ◌||◌, List, [], ◌∷◌, ◌++◌,
  Option, none, some, arith, is_empty, All, Listed, Option-cases,
}
use rtb_engine.Types.{CampaignRecord, CreativeRecord, CampaignView, valid}
use rtb_engine.Double.{Double, IsIeee, ◌≼◌}
use rtb_engine.Rng.{WorkerRng}
use rtb_engine.Rng.Range.{IsValid}
use rtb_engine.Decision.{
  Best, choose_random_creative, generate_bid_price, consider_bid, consider_campaign,
  consider_candidate,
}
use rtb_engine.Decision.Winner.{
  Choice, nothing, chosen, choose_random_creative-Choice, Sound, can_bid, Sound-consider_bid,
  consider_bid-has_bid, consider_bid-kept, consider_bid-drawn,
}

module _ {F : Type 0} ⦃d : Double F⦄ where
  -- The prices that a candidate draws, one or none, and the generator after it.
  pub draw_price : Option CreativeRecord × WorkerRng → List F × WorkerRng
  draw_price (none, rng) = ([], rng)
  draw_price (some c, rng) = ((generate_bid_price rng).0 ∷ [], (generate_bid_price {F = F} rng).1)

  pub draw_offer : CampaignView F → WorkerRng → List F × WorkerRng
  draw_offer candidate rng = elim candidate.campaign [
    | none ↦ ([], rng)
    | some campaign ↦ draw_price (choose_random_creative candidate.creatives rng)
  ]

  -- All prices that the candidates draw, in order.
  unfoldable pub drawn_prices : List (CampaignView F) → WorkerRng → List F
  drawn_prices [] rng = []
  drawn_prices (candidate ∷ candidates) rng =
      let (offer, rng') = draw_offer candidate rng in offer ++ drawn_prices candidates rng'

module _ {F : Type 0} ⦃d : Double F⦄ (laws : IsIeee F) (candidates : List (CampaignView F)) where
  -- What one round does: nothing but draws, or a bid that replaces a lower one.
  pub record Round (candidate : CampaignView F) (before after : Best F) : Type 0 where
    pub sound : Sound laws candidates after
    pub bids :
        after.best_decision.has_bid ≡ (before.best_decision.has_bid || can_bid laws candidate)
    pub kept : (x : F) → x ≼ before.best_bid_price → x ≼ after.best_bid_price
    pub covered : All (λ p. p ≼ after.best_bid_price) (draw_offer candidate before.rng).0
    pub stepped : after.rng ≡ (draw_offer candidate before.rng).1

  -- A round that only moves the generator on.
  rest_Sound :
      (before : Best F) (rng : WorkerRng)
      → Sound laws candidates before
      → IsValid rng
      → Sound laws candidates (record before { rng = rng })
  rest_Sound before rng s v = record {
    rng_valid = v;
    waiting = s.waiting;
    backed = s.backed;
    leading = s.leading;
  }

  consider_bid-rng :
      (campaign : CampaignRecord F) (creative : CreativeRecord) (best : Best F)
      → (consider_bid campaign creative best).rng ≡ (generate_bid_price {F = F} best.rng).1
  unfolding consider_bid
  consider_bid-rng campaign creative best = ground arith

  not_empty : (xs : List CreativeRecord) → xs ≢ [] → is_empty xs ≡ false
  not_empty [] h = absurd (h refl)
  not_empty (x ∷ xs) h = refl

  module _ (candidate : CampaignView F) (listed : Listed candidate candidates) where
    can_bid-campaign :
        (campaign : CampaignRecord F)
        → candidate.campaign ≡ some campaign
        → can_bid laws candidate ≡ not (is_empty candidate.creatives)
    unfolding valid
    can_bid-campaign campaign at = rw (at, valid)

    consider_campaign-none :
        (campaign : CampaignRecord F) (before : Best F) (rng : WorkerRng)
        → choose_random_creative candidate.creatives before.rng ≡ (none, rng)
        → consider_campaign campaign candidate.creatives before ≡ record before { rng = rng }
    unfolding consider_campaign
    consider_campaign-none campaign before rng e = ground arith

    consider_campaign-some :
        (campaign : CampaignRecord F) (before : Best F) (rng : WorkerRng)
        (creative : CreativeRecord)
        → choose_random_creative candidate.creatives before.rng ≡ (some creative, rng)
        → consider_campaign campaign candidate.creatives before
          ≡ consider_bid campaign creative (record before { rng = rng })
    unfolding consider_campaign
    consider_campaign-some campaign before rng creative e = ground arith

    draw_offer-campaign :
        (campaign : CampaignRecord F) (rng : WorkerRng) (r : Option CreativeRecord × WorkerRng)
        → candidate.campaign ≡ some campaign
        → choose_random_creative candidate.creatives rng ≡ r
        → draw_offer candidate rng ≡ draw_price r
    unfolding draw_offer
    draw_offer-campaign campaign rng r at e = rw (at, e)

    Round-nothing :
        (campaign : CampaignRecord F) (before : Best F) (rng : WorkerRng)
        → candidate.campaign ≡ some campaign
        → Sound laws candidates before
        → choose_random_creative candidate.creatives before.rng ≡ (none, rng)
        → candidate.creatives ≡ []
        → IsValid rng
        → Round candidate before (record before { rng = rng })
    unfolding draw_price
    Round-nothing campaign before rng at s e empty v = record {
      sound = rest_Sound before rng s v;
      bids = ground (arith, can_bid-campaign campaign at, ap is_empty empty);
      kept = λ x h. h;
      covered = rw (draw_offer-campaign campaign before.rng (none, rng) at e) tt;
      stepped = rw (draw_offer-campaign campaign before.rng (none, rng) at e) refl;
    }

    Round-chosen :
        (campaign : CampaignRecord F) (before : Best F) (rng : WorkerRng)
        (creative : CreativeRecord)
        → candidate.campaign ≡ some campaign
        → Sound laws candidates before
        → choose_random_creative candidate.creatives before.rng ≡ (some creative, rng)
        → candidate.creatives ≢ []
        → Listed creative candidate.creatives
        → IsValid rng
        → Round candidate before (consider_bid campaign creative (record before { rng = rng }))
    unfolding draw_price
    Round-chosen campaign before rng creative at s e there from v = record {
      sound =
          Sound-consider_bid laws candidates candidate listed campaign creative moved at from
            moved_Sound;
      bids =
          consider_bid-has_bid laws candidates candidate listed campaign creative moved moved_Sound
          ∙ sym biddable;
      kept = consider_bid-kept laws candidates candidate listed campaign creative moved moved_Sound;
      covered = rw (draw_offer-campaign campaign before.rng (some creative, rng) at e) (
        consider_bid-drawn laws candidates candidate listed campaign creative moved moved_Sound,
        tt,
      );
      stepped =
          rw (draw_offer-campaign campaign before.rng (some creative, rng) at e)
            (consider_bid-rng campaign creative moved);
    }
      where
        moved : Best F
        moved = record before { rng = rng }

        moved_Sound : Sound laws candidates moved
        moved_Sound = rest_Sound before rng s v

        biddable : (before.best_decision.has_bid || can_bid laws candidate) ≡ true
        biddable = ground (arith, can_bid-campaign campaign at, not_empty candidate.creatives there)

    Round-Choice :
        (campaign : CampaignRecord F) (before : Best F) (r : Option CreativeRecord × WorkerRng)
        → candidate.campaign ≡ some campaign
        → Sound laws candidates before
        → choose_random_creative candidate.creatives before.rng ≡ r
        → Choice candidate.creatives r
        → Round candidate before (consider_campaign campaign candidate.creatives before)
    Round-Choice campaign before r at s e (nothing {rng = rng} empty v) =
        subst (Round candidate before) (sym (consider_campaign-none campaign before rng e))
          (Round-nothing campaign before rng at s e empty v)
    Round-Choice campaign before r at s e (chosen {rng = rng} creative there from v) =
        subst (Round candidate before) (sym (consider_campaign-some campaign before rng creative e))
          (Round-chosen campaign before rng creative at s e there from v)

    consider_candidate-null :
        (before : Best F) → candidate.campaign ≡ none → consider_candidate candidate before ≡ before
    unfolding consider_candidate
    consider_candidate-null before e = ground arith

    consider_candidate-campaign :
        (before : Best F) (campaign : CampaignRecord F)
        → candidate.campaign ≡ some campaign
        → consider_candidate candidate before
          ≡ consider_campaign campaign candidate.creatives before
    unfolding consider_candidate
    consider_candidate-campaign before campaign e = ground arith

    draw_offer-null :
        (rng : WorkerRng) → candidate.campaign ≡ none → draw_offer candidate rng ≡ ([], rng)
    unfolding draw_offer
    draw_offer-null rng e = ground arith

    can_bid-null : candidate.campaign ≡ none → can_bid laws candidate ≡ false
    unfolding valid
    can_bid-null e = ground arith

    -- Each round keeps the invariant, on each of its branches.
    pub consider_candidate-Round :
        (before : Best F)
        → Sound laws candidates before
        → Round candidate before (consider_candidate candidate before)
    consider_candidate-Round before s = elim (Option-cases candidate.campaign) [
      | inl null ↦
          subst (Round candidate before) (sym (consider_candidate-null before null)) (record {
            sound = s;
            bids = ground (arith, can_bid-null null);
            kept = λ x h. h;
            covered = rw (draw_offer-null before.rng null) tt;
            stepped = rw (draw_offer-null before.rng null) refl;
          })
      | inr (campaign, at) ↦
          subst (Round candidate before) (sym (consider_candidate-campaign before campaign at)) (
            Round-Choice campaign before (choose_random_creative candidate.creatives before.rng) at
              s refl (choose_random_creative-Choice candidate.creatives before.rng s.rng_valid))
    ]
