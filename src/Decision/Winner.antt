-- ===== src/Decision/Winner.antt =====
-- The best offer so far in the loop of `make_bid_decision` (src/decision.cc).
use rtb_engine.Base.{
  ◌≡◌, ◌≢◌, refl, sym, ap, ◌∙◌, subst, inl, inr, Bool, true, false, not, ◌&&◌, List, [], ◌∷◌,
  Option, none, some, arith, length, get_elem?-lt, is_empty, Listed, Bool-cases,
}
use mathlib.Core.Bool.{true≢false, false≢true}
use rtb_engine.Types.{NoBidReason, CampaignRecord, CreativeRecord, CampaignView, valid, BidDecision}
use rtb_engine.Double.{Double, IsIeee, ◌≼◌}
use rtb_engine.Rng.{WorkerRng, uniform_index}
use rtb_engine.Rng.Range.{IsValid, uniform_index_lem}
use rtb_engine.Decision.{
  Best, choose_random_creative, generate_bid_price, no_bid, bid_of, consider_bid,
}
use rtb_engine.Decision.Price.{InRange, generate_bid_price-InRange}

-- A creative is chosen exactly when there is one, from the list, and the generator stays valid.
pub data Choice (creatives : List CreativeRecord) : Option CreativeRecord × WorkerRng → Type 0 where
  nothing : {rng : WorkerRng} → creatives ≡ [] → IsValid rng → Choice creatives (none, rng)
  chosen :
      {rng : WorkerRng} (creative : CreativeRecord)
      → creatives ≢ []
      → Listed creative creatives
      → IsValid rng
      → Choice creatives (some creative, rng)

pub choose_random_creative-Choice :
    (creatives : List CreativeRecord) (rng : WorkerRng)
    → IsValid rng
    → Choice creatives (choose_random_creative creatives rng)
unfolding choose_random_creative
choose_random_creative-Choice [] rng v = nothing refl v
choose_random_creative-Choice (c ∷ cs) rng v =
    let draw = uniform_index_lem rng (length (c ∷ cs)) v in
    let (creative, e) =
      get_elem?-lt (c ∷ cs) (uniform_index rng (length (c ∷ cs))).0 (draw.0 (omega arith)) in
    rw e (chosen creative (λ p. cc) ((uniform_index rng (length (c ∷ cs))).0, e) draw.1)

module _ {F : Type 0} ⦃d : Double F⦄ (laws : IsIeee F) where
  open laws use {is_finite}

  -- A bid for a campaign of the candidates, with one of its creatives, at a permitted price.
  pub record Backed (candidates : List (CampaignView F)) (decision : BidDecision F) : Type 0 where
    pub candidate : CampaignView F
    pub listed : Listed candidate candidates
    pub campaign : CampaignRecord F
    pub campaign_at : candidate.campaign ≡ some campaign
    pub creative : CreativeRecord
    pub creative_listed : Listed creative candidate.creatives
    pub shape : decision ≡ bid_of campaign creative decision.bid_price
    pub price : InRange laws decision.bid_price

  -- What holds of the loop's variables before and after each round.
  pub record Sound (candidates : List (CampaignView F)) (best : Best F) : Type 0 where
    pub rng_valid : IsValid best.rng
    pub waiting :
        best.best_decision.has_bid ≡ false
        → (best.best_decision ≡ no_bid NoBidReason.no_eligible_campaign)
          × (best.best_bid_price ≡ d.neg_infinity)
    pub backed : best.best_decision.has_bid ≡ true → Backed candidates best.best_decision
    pub leading :
        best.best_decision.has_bid ≡ true → best.best_bid_price ≡ best.best_decision.bid_price

  -- A candidate with a campaign and at least one creative can make an offer.
  abbrev pub can_bid : CampaignView F → Bool
  can_bid candidate = valid candidate && not (is_empty candidate.creatives)

  module _ (campaign : CampaignRecord F) (creative : CreativeRecord) (best : Best F) where
    abbrev pub price : F
    price = (generate_bid_price best.rng).0

    abbrev pub next_rng : WorkerRng
    next_rng = (generate_bid_price {F = F} best.rng).1

    pub consider_bid-lower :
        d.le price best.best_bid_price ≡ true
        → consider_bid campaign creative best ≡ record best { rng = next_rng }
    unfolding consider_bid
    consider_bid-lower h = rw h

    pub consider_bid-higher :
        d.le price best.best_bid_price ≡ false
        → consider_bid campaign creative best ≡ record {
          best_decision = bid_of campaign creative price;
          best_bid_price = price;
          rng = next_rng;
        }
    unfolding consider_bid
    consider_bid-higher h = rw h

  module _ (candidates : List (CampaignView F)) (candidate : CampaignView F)
      (listed : Listed candidate candidates) where
    pub Sound-consider_bid :
        (campaign : CampaignRecord F) (creative : CreativeRecord) (best : Best F)
        → candidate.campaign ≡ some campaign
        → Listed creative candidate.creatives
        → Sound candidates best
        → Sound candidates (consider_bid campaign creative best)
    Sound-consider_bid campaign creative best at from s =
        elim (Bool-cases (d.le (price campaign creative best) best.best_bid_price)) [
          | inl lower ↦
              subst (Sound candidates) (sym (consider_bid-lower campaign creative best lower))
                (record {
                  rng_valid = drawn.1;
                  waiting = s.waiting;
                  backed = s.backed;
                  leading = s.leading;
                })
          | inr higher ↦
              subst (Sound candidates) (sym (consider_bid-higher campaign creative best higher))
                (record {
                  rng_valid = drawn.1;
                  waiting = λ e. absurd (true≢false e);
                  backed = λ _. record {
                    candidate = candidate;
                    listed = listed;
                    campaign = campaign;
                    campaign_at = at;
                    creative = creative;
                    creative_listed = from;
                    shape = refl;
                    price = drawn.0;
                  };
                  leading = λ _. refl;
                })
        ]
      where
        drawn :
            InRange laws (price campaign creative best) × IsValid (next_rng campaign creative best)
        drawn = generate_bid_price-InRange laws best.rng s.rng_valid

    -- A bid is made, or the bid that stands is at least as high.
    pub consider_bid-has_bid :
        (campaign : CampaignRecord F) (creative : CreativeRecord) (best : Best F)
        → Sound candidates best
        → (consider_bid campaign creative best).best_decision.has_bid ≡ true
    consider_bid-has_bid campaign creative best s =
        elim (Bool-cases (d.le (price campaign creative best) best.best_bid_price)) [
          | inr higher ↦
              ap (λ (b : Best F). b.best_decision.has_bid)
                (consider_bid-higher campaign creative best higher)
          | inl lower ↦
              ap (λ (b : Best F). b.best_decision.has_bid)
                (consider_bid-lower campaign creative best lower)
              ∙ elim (Bool-cases best.best_decision.has_bid) [
                | inl bid ↦ bid
                | inr none_yet ↦ absurd (
                    false≢true (
                      sym (laws.neg_infinity_lt _ drawn.0.finite)
                      ∙ ap (d.le (price campaign creative best)) (sym (s.waiting none_yet).1)
                      ∙ lower))
              ]
        ]
      where
        drawn :
            InRange laws (price campaign creative best) × IsValid (next_rng campaign creative best)
        drawn = generate_bid_price-InRange laws best.rng s.rng_valid

    pub consider_bid-kept :
        (campaign : CampaignRecord F) (creative : CreativeRecord) (best : Best F)
        → Sound candidates best
        → (x : F) → x ≼ best.best_bid_price
        → x ≼ (consider_bid campaign creative best).best_bid_price
    consider_bid-kept campaign creative best s x h =
        elim (Bool-cases (d.le (price campaign creative best) best.best_bid_price)) [
          | inl lower ↦
              subst (λ (b : Best F). x ≼ b.best_bid_price)
                (sym (consider_bid-lower campaign creative best lower)) h
          | inr higher ↦
              subst (λ (b : Best F). x ≼ b.best_bid_price)
                (sym (consider_bid-higher campaign creative best higher))
                (laws.le_trans _ _ _ h (raises higher))
        ]
      where
        finite : is_finite (price campaign creative best) ≡ true
        finite = (generate_bid_price-InRange laws best.rng s.rng_valid).0.finite

        raises :
            d.le (price campaign creative best) best.best_bid_price ≡ false
            → best.best_bid_price ≼ price campaign creative best
        raises higher = elim (Bool-cases best.best_decision.has_bid) [
          | inr none_yet ↦
              subst (λ y. y ≼ price campaign creative best) (sym (s.waiting none_yet).1)
                (laws.neg_infinity_le _ finite)
          | inl bid ↦
              elim (laws.le_total (price campaign creative best) best.best_bid_price finite
                (ap is_finite (s.leading bid) ∙ (s.backed bid).price.finite)) [
                  | inl below ↦ absurd (false≢true (sym higher ∙ below))
                  | inr above ↦ above
                ]
        ]

    -- The price that was drawn does not exceed what leads afterwards.
    pub consider_bid-drawn :
        (campaign : CampaignRecord F) (creative : CreativeRecord) (best : Best F)
        → Sound candidates best
        → price campaign creative best ≼ (consider_bid campaign creative best).best_bid_price
    consider_bid-drawn campaign creative best s =
        elim (Bool-cases (d.le (price campaign creative best) best.best_bid_price)) [
          | inl lower ↦
              subst (λ (b : Best F). price campaign creative best ≼ b.best_bid_price)
                (sym (consider_bid-lower campaign creative best lower)) lower
          | inr higher ↦
              subst (λ (b : Best F). price campaign creative best ≼ b.best_bid_price)
                (sym (consider_bid-higher campaign creative best higher))
                (elim (laws.le_total _ _ finite finite) [ inl e ↦ e | inr e ↦ e ])
        ]
      where
        finite : is_finite (price campaign creative best) ≡ true
        finite = (generate_bid_price-InRange laws best.rng s.rng_valid).0.finite
