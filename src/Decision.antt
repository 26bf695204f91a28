-- ===== src/Decision.antt =====
-- src/decision.cc: one offer for each candidate that has a creative, at a random price, and the
-- highest offer wins, the first of equal ones.
mod Examples
pub mod Price
pub mod Winner
pub mod Round
pub mod Highest
use rtb_engine.Base.{
  true, false, not, List, [], ◌∷◌, Option, none, some, if◌then◌else◌, get_elem?, length, is_empty,
}
use rtb_engine.Types.{
  RequestContext, is_eligible, NoBidReason, CampaignRecord, CreativeRecord, CampaignView,
  BidDecision,
}
use rtb_engine.Double.{Double, zero_double, min_bid_price, price_width}
use rtb_engine.Rng.{WorkerRng, next_unit_double, uniform_index}

-- What the loop of `make_bid_decision` carries from one candidate to the next.
pub record Best (F : Type 0) : Type 0 where
  pub best_decision : BidDecision F
  pub best_bid_price : F
  pub rng : WorkerRng

-- `none` for the null pointer.
unfoldable pub choose_random_creative :
    List CreativeRecord → WorkerRng → Option CreativeRecord × WorkerRng
choose_random_creative creatives rng =
    let (index, rng') = uniform_index rng (length creatives) in
    if is_empty creatives then (none, rng) else (get_elem? creatives index, rng')

module _ {F : Type 0} ⦃d : Double F⦄ where
  unfoldable pub generate_bid_price : WorkerRng → F × WorkerRng
  generate_bid_price rng =
      let (unit, rng') = next_unit_double rng in
      (d.add (min_bid_price F) (d.mul unit (price_width F)), rng')

  -- A decision without a bid: the members that are not named keep their defaults.
  abbrev pub no_bid : NoBidReason → BidDecision F
  no_bid reason = record {
    has_bid = false;
    no_bid_reason = reason;
    campaign_id = 0;
    creative_id = 0;
    model_score = zero_double F;
    bid_price = zero_double F;
  }

  abbrev pub bid_of : CampaignRecord F → CreativeRecord → F → BidDecision F
  bid_of campaign creative bid_price = record {
    has_bid = true;
    no_bid_reason = NoBidReason.none;
    campaign_id = campaign.campaign_id;
    creative_id = creative.creative_id;
    model_score = zero_double F;
    bid_price = bid_price;
  }

  -- The end of the loop's body, with a campaign and a creative at hand.
  unfoldable pub consider_bid : CampaignRecord F → CreativeRecord → Best F → Best F
  consider_bid campaign creative best =
      let (bid_price, rng') = generate_bid_price best.rng in
      if d.le bid_price best.best_bid_price then record best { rng = rng' } else record {
        best_decision = bid_of campaign creative bid_price;
        best_bid_price = bid_price;
        rng = rng';
      }

  -- The body after the null check of the candidate.
  unfoldable pub consider_campaign : CampaignRecord F → List CreativeRecord → Best F → Best F
  consider_campaign campaign creatives best =
      let (creative, rng') = choose_random_creative creatives best.rng in
      elim creative [
        | none ↦ record best { rng = rng' }
        | some creative ↦ consider_bid campaign creative (record best { rng = rng' })
      ]

  unfoldable pub consider_candidate : CampaignView F → Best F → Best F
  consider_candidate candidate best = elim candidate.campaign [
    | none ↦ best
    | some campaign ↦ consider_campaign campaign candidate.creatives best
  ]

  unfoldable pub choose_best : List (CampaignView F) → Best F → Best F
  choose_best [] best = best
  choose_best (candidate ∷ candidates) best =
      choose_best candidates (consider_candidate candidate best)

  unfoldable pub make_bid_decision :
      RequestContext → List (CampaignView F) → WorkerRng → BidDecision F × WorkerRng
  make_bid_decision request_context candidates rng =
      let start : Best F = record {
        best_decision = no_bid NoBidReason.no_eligible_campaign;
        best_bid_price = d.neg_infinity;
        rng = rng;
      } in
      let best = choose_best candidates start in
      if not (is_eligible request_context)
      then (no_bid request_context.no_bid_reason, rng)
      else if is_empty candidates
      then (no_bid NoBidReason.no_eligible_campaign, rng)
      else (best.best_decision, best.rng)
