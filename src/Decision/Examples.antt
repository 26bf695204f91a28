-- ===== src/Decision/Examples.antt =====
-- `make_bid_decision` (src/decision.cc) run on one candidate with two creatives and one without.
use rtb_engine.Base.{
  ℕ, ◌≡◌, ◌↔◌, refl, true, false, List, [], ◌∷◌, some, none, arith, codes, All, if◌then◌else◌,
}
use rtb_engine.Types.{
  AuctionType, DeviceTypeKey, NoBidReason, RequestProcessingStatus, RequestContext, is_eligible,
  CampaignView, BidDecision,
}
use rtb_engine.Double.{◌≼◌}
use rtb_engine.Double.Fixed.{Fixed, units, units_per_one, fixed_double, Fixed-IsIeee}
use rtb_engine.Rng.{seed, xorshift, next_u64, next_unit_double, uniform_index}
use rtb_engine.Rng.Range.{IsValid, seed-IsValid}
use rtb_engine.Decision.{
  no_bid, choose_random_creative, generate_bid_price, consider_bid, consider_campaign,
  consider_candidate, choose_best, make_bid_decision,
}
use rtb_engine.Decision.Price.{InRange, generate_bid_price-InRange}
use rtb_engine.Decision.Winner.{Backed}
use rtb_engine.Decision.Round.{drawn_prices}
use rtb_engine.Decision.Highest.{
  any_can_bid, make_bid_decision-has_bid, make_bid_decision-Backed, make_bid_decision-highest,
  make_bid_decision-no_bid,
}

abbrev context : RequestContext
context = record {
  request_id = codes "r1";
  country_key = record { value = 21843 };
  device_type_key = DeviceTypeKey.mobile;
  ad_slot_key = record { value = 5 };
  auction_type = AuctionType.first_price;
  received_at_ns = 1;
  deadline_ns = 2;
  processing_status = RequestProcessingStatus.ok;
  no_bid_reason = NoBidReason.none;
}

abbrev view : ℕ → List ℕ → CampaignView Fixed
view id [] = record {
  campaign = some (record {
    campaign_id = id;
    country_key = record { value = 21843 };
    device_type_key = DeviceTypeKey.mobile;
    ad_slot_key = record { value = 5 };
    value_per_action = units units_per_one;
    aggressiveness = units units_per_one;
    creative_offset = 0;
    creative_count = 1;
    active = true;
  });
  creatives = [];
}
view id (creative_id ∷ rest) =
    let more = view id rest in
    record more {
      creatives =
          record { creative_id = creative_id; ad_slot_key = record { value = 5 } } ∷ more.creatives;
    }

abbrev candidates : List (CampaignView Fixed)
candidates =
    view 7 (11 ∷ 12 ∷ [])
    ∷ view 8 []
    ∷ view 9 (31 ∷ [])
    ∷ record { campaign = none; creatives = [] }
    ∷ []

abbrev decision : List (CampaignView Fixed) → BidDecision Fixed
decision cs = (make_bid_decision context cs (seed 1)).0

bids : (decision candidates).has_bid ≡ true
unfolding is_eligible make_bid_decision choose_best consider_candidate consider_campaign
    consider_bid choose_random_creative generate_bid_price seed uniform_index next_unit_double
    next_u64 xorshift
bids = refl

without_creatives : (decision (view 8 [] ∷ [])).has_bid ≡ false
unfolding is_eligible make_bid_decision choose_best consider_candidate consider_campaign
    consider_bid choose_random_creative generate_bid_price seed uniform_index next_unit_double
    next_u64 xorshift
without_creatives = refl

one-IsValid : IsValid (seed 1)
one-IsValid = seed-IsValid 1 (omega arith)

make_bid_decision-has_bid_example :
    ((decision candidates).has_bid ≡ true)
    ↔ ((is_eligible context ≡ true) × (any_can_bid Fixed-IsIeee candidates ≡ true))
make_bid_decision-has_bid_example =
    make_bid_decision-has_bid Fixed-IsIeee context candidates (seed 1) one-IsValid

make_bid_decision-Backed_example : Backed Fixed-IsIeee candidates (decision candidates)
make_bid_decision-Backed_example =
    make_bid_decision-Backed Fixed-IsIeee context candidates (seed 1) one-IsValid bids

make_bid_decision-highest_example :
    All (λ p. p ≼ (decision candidates).bid_price) (drawn_prices candidates (seed 1))
make_bid_decision-highest_example =
    make_bid_decision-highest Fixed-IsIeee context candidates (seed 1) one-IsValid bids

make_bid_decision-no_bid_example :
    decision (view 8 [] ∷ [])
    ≡ no_bid
        (if is_eligible context then NoBidReason.no_eligible_campaign else context.no_bid_reason)
make_bid_decision-no_bid_example =
    make_bid_decision-no_bid Fixed-IsIeee context (view 8 [] ∷ []) (seed 1) one-IsValid
      without_creatives

generate_bid_price-InRange_example :
    InRange Fixed-IsIeee (generate_bid_price (seed 1)).0
    × IsValid (generate_bid_price {F = Fixed} (seed 1)).1
generate_bid_price-InRange_example = generate_bid_price-InRange Fixed-IsIeee (seed 1) one-IsValid
