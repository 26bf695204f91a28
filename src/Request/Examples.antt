-- ===== src/Request/Examples.antt =====
-- `handle_request` (src/handle_request.cc) run on the sample store.
use rtb_engine.Base.{
  ℕ, ◌+◌, ◌-◌, ◌*◌, ◌^◌, ◌≡◌, ◌↔◌, refl, true, false, List, Option, none, some, arith, codes,
  text_eq,
}
use rtb_engine.Types.{
  AuctionType, NoBidReason, RequestProcessingStatus, ParsedMessage, is_eligible, is_connected_tv,
}
use rtb_engine.Double.Fixed.{Fixed, fixed_double, Fixed-IsIeee}
use rtb_engine.Rng.{seed, xorshift, next_u64, next_unit_double, uniform_index}
use rtb_engine.Rng.Range.{seed-IsValid, IsValid}
use rtb_engine.Protobuf.{bid_status_bid}
use rtb_engine.Normalize.{
  normalize_country_key, normalize_device_type_key, normalize_ad_slot_key, compute_deadline_ns,
  initial_context, build_request_context,
}
use rtb_engine.Store.{find_bucket}
use rtb_engine.Store.Sample.{sample_store, sample-IsIndexed}
use rtb_engine.Retrieve.{
  campaign_creatives, matches_request, choose_seed_bucket, collect, retrieve_candidates,
}
use rtb_engine.Decision.{
  no_bid, choose_random_creative, generate_bid_price, consider_bid, consider_campaign,
  consider_candidate, choose_best, make_bid_decision,
}
use rtb_engine.Request.{
  HandleRequestStatus, HandleRequestTimingBreakdown, validate_request_context, Handled,
  result_status, short_timing, full_timing, handle_in, handle_request,
}
use rtb_engine.Request.Keys.{message_lacks_key, HasKeys}
use rtb_engine.Request.Outcome.{
  handle_request-drops, handle_request-expired, handle_request-answers,
}
use rtb_engine.Request.Winner.{Won}
use rtb_engine.Request.Match.{InTime, SomeFits}
use rtb_engine.Request.Bid.{handle_request-Won, handle_request-bids}

abbrev message : List ℕ → ℕ → ParsedMessage
message country tmax_ms = record {
  request_id = codes "r1";
  tmax_ms = tmax_ms;
  country = country;
  device_type = codes "mobile";
  ad_slot = codes "top";
  auction_type = AuctionType.first_price;
  processing_status = RequestProcessingStatus.ok;
}

abbrev us : ParsedMessage
us = message (codes "us") 100

abbrev now : ℕ → ℕ
now i = 1000 + 7 * i

abbrev untimed : Option HandleRequestTimingBreakdown
untimed = none

abbrev handled : ParsedMessage → Handled Fixed
handled m = handle_request now m 5 sample_store (seed 1) untimed

us_bid : (handled us).result.decision.has_bid ≡ true
unfolding handle_request handle_in validate_request_context build_request_context initial_context
    compute_deadline_ns normalize_country_key normalize_device_type_key normalize_ad_slot_key
    text_eq is_connected_tv is_eligible retrieve_candidates collect choose_seed_bucket find_bucket
    matches_request campaign_creatives make_bid_decision choose_best consider_candidate
    consider_campaign consider_bid choose_random_creative generate_bid_price seed uniform_index
    next_unit_double next_u64 xorshift
us_bid = refl

-- An eligible request reads the clock eight times, and an early one four times.
times : HandleRequestTimingBreakdown
times = record { normalize_validate_ns = 0; retrieve_ns = 0; decide_ns = 0; response_build_ns = 0 }

decide_time :
    full_timing (λ i. 2 ^ 64 - 20 + 7 * i) (some times)
    ≡ some (record {
      normalize_validate_ns = 7;
      retrieve_ns = 7;
      decide_ns = 7;
      response_build_ns = 7;
    })
unfolding full_timing times
decide_time = refl

early_time :
    short_timing now (some times)
    ≡ some (record {
      normalize_validate_ns = 7;
      retrieve_ns = 0;
      decide_ns = 0;
      response_build_ns = 7;
    })
unfolding short_timing times
early_time = refl

unknown_country_drops :
    (handled (message (codes "usa") 100)).result.status ≡ HandleRequestStatus.drop_connection
unfolding handle_request handle_in result_status validate_request_context build_request_context
    initial_context compute_deadline_ns normalize_country_key normalize_device_type_key
    normalize_ad_slot_key text_eq is_connected_tv is_eligible retrieve_candidates make_bid_decision
unknown_country_drops = refl

one-IsValid : IsValid (seed 1)
one-IsValid = seed-IsValid 1 (omega arith)

handle_request-bids_example :
    ((handled us).result.decision.has_bid ≡ true) ↔ (InTime us 5 × SomeFits us sample_store)
handle_request-bids_example =
    handle_request-bids Fixed-IsIeee us 5 sample_store now (seed 1) untimed sample-IsIndexed
      one-IsValid

handle_request-Won_example : Won Fixed-IsIeee us sample_store (handled us).result.decision
handle_request-Won_example =
    handle_request-Won Fixed-IsIeee us 5 sample_store now (seed 1) untimed sample-IsIndexed
      one-IsValid us_bid

handle_request-drops_example :
    ((handled us).result.status ≡ HandleRequestStatus.drop_connection) ↔ (¬ HasKeys us)
handle_request-drops_example = handle_request-drops now us 5 sample_store (seed 1) untimed refl

late : ParsedMessage
late = message (codes "us") 1

late_keys : message_lacks_key late ≡ false
unfolding late initial_context normalize_country_key normalize_device_type_key normalize_ad_slot_key
    text_eq is_connected_tv
late_keys = refl

late_deadline : compute_deadline_ns 5 late.tmax_ms ≡ 5
unfolding late compute_deadline_ns
late_deadline = refl

handle_request-expired_example :
    ((handled late).result.status ≡ HandleRequestStatus.response_ready)
    × ((handled late).result.decision ≡ no_bid NoBidReason.deadline_exceeded)
    × ((handled late).rng ≡ seed 1)
handle_request-expired_example =
    handle_request-expired now late 5 sample_store (seed 1) untimed late_keys
      (omega (arith, late_deadline))

handle_request-answers_example :
    ((handled us).result.response.request_id ≡ codes "r1")
    × (((handled us).result.response.status ≡ bid_status_bid)
        ↔ ((handled us).result.decision.has_bid ≡ true))
handle_request-answers_example = handle_request-answers now us 5 sample_store (seed 1) untimed
