-- ===== src/Request.antt =====
-- `handle_request` of src/handle_request.cc, with the types of include/rtb/handle_request.h and the
-- time record of include/rtb/benchmark.h. `now i` is what the call's i-th reading of the steady
-- clock gives.
mod Examples
pub mod Keys
pub mod Outcome
pub mod Winner
pub mod Match
pub mod Bid
use rtb_engine.Base.{
  ℕ, ◌+◌, ◌-◌, ◌%◌, ◌^◌, Bool, true, false, not, ◌&&◌, ◌||◌, List, Option, if◌then◌else◌, ◌==◌,
}
use rtb_engine.Types.{
  AuctionType, DeviceTypeKey, NoBidReason, RequestProcessingStatus, auction_number, device_number,
  reason_number, status_number, ParsedMessage, RequestContext, is_eligible, CampaignStoreSnapshot,
  BidDecision,
}
use rtb_engine.Double.{Double}
use rtb_engine.Rng.{WorkerRng}
use rtb_engine.Protobuf.{BidResponse}
use rtb_engine.Normalize.{build_request_context}
use rtb_engine.Retrieve.{retrieve_candidates}
use rtb_engine.Decision.{no_bid, make_bid_decision}
use rtb_engine.Response.{build_bid_response}

pub data HandleRequestStatus : Type 0 where
  response_ready drop_connection : HandleRequestStatus

pub record HandleRequestTimingBreakdown : Type 0 where
  pub normalize_validate_ns : ℕ
  pub retrieve_ns : ℕ
  pub decide_ns : ℕ
  pub response_build_ns : ℕ

pub record HandleRequestResult (F : Type 0) : Type 0 where
  pub status : HandleRequestStatus
  pub context : RequestContext
  pub decision : BidDecision F
  pub response : BidResponse F

-- The result, the worker's generator, and the time record if the caller passed one.
pub record Handled (F : Type 0) : Type 0 where
  pub result : HandleRequestResult F
  pub rng : WorkerRng
  pub timing : Option HandleRequestTimingBreakdown

-- The first condition of `validate_request_context`.
abbrev pub lacks_key : RequestContext → Bool
lacks_key context =
    context.country_key.value == 0
    || device_number context.device_type_key == device_number DeviceTypeKey.unknown
    || context.ad_slot_key.value == 0
    || auction_number context.auction_type == auction_number AuctionType.unspecified

unfoldable pub validate_request_context : RequestContext → RequestContext
validate_request_context context =
    if lacks_key context
    then record context {
      processing_status = RequestProcessingStatus.invalid;
      no_bid_reason = NoBidReason.invalid_request;
    }
    else if not
          (status_number context.processing_status == status_number RequestProcessingStatus.ok)
        && reason_number context.no_bid_reason == reason_number NoBidReason.none
    then record context { no_bid_reason = NoBidReason.invalid_request }
    else context

-- The status that the context asks for.
unfoldable pub result_status : RequestContext → HandleRequestStatus
result_status context =
    if not (status_number context.processing_status == status_number RequestProcessingStatus.ok)
      && reason_number context.no_bid_reason == reason_number NoBidReason.invalid_request
    then HandleRequestStatus.drop_connection
    else HandleRequestStatus.response_ready

-- The difference of two readings, on 64 bits.
abbrev pub elapsed : ℕ → ℕ → ℕ
elapsed start end = (end + (2 ^ 64 - start % 2 ^ 64)) % 2 ^ 64

-- `if (timing != nullptr)` around an assignment.
abbrev pub when_timed :
    Option HandleRequestTimingBreakdown
    → (HandleRequestTimingBreakdown → HandleRequestTimingBreakdown)
    → Option HandleRequestTimingBreakdown
when_timed Option.none set = Option.none
when_timed (Option.some t) set = Option.some (set t)

-- The times of a request that is not eligible: four readings.
unfoldable pub short_timing :
    (ℕ → ℕ) → Option HandleRequestTimingBreakdown → Option HandleRequestTimingBreakdown
short_timing now timing = when_timed timing (λ t. record t {
  normalize_validate_ns = elapsed (now 0) (now 1);
  response_build_ns = elapsed (now 2) (now 3);
})

-- The times of an eligible one: eight readings.
unfoldable pub full_timing :
    (ℕ → ℕ) → Option HandleRequestTimingBreakdown → Option HandleRequestTimingBreakdown
full_timing now timing = when_timed timing (λ t. record t {
  normalize_validate_ns = elapsed (now 0) (now 1);
  retrieve_ns = elapsed (now 2) (now 3);
  decide_ns = elapsed (now 4) (now 5);
  response_build_ns = elapsed (now 6) (now 7);
})

-- The context that the request is handled in.
abbrev pub request_context : ParsedMessage → ℕ → RequestContext
request_context parsed_message received_at_ns =
    validate_request_context (build_request_context parsed_message received_at_ns)

module _ {F : Type 0} ⦃d : Double F⦄ where
  unfoldable pub handle_in :
      (ℕ → ℕ)
      → RequestContext
      → CampaignStoreSnapshot F
      → WorkerRng
      → Option HandleRequestTimingBreakdown
      → Handled F
  handle_in now context campaign_store rng timing =
      let early : BidDecision F = no_bid context.no_bid_reason in
      let candidates = retrieve_candidates campaign_store context in
      let (decision, rng') = make_bid_decision context candidates rng in
      if not (is_eligible context)
      then record {
        result = record {
          status = result_status context;
          context = context;
          decision = early;
          response = build_bid_response context early;
        };
        rng = rng;
        timing = short_timing now timing;
      }
      else record {
        result = record {
          status = result_status context;
          context = context;
          decision = decision;
          response = build_bid_response context decision;
        };
        rng = rng';
        timing = full_timing now timing;
      }

  unfoldable pub handle_request :
      (ℕ → ℕ)
      → ParsedMessage
      → ℕ
      → CampaignStoreSnapshot F
      → WorkerRng
      → Option HandleRequestTimingBreakdown
      → Handled F
  handle_request now parsed_message received_at_ns campaign_store rng timing =
      handle_in now (request_context parsed_message received_at_ns) campaign_store rng timing
