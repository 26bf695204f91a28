-- ===== src/Response/Examples.antt =====
-- `build_bid_response` (src/response_builder.cc) for a bid.
use rtb_engine.Base.{◌≡◌, refl, true, some, arith, codes}
use rtb_engine.Types.{
  AuctionType, DeviceTypeKey, NoBidReason, RequestProcessingStatus, RequestContext, BidDecision,
}
use rtb_engine.Double.Fixed.{Fixed, units, fixed_double}
use rtb_engine.Numbers.{parse_u64, to_string}
use rtb_engine.Protobuf.{bid_status_bid}
use rtb_engine.Response.{build_bid_response}
use rtb_engine.Response.Echo.{build_bid_response-reads}

abbrev context : RequestContext
context = record {
  request_id = codes "r1";
  country_key = record { value = 21843 };
  device_type_key = DeviceTypeKey.mobile;
  ad_slot_key = record { value = 5 };
  auction_type = AuctionType.first_price;
  received_at_ns = 1;
  deadline_ns = 2;
  processing_status = RequestProcessingStatus.ok;
  no_bid_reason = NoBidReason.none;
}

abbrev decision : BidDecision Fixed
decision = record {
  has_bid = true;
  no_bid_reason = NoBidReason.none;
  campaign_id = 70;
  creative_id = 11;
  model_score = units 0;
  bid_price = units 9;
}

texts : (build_bid_response context decision).campaign_id ≡ codes "70"
unfolding build_bid_response to_string
texts = refl

build_bid_response-reads_example :
    ((build_bid_response context decision).status ≡ bid_status_bid)
    × (parse_u64 (build_bid_response context decision).campaign_id ≡ some 70)
    × (parse_u64 (build_bid_response context decision).creative_id ≡ some 11)
    × ((build_bid_response context decision).price ≡ units 9)
build_bid_response-reads_example =
    build_bid_response-reads context decision (omega arith) (omega arith) refl
