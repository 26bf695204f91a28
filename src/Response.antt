-- ===== src/Response.antt =====
-- src/response_builder.cc. What is not set keeps the default of the message.
mod Examples
pub mod Echo
use rtb_engine.Base.{Bool, if◌then◌else◌, []}
use rtb_engine.Types.{RequestContext, BidDecision}
use rtb_engine.Double.{Double, zero_double}
use rtb_engine.Numbers.{to_string}
use rtb_engine.Protobuf.{
  BidStatus, bid_status_no_bid, bid_status_bid, bid_status_unspecified, BidResponse,
}

module _ {F : Type 0} ⦃d : Double F⦄ where
  unfoldable pub to_proto_status : BidDecision F → BidStatus
  to_proto_status decision = if decision.has_bid then bid_status_bid else bid_status_no_bid

  unfoldable pub build_bid_response : RequestContext → BidDecision F → BidResponse F
  unfolding to_proto_status
  build_bid_response request_context decision =
      let response : BidResponse F = record {
        request_id = request_context.request_id;
        status = to_proto_status decision;
        campaign_id = [];
        creative_id = [];
        price = zero_double F;
      } in
      if decision.has_bid
      then record response {
        campaign_id = to_string decision.campaign_id;
        creative_id = to_string decision.creative_id;
        price = decision.bid_price;
      }
      else response
