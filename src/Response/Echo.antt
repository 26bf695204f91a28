-- ===== src/Response/Echo.antt =====
-- What the peer can read from a response (src/response_builder.cc).
use rtb_engine.Base.{◌^◌, ◌<◌, ◌≡◌, true, some, arith}
use rtb_engine.Types.{RequestContext, BidDecision}
use rtb_engine.Double.{Double}
use rtb_engine.Numbers.{parse_u64}
use rtb_engine.Numbers.Decimal.{reads_back}
use rtb_engine.Protobuf.{bid_status_bid}
use rtb_engine.Response.{build_bid_response}

module _ {F : Type 0} ⦃d : Double F⦄ (context : RequestContext) (decision : BidDecision F) where
  -- The response to a bid with 64-bit ids says so, and its texts read back as these ids, at the
  -- price of the decision.
  pub build_bid_response-reads :
      decision.campaign_id < 2 ^ 64
      → decision.creative_id < 2 ^ 64
      → decision.has_bid ≡ true
      → ((build_bid_response context decision).status ≡ bid_status_bid)
        × (parse_u64 (build_bid_response context decision).campaign_id ≡ some decision.campaign_id)
        × (parse_u64 (build_bid_response context decision).creative_id ≡ some decision.creative_id)
        × ((build_bid_response context decision).price ≡ decision.bid_price)
  unfolding build_bid_response
  build_bid_response-reads h k e =
      ground (arith, reads_back decision.campaign_id h, reads_back decision.creative_id k)
