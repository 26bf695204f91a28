-- ===== src/Parse.antt =====
-- `parse_bid_request` of src/parse.cc, with `ParseStatus` and `ParseScratch` of
-- include/rtb/parse.h. The scratch message and the output are passed in and handed back; the views of
-- the parsed message show its texts.
mod Examples
pub mod Outcome
use rtb_engine.Base.{
  ℕ, ◌-◌, ◌^◌, Bool, true, false, not, List, if◌then◌else◌, ltb, ◌==◌, length, is_empty,
}
use rtb_engine.Types.{
  AuctionType, auction_number, RequestProcessingStatus, ParsedMessage, default_parsed_message,
}
use rtb_engine.Protobuf.{
  V1AuctionType, auction_type_unspecified, auction_type_first_price, auction_type_second_price,
  auction_type_unrecognized, BidRequest, Protobuf,
}

pub data ParseStatus : Type 0 where
  ok malformed_proto missing_request_id missing_country missing_device_type missing_ad_slot
        invalid_auction_type :
      ParseStatus

unfoldable pub map_auction_type : V1AuctionType → AuctionType
map_auction_type auction_type_unspecified = AuctionType.unspecified
map_auction_type auction_type_first_price = AuctionType.first_price
map_auction_type auction_type_second_price = AuctionType.second_price
map_auction_type (auction_type_unrecognized n) = AuctionType.unspecified

pub record ParseResult : Type 0 where
  pub status : ParseStatus
  pub scratch : BidRequest
  pub out : ParsedMessage

-- The assignment `out = {}`.
unfoldable pub clear : ParsedMessage → ParsedMessage
clear out = default_parsed_message

abbrev pub rejected : ParseStatus → BidRequest → ParsedMessage → ParseResult
rejected status scratch out = record { status = status; scratch = scratch; out = out }

-- The assignments to all the fields of `out`.
abbrev pub accepted : BidRequest → AuctionType → ParsedMessage → ParseResult
accepted request auction_type out = record {
  status = ParseStatus.ok;
  scratch = request;
  out = record out {
    request_id = request.request_id;
    tmax_ms = request.tmax_ms;
    country = request.country;
    device_type = request.device_type;
    ad_slot = request.ad_slot;
    auction_type = auction_type;
    processing_status = RequestProcessingStatus.ok;
  };
}

-- The checks that follow a successful `ParseFromArray`.
unfoldable pub check_fields : BidRequest → ParsedMessage → ParseResult
unfolding map_auction_type
check_fields request out =
    let auction_type = map_auction_type request.auction_type in
    if is_empty request.request_id
    then rejected ParseStatus.missing_request_id request out
    else if is_empty request.country
    then rejected ParseStatus.missing_country request out
    else if is_empty request.device_type
    then rejected ParseStatus.missing_device_type request out
    else if is_empty request.ad_slot
    then rejected ParseStatus.missing_ad_slot request out
    else if auction_number auction_type == auction_number AuctionType.unspecified
    then rejected ParseStatus.invalid_auction_type request out
    else accepted request auction_type out

module _ {F : Type 0} (proto : Protobuf F) where
  open proto use {parse_from_array}

  -- The last argument is the output as the caller left it.
  unfoldable pub parse_bid_request : List ℕ → BidRequest → ParsedMessage → ParseResult
  unfolding clear check_fields
  parse_bid_request frame scratch out =
      let cleared = clear out in
      let (well_formed, request) = parse_from_array frame in
      if ltb (2 ^ 31 - 1) (length frame)
      then rejected ParseStatus.malformed_proto scratch cleared
      else if not well_formed
      then rejected ParseStatus.malformed_proto request cleared
      else check_fields request cleared
