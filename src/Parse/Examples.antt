-- ===== src/Parse/Examples.antt =====
-- `parse_bid_request` (src/parse.cc) with a stand-in for the generated code.
use rtb_engine.Base.{◌<◌, ◌^◌, ◌≡◌, ◌≢◌, ◌↔◌, ◌⊎◌, refl, true, [], codes}
use rtb_engine.Types.{AuctionType, RequestProcessingStatus, ParsedMessage, default_parsed_message}
use rtb_engine.Protobuf.{auction_type_unrecognized}
use rtb_engine.Protobuf.Sample.{sample_proto, sample_request}
use rtb_engine.Parse.{ParseStatus, check_fields, parse_bid_request}
use rtb_engine.Parse.Outcome.{IsComplete, HandsOn, parse_bid_request-ok, parse_bid_request-clears}

-- The message of an earlier request.
abbrev stale : ParsedMessage
stale = record {
  request_id = codes "r0";
  tmax_ms = 7;
  country = codes "de";
  device_type = codes "ctv";
  ad_slot = codes "side";
  auction_type = AuctionType.second_price;
  processing_status = RequestProcessingStatus.ok;
}

unrecognized :
    (check_fields
      (record (sample_request (codes "r1")) { auction_type = auction_type_unrecognized 7 })
      stale).status
    ≡ ParseStatus.invalid_auction_type
unfolding check_fields
unrecognized = refl

parse_bid_request-ok_example :
    ((parse_bid_request sample_proto (codes "r1") (sample_request []) stale).status
      ≡ ParseStatus.ok)
    ↔ ((2 < 2 ^ 31) × (true ≡ true) × IsComplete (sample_request (codes "r1")))
parse_bid_request-ok_example =
    parse_bid_request-ok sample_proto (codes "r1") (sample_request []) stale

parses :
    (parse_bid_request sample_proto (codes "r1") (sample_request []) stale).status ≡ ParseStatus.ok
unfolding parse_bid_request
parses = refl

malformed : parse_bid_request sample_proto [] (sample_request []) stale ≡ record {
  status = ParseStatus.malformed_proto;
  scratch = sample_request [];
  out = default_parsed_message;
}
unfolding parse_bid_request
malformed = refl

parse_bid_request-clears_example :
    (((parse_bid_request sample_proto (codes "r1") (sample_request []) stale).status
        ≡ ParseStatus.ok)
      × HandsOn
          (sample_request (codes "r1"))
          (parse_bid_request sample_proto (codes "r1") (sample_request []) stale).out)
    ⊎ (((parse_bid_request sample_proto (codes "r1") (sample_request []) stale).status
          ≢ ParseStatus.ok)
        × ((parse_bid_request sample_proto (codes "r1") (sample_request []) stale).out
            ≡ default_parsed_message))
parse_bid_request-clears_example =
    parse_bid_request-clears sample_proto (codes "r1") (sample_request []) stale
