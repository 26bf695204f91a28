-- ===== src/Protobuf/Sample.antt =====
-- A concrete stand-in for the generated code of proto/rtb.proto: a response is written as its
-- request id, and any frame but the empty one is read as a fixed request with the frame as its id.
use rtb_engine.Base.{
  ◌≡◌, arith, true, not, List, ℕ, some, none, refl, if◌then◌else◌, ◌==◌, length, is_empty, codes,
}
use rtb_engine.Protobuf.{BidRequest, Protobuf, SerializesExactly, auction_type_first_price}
use rtb_engine.Double.Fixed.{Fixed}

abbrev pub sample_request : List ℕ → BidRequest
sample_request id = record {
  request_id = id;
  tmax_ms = 100;
  country = codes "us";
  device_type = codes "mobile";
  ad_slot = codes "top";
  auction_type = auction_type_first_price;
}

abbrev pub sample_proto : Protobuf Fixed
sample_proto = record {
  parse_from_array = λ frame. (not (is_empty frame), sample_request frame);
  byte_size_long = λ r. length r.request_id;
  serialize_to_array = λ r n. if n == length r.request_id then some r.request_id else none;
}

same : (n : ℕ) → (n == n) ≡ true
same n = ground arith

pub sample-SerializesExactly : SerializesExactly Fixed sample_proto
sample-SerializesExactly = record {
  fits = λ r small. (r.request_id, rw (same (length r.request_id)) refl, refl);
}
