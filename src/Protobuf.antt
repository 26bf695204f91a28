-- ===== src/Protobuf.antt =====
-- The messages of proto/rtb.proto, and the generated code that reads and writes them. That code is
-- not part of the repository: it is a parameter, with its documented behaviour as named laws.
pub mod Sample
use rtb_engine.Base.{ℕ, ◌^◌, ◌<◌, ◌≡◌, Bool, List, Option, some, length}

-- An open enumeration: a number that the file does not name is kept.
pub data V1AuctionType : Type 0 where
  auction_type_unspecified auction_type_first_price auction_type_second_price : V1AuctionType
  auction_type_unrecognized : ℕ → V1AuctionType

pub data BidStatus : Type 0 where
  bid_status_unspecified bid_status_no_bid bid_status_bid : BidStatus

pub record BidRequest : Type 0 where
  pub request_id : List ℕ
  pub tmax_ms : ℕ
  pub country : List ℕ
  pub device_type : List ℕ
  pub ad_slot : List ℕ
  pub auction_type : V1AuctionType

pub record BidResponse (F : Type 0) : Type 0 where
  pub request_id : List ℕ
  pub status : BidStatus
  pub campaign_id : List ℕ
  pub creative_id : List ℕ
  pub price : F

-- `ParseFromArray` clears the message, fills it and returns whether the bytes were well formed;
-- `SerializeToArray` is given the size of the array and writes from its start.
pub record Protobuf (F : Type 0) : Type 0 where
  pub parse_from_array : List ℕ → Bool × BidRequest
  pub byte_size_long : BidResponse F → ℕ
  pub serialize_to_array : BidResponse F → ℕ → Option (List ℕ)

-- Into an array of the announced size, and below the 2 GiB limit, serialization succeeds and fills
-- the array exactly.
pub record SerializesExactly (F : Type 0) (p : Protobuf F) : Type 0 where
  pub fits :
      (r : BidResponse F)
      → Protobuf.byte_size_long p r < 2 ^ 31
      → (bytes : List ℕ) × (Protobuf.serialize_to_array p r (Protobuf.byte_size_long p r)
          ≡ some bytes)
        × (length bytes ≡ Protobuf.byte_size_long p r)
