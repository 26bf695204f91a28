-- ===== src/Types.antt =====
-- The shared records and enumerations: include/rtb/engine_types.h, include/rtb/config.h and
-- include/rtb/constants.h. A `double` is a value of a type parameter `F`; a `string_view` is the
-- list of the bytes that it shows; a pointer that may be null is an `Option`; a span is the list of
-- its elements.
use rtb_engine.Base.{ℕ, ◌*◌, Bool, true, false, ◌&&◌, ◌||◌, Option, List, [], ◌==◌, codes, text_eq}

-- config.h
abbrev pub response_safety_margin_ns : ℕ
response_safety_margin_ns = 1_000_000

abbrev pub ns_per_ms : ℕ
ns_per_ms = 1_000_000

abbrev pub default_rng_seed : ℕ
default_rng_seed = 0x9E3779B97F4A7C15

abbrev pub max_outbound_frame_size : ℕ
max_outbound_frame_size = 64 * 1024

-- constants.h
abbrev pub desktop_name : List ℕ
desktop_name = codes "desktop"

abbrev pub mobile_name : List ℕ
mobile_name = codes "mobile"

abbrev pub tablet_name : List ℕ
tablet_name = codes "tablet"

abbrev pub ctv_name : List ℕ
ctv_name = codes "ctv"

abbrev pub connected_tv_name : List ℕ
connected_tv_name = codes "connected_tv"

unfoldable pub is_connected_tv : List ℕ → Bool
unfolding text_eq
is_connected_tv device_type = text_eq device_type ctv_name || text_eq device_type connected_tv_name

abbrev pub csv_delimiter : ℕ
csv_delimiter = b','

abbrev pub creative_delimiter : ℕ
creative_delimiter = b'|'

-- engine_types.h
pub data AuctionType : Type 0 where
  unspecified first_price second_price : AuctionType

pub data DeviceTypeKey : Type 0 where
  unknown desktop mobile tablet connected_tv : DeviceTypeKey

pub record CountryKey : Type 0 where
  pub value : ℕ

pub record AdSlotKey : Type 0 where
  pub value : ℕ

pub data NoBidReason : Type 0 where
  none invalid_request deadline_exceeded no_eligible_campaign no_eligible_creative filtered :
      NoBidReason

pub data RequestProcessingStatus : Type 0 where
  ok invalid expired : RequestProcessingStatus

-- The number of an enumerator, by which `==` compares.
abbrev pub auction_number : AuctionType → ℕ
auction_number AuctionType.unspecified = 0
auction_number AuctionType.first_price = 1
auction_number AuctionType.second_price = 2

abbrev pub device_number : DeviceTypeKey → ℕ
device_number DeviceTypeKey.unknown = 0
device_number DeviceTypeKey.desktop = 1
device_number DeviceTypeKey.mobile = 2
device_number DeviceTypeKey.tablet = 3
device_number DeviceTypeKey.connected_tv = 4

abbrev pub reason_number : NoBidReason → ℕ
reason_number NoBidReason.none = 0
reason_number NoBidReason.invalid_request = 1
reason_number NoBidReason.deadline_exceeded = 2
reason_number NoBidReason.no_eligible_campaign = 3
reason_number NoBidReason.no_eligible_creative = 4
reason_number NoBidReason.filtered = 5

abbrev pub status_number : RequestProcessingStatus → ℕ
status_number RequestProcessingStatus.ok = 0
status_number RequestProcessingStatus.invalid = 1
status_number RequestProcessingStatus.expired = 2

pub record ParsedMessage : Type 0 where
  pub request_id : List ℕ
  pub tmax_ms : ℕ
  pub country : List ℕ
  pub device_type : List ℕ
  pub ad_slot : List ℕ
  pub auction_type : AuctionType
  pub processing_status : RequestProcessingStatus

-- The value that `ParsedMessage {}` has.
abbrev pub default_parsed_message : ParsedMessage
default_parsed_message = record {
  request_id = [];
  tmax_ms = 0;
  country = [];
  device_type = [];
  ad_slot = [];
  auction_type = AuctionType.unspecified;
  processing_status = RequestProcessingStatus.ok;
}

pub record RequestContext : Type 0 where
  pub request_id : List ℕ
  pub country_key : CountryKey
  pub device_type_key : DeviceTypeKey
  pub ad_slot_key : AdSlotKey
  pub auction_type : AuctionType
  pub received_at_ns : ℕ
  pub deadline_ns : ℕ
  pub processing_status : RequestProcessingStatus
  pub no_bid_reason : NoBidReason

-- `RequestContext::is_eligible`
unfoldable pub is_eligible : RequestContext → Bool
is_eligible c =
    status_number c.processing_status == status_number RequestProcessingStatus.ok
    && reason_number c.no_bid_reason == reason_number NoBidReason.none

pub record CampaignRecord (F : Type 0) : Type 0 where
  pub campaign_id : ℕ
  pub country_key : CountryKey
  pub device_type_key : DeviceTypeKey
  pub ad_slot_key : AdSlotKey
  pub value_per_action : F
  pub aggressiveness : F
  pub creative_offset : ℕ
  pub creative_count : ℕ
  pub active : Bool

pub record CreativeRecord : Type 0 where
  pub creative_id : ℕ
  pub ad_slot_key : AdSlotKey

-- A bucket map of `CampaignStoreSnapshot`: its entries, at most one for each key.
abbrev pub BucketMap : Type 0
BucketMap = List (ℕ × List ℕ)

pub record CampaignStoreSnapshot (F : Type 0) : Type 0 where
  pub campaigns : List (CampaignRecord F)
  pub creatives : List CreativeRecord
  pub campaigns_by_country : BucketMap
  pub campaigns_by_ad_slot : BucketMap

pub record CampaignView (F : Type 0) : Type 0 where
  pub campaign : Option (CampaignRecord F)
  pub creatives : List CreativeRecord

-- `CampaignView::valid`
unfoldable pub valid : {F : Type 0} → CampaignView F → Bool
valid v = elim v.campaign [ Option.none ↦ false | Option.some c ↦ true ]

pub record BidDecision (F : Type 0) : Type 0 where
  pub has_bid : Bool
  pub no_bid_reason : NoBidReason
  pub campaign_id : ℕ
  pub creative_id : ℕ
  pub model_score : F
  pub bid_price : F
