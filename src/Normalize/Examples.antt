-- ===== src/Normalize/Examples.antt =====
-- The keys and deadlines of src/normalize.cc on small inputs.
use rtb_engine.Base.{ℕ, ◌-◌, ◌^◌, ◌<◌, ◌≤◌, ◌≡◌, ◌≢◌, ◌↔◌, refl, true, [], arith, codes}
use rtb_engine.Types.{
  AuctionType, DeviceTypeKey, RequestProcessingStatus, ParsedMessage, is_eligible,
}
use rtb_engine.Normalize.{
  normalize_country_key, normalize_device_type_key, normalize_ad_slot_key, compute_deadline_ns,
  build_request_context,
}
use rtb_engine.Normalize.Letters.{SameLetter}
use rtb_engine.Normalize.Keys.{Names, country_key-same, device_type-Names, ad_slot_key-one_change}
use rtb_engine.Normalize.Deadline.{deadline_wraps, build_request_context-budget}

mixed_case : (normalize_country_key (codes "uS")).value ≡ 21843
unfolding normalize_country_key
mixed_case = refl

no_slot : (normalize_ad_slot_key []).value ≡ 2166136261
unfolding normalize_ad_slot_key
no_slot = refl

country_key-same_example :
    ((normalize_country_key (codes "us")).value ≡ (normalize_country_key (codes "Us")).value)
    ↔ (SameLetter b'u' b'U' × SameLetter b's' b's')
country_key-same_example =
    country_key-same b'u' b's' b'U' b's' (omega arith) (omega arith) (omega arith) (omega arith)

device_type-Names_example :
    (normalize_device_type_key (codes "ctv") ≡ DeviceTypeKey.connected_tv)
    ↔ Names (codes "ctv") DeviceTypeKey.connected_tv
device_type-Names_example = device_type-Names (codes "ctv") DeviceTypeKey.connected_tv (λ e. cc)

ad_slot_key-one_change_example :
    ((normalize_ad_slot_key (codes "top")).value < 2 ^ 32)
    × ((normalize_ad_slot_key (codes "top")).value ≢ (normalize_ad_slot_key (codes "tap")).value)
ad_slot_key-one_change_example =
    ad_slot_key-one_change (codes "t") (codes "p") b'o' b'a' (omega arith) (omega arith)
      (omega arith, tt) (λ e. omega arith)

deadline_wraps_example : compute_deadline_ns (2 ^ 64 - 1) 10 < 2 ^ 64 - 1
deadline_wraps_example = deadline_wraps (2 ^ 64 - 1) 10 (omega arith) (omega arith) (omega arith)

abbrev message : ℕ → ParsedMessage
message tmax_ms = record {
  request_id = codes "r1";
  tmax_ms = tmax_ms;
  country = codes "us";
  device_type = codes "mobile";
  ad_slot = codes "top";
  auction_type = AuctionType.first_price;
  processing_status = RequestProcessingStatus.ok;
}

build_request_context-budget_example :
    (is_eligible (build_request_context (message 100) 5) ≡ true)
    ↔ ((RequestProcessingStatus.ok ≡ RequestProcessingStatus.ok) × (2 ≤ 100))
build_request_context-budget_example = build_request_context-budget (message 100) 5 (omega arith)
