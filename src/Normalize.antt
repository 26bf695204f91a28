-- ===== src/Normalize.antt =====
-- src/normalize.cc: the keys that requests and campaigns are matched by, the response deadline, and
-- `build_request_context`.
mod Examples
pub mod Letters
pub mod Keys
pub mod Deadline
use rtb_engine.Base.{
  ℕ, ◌+◌, ◌-◌, ◌*◌, ◌%◌, ◌^◌, bit_or, bit_xor, List, [], ◌∷◌, if◌then◌else◌, ltb, leb, ◌&&◌,
  text_eq, length, get_or, ◌==◌, not,
}
use rtb_engine.Types.{
  response_safety_margin_ns, ns_per_ms, desktop_name, mobile_name, tablet_name, is_connected_tv,
  CountryKey, DeviceTypeKey, AdSlotKey, NoBidReason, RequestProcessingStatus, ParsedMessage,
  RequestContext,
}

unfoldable pub to_upper_ascii : ℕ → ℕ
to_upper_ascii character =
    if leb b'a' character && leb character b'z' then (character - 32) % 2 ^ 8 else character

-- The first letter in the high byte, the second in the low one.
unfoldable pub normalize_country_key : List ℕ → CountryKey
unfolding to_upper_ascii
normalize_country_key country =
    let first = to_upper_ascii (get_or country 0 0) in
    let second = to_upper_ascii (get_or country 1 0) in
    if not (length country == 2)
    then record { value = 0 }
    else record { value = bit_or (first * 2 ^ 8) second % 2 ^ 16 }

unfoldable pub normalize_device_type_key : List ℕ → DeviceTypeKey
unfolding text_eq is_connected_tv
normalize_device_type_key device_type =
    if text_eq device_type desktop_name
    then DeviceTypeKey.desktop
    else if text_eq device_type mobile_name
    then DeviceTypeKey.mobile
    else if text_eq device_type tablet_name
    then DeviceTypeKey.tablet
    else if is_connected_tv device_type
    then DeviceTypeKey.connected_tv
    else DeviceTypeKey.unknown

-- One round of the hash over the characters.
hash_step : ℕ → ℕ → ℕ
hash_step value character = bit_xor value character * 16777619 % 2 ^ 32

hash_from : ℕ → List ℕ → ℕ
unfolding hash_step
hash_from value [] = value
hash_from value (c ∷ s) = hash_from (hash_step value c) s

unfoldable pub normalize_ad_slot_key : List ℕ → AdSlotKey
unfolding hash_from
normalize_ad_slot_key ad_slot = record { value = hash_from 2166136261 ad_slot }

-- The product fits 64 bits, since `tmax_ms` is a `uint32_t`; the sum wraps.
unfoldable pub compute_deadline_ns : ℕ → ℕ → ℕ
compute_deadline_ns received_at_ns tmax_ms =
    let raw_budget_ns = tmax_ms * ns_per_ms % 2 ^ 64 in
    if leb raw_budget_ns response_safety_margin_ns
    then received_at_ns
    else (received_at_ns + (raw_budget_ns - response_safety_margin_ns)) % 2 ^ 64

-- The context before the deadline is looked at.
unfoldable pub initial_context : ParsedMessage → ℕ → RequestContext
initial_context parsed_message received_at_ns = record {
  request_id = parsed_message.request_id;
  country_key = normalize_country_key parsed_message.country;
  device_type_key = normalize_device_type_key parsed_message.device_type;
  ad_slot_key = normalize_ad_slot_key parsed_message.ad_slot;
  auction_type = parsed_message.auction_type;
  received_at_ns = received_at_ns;
  deadline_ns = compute_deadline_ns received_at_ns parsed_message.tmax_ms;
  processing_status = parsed_message.processing_status;
  no_bid_reason = NoBidReason.none;
}

unfoldable pub build_request_context : ParsedMessage → ℕ → RequestContext
unfolding initial_context
build_request_context parsed_message received_at_ns =
    let context = initial_context parsed_message received_at_ns in
    if leb context.deadline_ns context.received_at_ns
    then record context {
      processing_status = RequestProcessingStatus.expired;
      no_bid_reason = NoBidReason.deadline_exceeded;
    }
    else context
