-- ===== src/Request/Keys.antt =====
-- The keys that `validate_request_context` (src/handle_request.cc) asks for.
use rtb_engine.Base.{ℕ, ◌≡◌, ◌≢◌, inl, inr, Bool, true, false, arith, Bool-cases}
use rtb_engine.Types.{AuctionType, auction_number, DeviceTypeKey, device_number, ParsedMessage}
use rtb_engine.Normalize.{
  normalize_country_key, normalize_device_type_key, normalize_ad_slot_key, initial_context,
  build_request_context,
}
use rtb_engine.Request.{lacks_key}

-- The keys alone decide, as the deadline does not change them.
abbrev pub message_lacks_key : ParsedMessage → Bool
message_lacks_key m = lacks_key (initial_context m 0)

pub lacks_key-same :
    (m : ParsedMessage) (t : ℕ) → lacks_key (build_request_context m t) ≡ message_lacks_key m
unfolding build_request_context initial_context
lacks_key-same m t = ground arith

-- No key of the message is the one for "none", and the auction type is specified.
pub record HasKeys (m : ParsedMessage) : Type 0 where
  pub country : (normalize_country_key m.country).value ≢ 0
  pub device_type : normalize_device_type_key m.device_type ≢ DeviceTypeKey.unknown
  pub ad_slot : (normalize_ad_slot_key m.ad_slot).value ≢ 0
  pub auction_type : m.auction_type ≢ AuctionType.unspecified

device_number-zero : (k : DeviceTypeKey) → device_number k ≡ 0 → k ≡ DeviceTypeKey.unknown
device_number-zero k e = ground arith

auction_number-zero : (a : AuctionType) → auction_number a ≡ 0 → a ≡ AuctionType.unspecified
auction_number-zero a e = ground arith

pub lacks_key-HasKeys : (m : ParsedMessage) → message_lacks_key m ≡ false → HasKeys m
unfolding initial_context
lacks_key-HasKeys m h = record {
  country = λ e. ground arith;
  device_type = λ e. ground arith;
  ad_slot = λ e. ground arith;
  auction_type = λ e. ground arith;
}

pub HasKeys-lacks_key : (m : ParsedMessage) → HasKeys m → message_lacks_key m ≡ false
unfolding initial_context
HasKeys-lacks_key m h = elim (Bool-cases (message_lacks_key m)) [
  | inr e ↦ e
  | inl e ↦ absurd (ground arith)
]

pub lacks_key-none : (m : ParsedMessage) → ¬ HasKeys m → message_lacks_key m ≡ true
lacks_key-none m n = elim (Bool-cases (message_lacks_key m)) [
  | inl e ↦ e
  | inr e ↦ absurd (n (lacks_key-HasKeys m e))
]
