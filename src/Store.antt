-- ===== src/Store.antt =====
-- src/campaign_store.cc: the campaign file is read line by line into campaigns, creatives and two
-- indexes. A function that changes the snapshot returns it, also when it fails.
mod Examples
pub mod Csv
pub mod Index
pub mod Creatives
pub mod Load
pub mod Sample
use rtb_engine.Base.{
  ℕ, ◌>>=◌, ◌+◌, ◌-◌, ◌%◌, ◌^◌, Bool, true, false, not, ◌&&◌, ◌||◌, List, [], ◌∷◌, ◌++◌, Option,
  none, some, map, if◌then◌else◌, ◌==◌, length, get_or, get_elem?, is_empty, text_eq, codes,
}
use rtb_engine.Types.{
  CountryKey, DeviceTypeKey, device_number, AdSlotKey, CampaignRecord, CreativeRecord, BucketMap,
  CampaignStoreSnapshot,
}
use rtb_engine.Double.{Double, zero_double}
use rtb_engine.Numbers.{parse_u64}
use rtb_engine.Normalize.{normalize_country_key, normalize_device_type_key, normalize_ad_slot_key}
use Csv.{split_csv_line, split_creatives, lines, starts_with}

-- The last argument of the accepted texts is what they stand for.
unfoldable pub parse_bool_value : List ℕ → Option Bool
unfolding text_eq
parse_bool_value value =
    if text_eq value (codes "1") || text_eq value (codes "true") || text_eq value (codes "TRUE")
    then some true
    else if text_eq value (codes "0")
        || text_eq value (codes "false")
        || text_eq value (codes "FALSE")
    then some false
    else none

-- The result, and the out parameters as they stand at the end.
pub record Specs : Type 0 where
  pub parsed : Bool
  pub creatives : List CreativeRecord
  pub creative_count : ℕ

-- The loop over the tokens; it stops at one that is no number.
unfoldable pub push_creatives : AdSlotKey → List (List ℕ) → List CreativeRecord → ℕ → Specs
push_creatives key [] creatives count = record {
  parsed = not (count == 0);
  creatives = creatives;
  creative_count = count;
}
push_creatives key (token ∷ tokens) creatives count =
    let skip = push_creatives key tokens creatives count in
    let push = λ (creative_id : ℕ).
      push_creatives key tokens
        (creatives ++ record { creative_id = creative_id; ad_slot_key = key } ∷ [])
        ((count + 1) % 2 ^ 32) in
    if is_empty token then skip else elim (parse_u64 token) [
      | none ↦ record { parsed = false; creatives = creatives; creative_count = count }
      | some creative_id ↦ push creative_id
    ]

unfoldable pub parse_creative_specs : List ℕ → AdSlotKey → List CreativeRecord → Specs
unfolding push_creatives
parse_creative_specs value key creatives = push_creatives key (split_creatives value) creatives 0

-- `index[key].push_back(campaign_index)`: a missing key starts with an empty bucket.
unfoldable pub push_bucket : ℕ → ℕ → BucketMap → BucketMap
push_bucket key index [] = (key, index ∷ []) ∷ []
push_bucket key index ((k, bucket) ∷ m) =
    if k == key then (k, bucket ++ index ∷ []) ∷ m else (k, bucket) ∷ push_bucket key index m

-- `find`.
unfoldable pub find_bucket : ℕ → BucketMap → Option (List ℕ)
find_bucket key [] = none
find_bucket key ((k, bucket) ∷ m) = if k == key then some bucket else find_bucket key m

-- The numbers of a line: id, value per action, aggressiveness and the active flag.
pub record LineNumbers (F : Type 0) : Type 0 where
  pub campaign_id : ℕ
  pub value_per_action : F
  pub aggressiveness : F
  pub active : Bool

-- The keys of a line.
pub record LineKeys : Type 0 where
  pub country_key : CountryKey
  pub device_type_key : DeviceTypeKey
  pub ad_slot_key : AdSlotKey

unfoldable pub line_keys : List (List ℕ) → LineKeys
line_keys fields = record {
  country_key = normalize_country_key (get_or fields 1 []);
  device_type_key = normalize_device_type_key (get_or fields 2 []);
  ad_slot_key = normalize_ad_slot_key (get_or fields 3 []);
}

-- A line that the loop passes over: empty, a comment, or the header in the first line.
unfoldable pub is_skipped : ℕ → List ℕ → Bool
is_skipped line_number line =
    is_empty line
    || get_or line 0 0 == b'#'
    || (line_number == 1 && starts_with (codes "campaign_id,") line)

module _ {F : Type 0} where
  -- The campaign that the line describes, with its span of creatives.
  abbrev pub campaign_of : LineNumbers F → LineKeys → ℕ → ℕ → CampaignRecord F
  campaign_of numbers keys creative_offset creative_count = record {
    campaign_id = numbers.campaign_id;
    country_key = keys.country_key;
    device_type_key = keys.device_type_key;
    ad_slot_key = keys.ad_slot_key;
    value_per_action = numbers.value_per_action;
    aggressiveness = numbers.aggressiveness;
    creative_offset = creative_offset;
    creative_count = creative_count;
    active = numbers.active;
  }

  -- The campaign goes to the end of the list, and its position into both indexes.
  unfoldable pub push_campaign :
      CampaignRecord F → CampaignStoreSnapshot F → CampaignStoreSnapshot F
  push_campaign campaign snapshot =
      let campaign_index = length snapshot.campaigns % 2 ^ 32 in
      record snapshot {
        campaigns = snapshot.campaigns ++ campaign ∷ [];
        campaigns_by_country =
            push_bucket campaign.country_key.value campaign_index snapshot.campaigns_by_country;
        campaigns_by_ad_slot =
            push_bucket campaign.ad_slot_key.value campaign_index snapshot.campaigns_by_ad_slot;
      }

module _ {F : Type 0} ⦃d : Double F⦄ where
  unfoldable pub line_numbers : List (List ℕ) → Option (LineNumbers F)
  line_numbers fields = do
    campaign_id ← parse_u64 (get_or fields 0 [])
    value_per_action ← d.parse (get_or fields 4 [])
    aggressiveness ← d.parse (get_or fields 5 [])
    active ← parse_bool_value (get_or fields 6 [])
    some (record {
      campaign_id = campaign_id;
      value_per_action = value_per_action;
      aggressiveness = aggressiveness;
      active = active;
    })

  -- The end of `append_campaign_line`, where the creatives have been pushed.
  unfoldable pub append_specs :
      LineNumbers F → LineKeys → Specs → CampaignStoreSnapshot F → Bool × CampaignStoreSnapshot F
  append_specs numbers keys specs snapshot =
      let pushed : CampaignStoreSnapshot F = record snapshot { creatives = specs.creatives } in
      if specs.parsed
      then (
        true,
        push_campaign
            (campaign_of numbers keys (length snapshot.creatives % 2 ^ 32) specs.creative_count)
            pushed,
      )
      else (false, pushed)

  unfoldable pub append_keys :
      LineNumbers F → LineKeys → List ℕ → CampaignStoreSnapshot F → Bool × CampaignStoreSnapshot F
  append_keys numbers keys creatives snapshot =
      if keys.country_key.value == 0
        || device_number keys.device_type_key == device_number DeviceTypeKey.unknown
        || keys.ad_slot_key.value == 0
      then (false, snapshot)
      else append_specs numbers keys
          (parse_creative_specs creatives keys.ad_slot_key snapshot.creatives) snapshot

  unfoldable pub append_campaign_line :
      List (List ℕ) → CampaignStoreSnapshot F → Bool × CampaignStoreSnapshot F
  append_campaign_line fields snapshot =
      if not (length fields == 8) then (false, snapshot) else elim (line_numbers fields) [
        | none ↦ (false, snapshot)
        | some numbers ↦ append_keys numbers (line_keys fields) (get_or fields 7 []) snapshot
      ]

  -- The loop; `line_number` is that of the line before.
  unfoldable pub load_lines :
      List (List ℕ) → ℕ → CampaignStoreSnapshot F → Option (CampaignStoreSnapshot F)
  load_lines [] line_number snapshot = some snapshot
  load_lines (line ∷ rest) line_number snapshot =
      let (appended, snapshot') = append_campaign_line (split_csv_line line) snapshot in
      let skip = load_lines rest (line_number + 1) snapshot in
      let next = load_lines rest (line_number + 1) snapshot' in
      if is_skipped (line_number + 1) line then skip else if appended then next else none

  -- `none` for a null snapshot. The argument is what opening the path gives: nothing, or the bytes.
  unfoldable pub load_campaign_store_snapshot : Option (List ℕ) → Option (CampaignStoreSnapshot F)
  load_campaign_store_snapshot none = none
  load_campaign_store_snapshot (some bytes) = load_lines (lines bytes) 0 (record {
    campaigns = [];
    creatives = [];
    campaigns_by_country = [];
    campaigns_by_ad_slot = [];
  })
