-- ===== src/Store/Sample.antt =====
-- A campaign file of four campaigns, and the snapshot that src/campaign_store.cc reads from it.
use rtb_engine.Base.{
  ℕ, ◌*◌, ◌++◌, ◌≡◌, refl, true, false, List, [], ◌∷◌, some, arith, codes, text_eq,
}
use rtb_engine.Types.{
  DeviceTypeKey, AdSlotKey, CreativeRecord, CampaignStoreSnapshot, is_connected_tv,
}
use rtb_engine.Double.Fixed.{Fixed, units, units_per_one, fixed_double}
use rtb_engine.Numbers.{parse_u64}
use rtb_engine.Normalize.{normalize_country_key, normalize_device_type_key, normalize_ad_slot_key}
use rtb_engine.Store.{
  parse_bool_value, push_creatives, parse_creative_specs, push_bucket, line_keys, is_skipped,
  push_campaign, line_numbers, append_specs, append_keys, append_campaign_line, load_lines,
  load_campaign_store_snapshot,
}
use rtb_engine.Store.Csv.{split_csv_line, split_creatives, lines, starts_with}
use rtb_engine.Store.Index.{IsIndexed}
use rtb_engine.Store.Load.{load_campaign_store_snapshot-IsIndexed}

abbrev pub sample_file : List ℕ
sample_file =
    codes "campaign_id,country,device\n"
    ++ codes "7,US,mobile,top,3,1,1,11|12\n"
    ++ codes "8, us ,mobile,top,2,1,true,21|\n"
    ++ codes "# off\n"
    ++ codes "9,CA,ctv,top,2,1,0,31\n"

-- The hash of "top".
abbrev pub top_slot : AdSlotKey
top_slot = record { value = 2802900028 }

abbrev pub creative : ℕ → CreativeRecord
creative id = record { creative_id = id; ad_slot_key = top_slot }

abbrev pub sample_store : CampaignStoreSnapshot Fixed
sample_store = record {
  campaigns =
      record {
        campaign_id = 7;
        country_key = record { value = 21843 };
        device_type_key = DeviceTypeKey.mobile;
        ad_slot_key = top_slot;
        value_per_action = units (3 * units_per_one);
        aggressiveness = units units_per_one;
        creative_offset = 0;
        creative_count = 2;
        active = true;
      }
      ∷ record {
        campaign_id = 8;
        country_key = record { value = 21843 };
        device_type_key = DeviceTypeKey.mobile;
        ad_slot_key = top_slot;
        value_per_action = units (2 * units_per_one);
        aggressiveness = units units_per_one;
        creative_offset = 2;
        creative_count = 1;
        active = true;
      }
      ∷ record {
        campaign_id = 9;
        country_key = record { value = 17217 };
        device_type_key = DeviceTypeKey.connected_tv;
        ad_slot_key = top_slot;
        value_per_action = units (2 * units_per_one);
        aggressiveness = units units_per_one;
        creative_offset = 3;
        creative_count = 1;
        active = false;
      }
      ∷ [];
  creatives = creative 11 ∷ creative 12 ∷ creative 21 ∷ creative 31 ∷ [];
  campaigns_by_country = (21843, 0 ∷ 1 ∷ []) ∷ (17217, 2 ∷ []) ∷ [];
  campaigns_by_ad_slot = (top_slot.value, 0 ∷ 1 ∷ 2 ∷ []) ∷ [];
}

pub sample_loaded : load_campaign_store_snapshot (some sample_file) ≡ some sample_store
unfolding load_campaign_store_snapshot load_lines append_campaign_line append_keys append_specs
    line_numbers push_campaign is_skipped line_keys push_bucket parse_creative_specs push_creatives
    parse_bool_value parse_u64 split_csv_line split_creatives lines starts_with
    normalize_country_key normalize_device_type_key normalize_ad_slot_key text_eq is_connected_tv
sample_loaded = refl

pub sample-IsIndexed : IsIndexed sample_store
sample-IsIndexed =
    load_campaign_store_snapshot-IsIndexed sample_file sample_store (omega arith) sample_loaded
