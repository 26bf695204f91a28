-- ===== src/Store/Examples.antt =====
-- The loader of src/campaign_store.cc run on small inputs.
use rtb_engine.Base.{◌≡◌, refl, true, false, [], ◌∷◌, none, arith, codes}
use rtb_engine.Types.{DeviceTypeKey, CampaignRecord}
use rtb_engine.Double.Fixed.{Fixed, units, fixed_double}
use rtb_engine.Numbers.{parse_u64}
use rtb_engine.Store.{parse_creative_specs, load_campaign_store_snapshot}
use rtb_engine.Store.Csv.{split_csv_line, split_creatives, lines}
use rtb_engine.Store.Index.{IsIndexed}
use rtb_engine.Store.Load.{load_campaign_store_snapshot-IsIndexed}
use rtb_engine.Store.Sample.{sample_file, sample_store, top_slot, creative, sample_loaded}

trimmed_fields : split_csv_line (codes " a ,,b") ≡ codes "a" ∷ [] ∷ codes "b" ∷ []
unfolding split_csv_line
trimmed_fields = refl

last_line : lines (codes "a\n\nb\n") ≡ codes "a" ∷ [] ∷ codes "b" ∷ []
unfolding lines
last_line = refl

-- The creatives before a bad token stay pushed.
bad_token :
    parse_creative_specs (codes "1||x|2") top_slot []
    ≡ record { parsed = false; creatives = creative 1 ∷ []; creative_count = 1 }
unfolding parse_creative_specs split_creatives parse_u64
bad_token = refl

no_path : load_campaign_store_snapshot {F = Fixed} none ≡ none
unfolding load_campaign_store_snapshot
no_path = refl

load_campaign_store_snapshot-IsIndexed_example : IsIndexed sample_store
load_campaign_store_snapshot-IsIndexed_example =
    load_campaign_store_snapshot-IsIndexed sample_file sample_store (omega arith) sample_loaded

abbrev another : CampaignRecord Fixed
another = record {
  campaign_id = 10;
  country_key = record { value = 17217 };
  device_type_key = DeviceTypeKey.mobile;
  ad_slot_key = top_slot;
  value_per_action = units 1;
  aggressiveness = units 1;
  creative_offset = 1;
  creative_count = 2;
  active = true;
}
