-- ===== src/Retrieve.antt =====
-- src/retrieve.cc: the smaller of two buckets, filtered by the exact keys.
mod Examples
pub mod Exact
use rtb_engine.Base.{
  ℕ, Bool, true, false, not, ◌&&◌, ◌||◌, List, [], ◌∷◌, Option, none, some, if◌then◌else◌, ◌==◌,
  leb, length, get_elem?, take, drop,
}
use rtb_engine.Types.{
  RequestContext, is_eligible, device_number, CampaignRecord, CreativeRecord, CampaignStoreSnapshot,
  CampaignView,
}
use rtb_engine.Store.{find_bucket}

module _ {F : Type 0} where
  -- The span of the campaign's creatives.
  unfoldable pub campaign_creatives :
      CampaignStoreSnapshot F → CampaignRecord F → List CreativeRecord
  campaign_creatives campaign_store campaign =
      take campaign.creative_count (drop campaign.creative_offset campaign_store.creatives)

  unfoldable pub matches_request : RequestContext → CampaignRecord F → Bool
  matches_request request_context campaign =
      if not campaign.active
        || not (campaign.country_key.value == request_context.country_key.value)
        || not (
            device_number campaign.device_type_key == device_number request_context.device_type_key)
        || not (campaign.ad_slot_key.value == request_context.ad_slot_key.value)
      then false
      else true

  -- `none` for the null pointer, when a key is missing in its index.
  unfoldable pub choose_seed_bucket : CampaignStoreSnapshot F → RequestContext → Option (List ℕ)
  choose_seed_bucket campaign_store request_context =
      elim (find_bucket request_context.country_key.value campaign_store.campaigns_by_country) [
        | none ↦ none
        | some by_country ↦
            elim (find_bucket request_context.ad_slot_key.value
              campaign_store.campaigns_by_ad_slot) [
                | none ↦ none
                | some by_slot ↦
                    if leb (length by_country) (length by_slot)
                    then some by_country
                    else some by_slot
              ]
      ]

  abbrev pub view_of : CampaignStoreSnapshot F → CampaignRecord F → CampaignView F
  view_of campaign_store campaign = record {
    campaign = some campaign;
    creatives = campaign_creatives campaign_store campaign;
  }

  -- The loop over the bucket; an index outside the campaigns is passed over.
  unfoldable pub collect : CampaignStoreSnapshot F → RequestContext → List ℕ → List (CampaignView F)
  collect campaign_store request_context [] = []
  collect campaign_store request_context (campaign_index ∷ bucket) =
      let rest = collect campaign_store request_context bucket in
      elim (get_elem? campaign_store.campaigns campaign_index) [
        | none ↦ rest
        | some campaign ↦
            if not (matches_request request_context campaign)
            then rest
            else view_of campaign_store campaign ∷ rest
      ]

  unfoldable pub retrieve_candidates :
      CampaignStoreSnapshot F → RequestContext → List (CampaignView F)
  retrieve_candidates campaign_store request_context =
      if not (is_eligible request_context)
      then []
      else elim (choose_seed_bucket campaign_store request_context) [
        | none ↦ []
        | some seed_bucket ↦ collect campaign_store request_context seed_bucket
      ]
