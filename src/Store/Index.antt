-- ===== src/Store/Index.antt =====
-- The indexes of a snapshot (src/campaign_store.cc) as exact: buckets against the positions of the
-- campaigns with their key, and the spans of creatives.
use rtb_engine.Base.{
  ℕ, suc, ◌+◌, ◌%◌, ◌^◌, ◌≤◌, ◌<◌, ◌≡◌, ◌≢◌, refl, sym, ap, ◌∙◌, subst, Bool, true, false, List, [],
  ◌∷◌, ◌++◌, Option, none, some, arith, if◌then◌else◌, ◌==◌, length, take, drop, All, All-append,
  All-map, length-append, length-drop, drop-append_le, take-append_le,
}
use mathlib.Core.List.{append-nil}
use mathlib.Core.Path.{ap₂}
use rtb_engine.Types.{
  DeviceTypeKey, CampaignRecord, CreativeRecord, BucketMap, CampaignStoreSnapshot,
}
use rtb_engine.Store.{push_bucket, find_bucket, push_campaign}

-- The contents of a bucket, empty for a missing key.
abbrev pub bucket_or_empty : Option (List ℕ) → List ℕ
bucket_or_empty none = []
bucket_or_empty (some bucket) = bucket

pub bucket : ℕ → BucketMap → List ℕ
bucket key m = bucket_or_empty (find_bucket key m)

pub bucket-none : (key : ℕ) (m : BucketMap) → find_bucket key m ≡ none → bucket key m ≡ []
unfolding bucket
bucket-none key m e = ap bucket_or_empty e

pub bucket-some :
    (key : ℕ) (m : BucketMap) (b : List ℕ) → find_bucket key m ≡ some b → bucket key m ≡ b
unfolding bucket
bucket-some key m b e = ap bucket_or_empty e

-- Pushing an index under a key appends it to the bucket of that key, which may be missing, and
-- changes no other bucket.
pub bucket-push_bucket :
    (key j index : ℕ) (m : BucketMap)
    → bucket j (push_bucket key index m)
      ≡ (if key == j then bucket j m ++ index ∷ [] else bucket j m)
unfolding bucket find_bucket push_bucket
bucket-push_bucket key j index [] = ground arith
bucket-push_bucket key j index ((k, b) ∷ m) = ground (arith, bucket-push_bucket key j index m)

module _ {ℓ} {A : Type ℓ} (p : A → Bool) where
  -- The positions, counted from `i`, of the elements that pass.
  abbrev pub positions : ℕ → List A → List ℕ
  positions i [] = []
  positions i (x ∷ xs) = if p x then i ∷ positions (suc i) xs else positions (suc i) xs

  pub positions-append :
      (i : ℕ) (xs : List A) (y : A)
      → positions i (xs ++ y ∷ []) ≡ positions i xs ++ (if p y then (i + length xs) ∷ [] else [])
  positions-append i [] y = ground arith
  positions-append i (x ∷ xs) y = ground (arith, positions-append (suc i) xs y)

module _ {F : Type 0} where
  -- The campaign's creatives exist, there is one, and all are for the campaign's ad slot.
  pub record HasSpan (creatives : List CreativeRecord) (c : CampaignRecord F) : Type 0 where
    pub some_creative : 0 < c.creative_count
    pub within : c.creative_offset + c.creative_count ≤ length creatives
    pub same_slot :
        All
          (λ (r : CreativeRecord). r.ad_slot_key.value ≡ c.ad_slot_key.value)
          (take c.creative_count (drop c.creative_offset creatives))

  abbrev pub in_country : ℕ → CampaignRecord F → Bool
  in_country k c = c.country_key.value == k

  abbrev pub in_slot : ℕ → CampaignRecord F → Bool
  in_slot k c = c.ad_slot_key.value == k

  -- A campaign that the loader accepts has keys that are not the ones for "none".
  pub record HasKeys (c : CampaignRecord F) : Type 0 where
    pub country : c.country_key.value ≢ 0
    pub device : c.device_type_key ≢ DeviceTypeKey.unknown
    pub slot : c.ad_slot_key.value ≢ 0

  pub record IsIndexed (s : CampaignStoreSnapshot F) : Type 0 where
    pub by_country :
        (k : ℕ) → bucket k s.campaigns_by_country ≡ positions (in_country k) 0 s.campaigns
    pub by_slot : (k : ℕ) → bucket k s.campaigns_by_ad_slot ≡ positions (in_slot k) 0 s.campaigns
    pub spans : All (HasSpan s.creatives) s.campaigns
    pub keys : All HasKeys s.campaigns

  index_step :
      (p : ℕ → CampaignRecord F → Bool) (key : ℕ) (c : CampaignRecord F)
      (cs : List (CampaignRecord F)) (m : BucketMap) (k : ℕ)
      → length cs < 2 ^ 32
      → p k c ≡ (key == k)
      → bucket k m ≡ positions (p k) 0 cs
      → bucket k (push_bucket key (length cs % 2 ^ 32) m) ≡ positions (p k) 0 (cs ++ c ∷ [])
  index_step p key c cs m k small test h =
      let here : length cs % 2 ^ 32 ≡ 0 + length cs = omega arith in
      bucket-push_bucket key k (length cs % 2 ^ 32) m
      ∙ ap (λ (t : Bool). if t then bucket k m ++ (length cs % 2 ^ 32) ∷ [] else bucket k m)
          (sym test)
      ∙ ap₂ (λ (b : List ℕ) (i : ℕ). if p k c then b ++ i ∷ [] else b) h here
      ∙ joined (p k c) (positions (p k) 0 cs) (0 + length cs)
      ∙ sym (positions-append (p k) 0 cs c)
    where
      joined :
          (t : Bool) (b : List ℕ) (i : ℕ)
          → (if t then b ++ i ∷ [] else b) ≡ b ++ (if t then i ∷ [] else [])
      joined true b i = refl
      joined false b i = sym (append-nil b)

  -- A pushed campaign with its keys and its span keeps the indexes exact, as long as there are
  -- fewer than 2 ^ 32 campaigns.
  pub push_campaign-IsIndexed :
      (c : CampaignRecord F) (s : CampaignStoreSnapshot F)
      → length s.campaigns < 2 ^ 32
      → HasSpan s.creatives c
      → HasKeys c
      → IsIndexed s
      → IsIndexed (push_campaign c s)
  unfolding push_campaign
  push_campaign-IsIndexed c s small span named v = record {
    by_country = λ k.
        index_step in_country c.country_key.value c s.campaigns _ k small refl (v.by_country k);
    by_slot =
        λ k. index_step in_slot c.ad_slot_key.value c s.campaigns _ k small refl (v.by_slot k);
    spans = All-append (HasSpan s.creatives) s.campaigns (c ∷ []) v.spans (span, tt);
    keys = All-append HasKeys s.campaigns (c ∷ []) v.keys (named, tt);
  }

  HasSpan-more :
      (creatives more : List CreativeRecord) (c : CampaignRecord F)
      → HasSpan creatives c
      → HasSpan (creatives ++ more) c
  HasSpan-more creatives more c h = record {
    some_creative = h.some_creative;
    within = omega (arith, h.within, length-append creatives more);
    same_slot =
        subst (All (λ (r : CreativeRecord). r.ad_slot_key.value ≡ c.ad_slot_key.value)) (sym same)
          h.same_slot;
  }
    where
      same :
          take c.creative_count (drop c.creative_offset (creatives ++ more))
          ≡ take c.creative_count (drop c.creative_offset creatives)
      same =
          ap (take c.creative_count)
            (drop-append_le c.creative_offset creatives more (omega (arith, h.within)))
          ∙ take-append_le c.creative_count (drop c.creative_offset creatives) more
              (omega (arith, h.within, length-drop c.creative_offset creatives))

  -- More creatives at the end change no index and no span.
  pub creatives-IsIndexed :
      (s : CampaignStoreSnapshot F) (more : List CreativeRecord)
      → IsIndexed s
      → IsIndexed (record s { creatives = s.creatives ++ more })
  creatives-IsIndexed s more v = record {
    by_country = v.by_country;
    by_slot = v.by_slot;
    spans =
        All-map (HasSpan s.creatives) (HasSpan (s.creatives ++ more)) s.campaigns
          (HasSpan-more s.creatives more) v.spans;
    keys = v.keys;
  }
