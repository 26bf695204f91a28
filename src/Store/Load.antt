-- ===== src/Store/Load.antt =====
-- The loader of src/campaign_store.cc against the exact indexes, line by line.
use rtb_engine.Base.{
  ℕ, suc, ◌+◌, ◌%◌, ◌^◌, ◌≤◌, ◌<◌, ◌≡◌, ◌≢◌, refl, sym, ap, ◌∙◌, subst, ◌⊎◌, inl, inr, true, List,
  [], ◌∷◌, ◌++◌, some, arith, ◌==◌, length, get_or, take, drop, All, Bool-cases, Option-cases,
  length-append, drop-length, take_all,
}
use rtb_engine.Types.{DeviceTypeKey, CampaignRecord, CreativeRecord, CampaignStoreSnapshot}
use rtb_engine.Double.{Double}
use rtb_engine.Store.{
  find_bucket, Specs, LineNumbers, LineKeys, line_keys, line_numbers, campaign_of, push_campaign,
  append_specs, append_keys, append_campaign_line, parse_creative_specs, load_lines,
  load_campaign_store_snapshot,
}
use rtb_engine.Store.Csv.{split_creatives, split_csv_line, lines}
use rtb_engine.Store.Csv.Sizes.{creative_tokens, text_size, text_size-lines}
use rtb_engine.Store.Index.{
  bucket-none, HasSpan, HasKeys, IsIndexed, push_campaign-IsIndexed, creatives-IsIndexed,
}
use rtb_engine.Store.Creatives.{Grown, push_creatives-Grown}

-- The guard of the keys.
record Accepted (keys : LineKeys) : Type 0 where
  country : keys.country_key.value ≢ 0
  device : keys.device_type_key ≢ DeviceTypeKey.unknown
  slot : keys.ad_slot_key.value ≢ 0

module _ {F : Type 0} ⦃d : Double F⦄ where
  -- A snapshot with exact indexes and at most `n` campaigns and creatives.
  record Loaded (n : ℕ) (s : CampaignStoreSnapshot F) : Type 0 where
    indexed : IsIndexed s
    campaigns : length s.campaigns ≤ n
    creatives : length s.creatives ≤ n

  new-HasSpan :
      (numbers : LineNumbers F) (keys : LineKeys) (before more : List CreativeRecord) (count : ℕ)
      → length before < 2 ^ 32
      → count ≡ length more
      → 0 < count
      → All (λ (r : CreativeRecord). r.ad_slot_key.value ≡ keys.ad_slot_key.value) more
      → HasSpan (before ++ more) (campaign_of numbers keys (length before % 2 ^ 32) count)
  new-HasSpan numbers keys before more count small e h slot = record {
    some_creative = h;
    within = omega (arith, length-append before more);
    same_slot = subst (All _) (sym span) slot;
  }
    where
      here : length before % 2 ^ 32 ≡ length before
      here = omega arith

      span : take count (drop (length before % 2 ^ 32) (before ++ more)) ≡ more
      span =
          ap (λ i. take count (drop i (before ++ more))) here
          ∙ ap (take count) (drop-length before more)
          ∙ take_all count more (omega arith)

  append_specs-true :
      (numbers : LineNumbers F) (keys : LineKeys) (specs : Specs) (s : CampaignStoreSnapshot F)
      → specs.parsed ≡ true
      → append_specs numbers keys specs s ≡ (
        true,
        push_campaign
            (campaign_of numbers keys (length s.creatives % 2 ^ 32) specs.creative_count)
            (record s { creatives = specs.creatives }),
      )
  unfolding append_specs
  append_specs-true numbers keys specs s e = rw e refl

  -- A line that is accepted.
  module _ (numbers : LineNumbers F) (keys : LineKeys) (text : List ℕ) (s : CampaignStoreSnapshot F)
      (n m : ℕ) (small : n + m < 2 ^ 32) (some_line : 0 < m)
      (few : length (split_creatives text) ≤ m) (v : Loaded n s) where
    abbrev specs : Specs
    specs = parse_creative_specs text keys.ad_slot_key s.creatives

    grown : Grown keys.ad_slot_key (split_creatives text) s.creatives 0 specs
    unfolding parse_creative_specs
    grown = push_creatives-Grown keys.ad_slot_key (split_creatives text) s.creatives 0 (omega arith)

    abbrev campaign : CampaignRecord F
    campaign = campaign_of numbers keys (length s.creatives % 2 ^ 32) specs.creative_count

    abbrev added : CampaignStoreSnapshot F
    added = record s { creatives = s.creatives ++ grown.more }

    span : 0 < specs.creative_count → HasSpan (s.creatives ++ grown.more) campaign
    span h =
        new-HasSpan numbers keys s.creatives grown.more specs.creative_count
          (omega (arith, v.creatives)) (omega (arith, grown.counted)) h grown.slot

    pushed-Loaded :
        specs.parsed ≡ true → HasKeys campaign → Loaded (n + m) (push_campaign campaign added)
    unfolding push_campaign
    pushed-Loaded good named = record {
      indexed =
          push_campaign-IsIndexed campaign added (omega (arith, v.campaigns))
            (span (grown.success good)) named (creatives-IsIndexed s grown.more v.indexed);
      campaigns = omega (arith, v.campaigns, length-append s.campaigns (campaign ∷ []));
      creatives = omega (arith, v.creatives, length-append s.creatives grown.more, grown.few);
    }

    appended :
        specs.parsed ≡ true
        → HasKeys campaign
        → Loaded (n + m) (append_specs numbers keys specs s).1
    appended good named =
        subst (λ p. Loaded (n + m) p.1) (sym (append_specs-true numbers keys specs s good))
          (subst (λ c. Loaded (n + m) (push_campaign campaign (record s { creatives = c })))
            (sym grown.shape) (pushed-Loaded good named))

  Loaded-more : (n m : ℕ) (s : CampaignStoreSnapshot F) → n ≤ m → Loaded n s → Loaded m s
  Loaded-more n m s h v = record {
    indexed = v.indexed;
    campaigns = omega (arith, v.campaigns);
    creatives = omega (arith, v.creatives);
  }

  append_specs-parsed :
      (numbers : LineNumbers F) (keys : LineKeys) (specs : Specs) (s : CampaignStoreSnapshot F)
      → (append_specs numbers keys specs s).0 ≡ true
      → specs.parsed ≡ true
  unfolding append_specs
  append_specs-parsed numbers keys specs s e = ground arith

  append_keys-Accepted :
      (numbers : LineNumbers F) (keys : LineKeys) (text : List ℕ) (s : CampaignStoreSnapshot F)
      → (append_keys numbers keys text s).0 ≡ true
      → Accepted keys
        × (append_keys numbers keys text s
            ≡ append_specs numbers keys (parse_creative_specs text keys.ad_slot_key s.creatives) s)
  unfolding append_keys
  append_keys-Accepted numbers keys text s e = (
    record { country = λ h. ground arith; device = λ h. ground arith; slot = λ h. ground arith },
    ground arith,
  )

  append_keys-Loaded :
      (numbers : LineNumbers F) (keys : LineKeys) (text : List ℕ) (s : CampaignStoreSnapshot F)
      (n m : ℕ)
      → n + m < 2 ^ 32
      → 0 < m
      → length (split_creatives text) ≤ m
      → Loaded n s
      → (append_keys numbers keys text s).0 ≡ true
      → Loaded (n + m) (append_keys numbers keys text s).1
  append_keys-Loaded numbers keys text s n m small some_line few v e =
      let (named, path) = append_keys-Accepted numbers keys text s e in
      let good = append_specs-parsed numbers keys _ s (sym (ap (λ p. p.0) path) ∙ e) in
      subst (λ p. Loaded (n + m) p.1) (sym path)
        (appended numbers keys text s n m small some_line few v good
          (record { country = named.country; device = named.device; slot = named.slot }))

  append_line-keys :
      (fields : List (List ℕ)) (s : CampaignStoreSnapshot F)
      → (append_campaign_line fields s).0 ≡ true
      → (numbers : LineNumbers F) × (append_campaign_line fields s
          ≡ append_keys numbers (line_keys fields) (get_or fields 7 []) s)
  unfolding append_campaign_line
  append_line-keys fields s e = elim (Bool-cases (length fields == 8)) [
    | inr bad ↦ absurd (ground arith)
    | inl right ↦ elim (Option-cases (line_numbers {F = F} fields)) [
      | inl none_read ↦ absurd (ground arith)
      | inr (numbers, read) ↦ (numbers, rw (right, read) refl)
    ]
  ]

  append_line-Loaded :
      (fields : List (List ℕ)) (s : CampaignStoreSnapshot F) (n m : ℕ)
      → n + m < 2 ^ 32
      → 0 < m
      → length (split_creatives (get_or fields 7 [])) ≤ m
      → Loaded n s
      → (append_campaign_line fields s).0 ≡ true
      → Loaded (n + m) (append_campaign_line fields s).1
  append_line-Loaded fields s n m small some_line few v e =
      let (numbers, path) = append_line-keys fields s e in
      subst (λ p. Loaded (n + m) p.1) (sym path)
        (append_keys-Loaded numbers (line_keys fields) (get_or fields 7 []) s n m small some_line
          few v (sym (ap (λ p. p.0) path) ∙ e))

  load_lines-step :
      (line : List ℕ) (rest : List (List ℕ)) (k : ℕ) (s s' : CampaignStoreSnapshot F)
      → load_lines (line ∷ rest) k s ≡ some s'
      → (load_lines rest (k + 1) s ≡ some s')
        ⊎ (((append_campaign_line (split_csv_line line) s).0 ≡ true)
            × (load_lines rest (k + 1) (append_campaign_line (split_csv_line line) s).1 ≡ some s'))
  unfolding load_lines
  load_lines-step line rest k s s' e = ground arith

  load_lines-IsIndexed :
      (ls : List (List ℕ)) (k n : ℕ) (s s' : CampaignStoreSnapshot F)
      → n + text_size ls < 2 ^ 32
      → Loaded n s
      → load_lines ls k s ≡ some s'
      → IsIndexed s'
  unfolding load_lines
  load_lines-IsIndexed [] k n s s' small v e =
      let same : s ≡ s' = cc in subst IsIndexed same v.indexed
  load_lines-IsIndexed (line ∷ rest) k n s s' small v e =
      elim (load_lines-step line rest k s s' e) [
        | inl skip ↦ load_lines-IsIndexed rest (k + 1) n s s' (omega arith) v skip
        | inr (good, next) ↦
            load_lines-IsIndexed rest (k + 1) (n + suc (length line))
              (append_campaign_line (split_csv_line line) s).1 s' (omega arith)
              (append_line-Loaded (split_csv_line line) s n (suc (length line)) (omega arith)
                (omega arith) (creative_tokens 7 line) v good)
              next
      ]

  empty_store : CampaignStoreSnapshot F
  empty_store = record {
    campaigns = [];
    creatives = [];
    campaigns_by_country = [];
    campaigns_by_ad_slot = [];
  }

  empty-Loaded : Loaded 0 empty_store
  unfolding empty_store find_bucket
  empty-Loaded = record {
    indexed = record {
      by_country = λ k. bucket-none k [] refl;
      by_slot = λ k. bucket-none k [] refl;
      spans = tt;
      keys = tt;
    };
    campaigns = omega arith;
    creatives = omega arith;
  }

  -- A snapshot loaded from a file of fewer than 2 ^ 32 - 1 bytes has exact indexes: each bucket
  -- lists the positions of exactly the campaigns with its key, every campaign has its creatives,
  -- at least one and all for its ad slot, and no campaign has a key for "none".
  pub load_campaign_store_snapshot-IsIndexed :
      (bytes : List ℕ) (s : CampaignStoreSnapshot F)
      → length bytes + 1 < 2 ^ 32
      → load_campaign_store_snapshot (some bytes) ≡ some s
      → IsIndexed s
  unfolding load_campaign_store_snapshot empty_store
  load_campaign_store_snapshot-IsIndexed bytes s small e =
      load_lines-IsIndexed (lines bytes) 0 0 empty_store s (omega (arith, text_size-lines bytes))
        empty-Loaded e
