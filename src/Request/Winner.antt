-- ===== src/Request/Winner.antt =====
-- `handle_request` (src/handle_request.cc) from the message to the bid: which campaign of the store
-- a bid is for, and when there is one.
use rtb_engine.Base.{
  zero, suc, ◌<◌, ◌≡◌, refl, sym, ap, ◌∙◌, subst, inl, inr, Bool, true, false, ◌||◌, List, [], ◌∷◌,
  map, arith, if◌then◌else◌, keep, take, drop, length, All, Listed, Listed-All, Bool-cases,
  is_empty, length-take, length-drop,
}
use mathlib.Core.Bool.{false≢true}
use rtb_engine.Types.{
  ParsedMessage, RequestContext, DeviceTypeKey, device_number, CampaignRecord, CreativeRecord,
  CampaignStoreSnapshot, valid, BidDecision,
}
use rtb_engine.Double.{Double, IsIeee}
use rtb_engine.Normalize.{normalize_country_key, normalize_device_type_key, normalize_ad_slot_key}
use rtb_engine.Store.Index.{HasSpan}
use rtb_engine.Retrieve.{campaign_creatives, matches_request, view_of}
use rtb_engine.Decision.{bid_of}
use rtb_engine.Decision.Price.{InRange}
use rtb_engine.Decision.Highest.{any_can_bid}

pub Listed-map {ℓ κ} :
    {A : Type ℓ} {B : Type κ} (f : A → B) (xs : List A) (y : B)
    → Listed y (map f xs)
    → (x : A) × Listed x xs × (f x ≡ y)
Listed-map f [] y (i, e) = cc
Listed-map f (x ∷ xs) y (zero, e) = (x, (0, refl), cc)
Listed-map f (x ∷ xs) y (suc i, e) =
    let (z, (j, l), p) = Listed-map f xs y (i, e) in (z, (suc j, l), p)

pub Listed-keep {ℓ} :
    {A : Type ℓ} (p : A → Bool) (xs : List A) (y : A)
    → Listed y (keep p xs)
    → Listed y xs × (p y ≡ true)
Listed-keep p [] y (i, e) = cc
Listed-keep p (x ∷ xs) y l = elim (Bool-cases (p x)) [
  | inr miss ↦
      let kept : Listed y (keep p xs) =
        subst (λ (t : Bool). Listed y (if t then x ∷ keep p xs else keep p xs)) miss l in
      let ((i, e), h) = Listed-keep p xs y kept in ((suc i, e), h)
  | inl hit ↦
      first hit (λ k. Listed-keep p xs y k)
        (subst (λ (t : Bool). Listed y (if t then x ∷ keep p xs else keep p xs)) hit l)
]
  where
    first :
        p x ≡ true
        → (Listed y (keep p xs) → Listed y xs × (p y ≡ true))
        → Listed y (x ∷ keep p xs)
        → Listed y (x ∷ xs) × (p y ≡ true)
    first hit go (zero, e) = let same : x ≡ y = cc in ((0, e), ap p (sym same) ∙ hit)
    first hit go (suc i, e) = let ((j, f), h) = go (i, e) in ((suc j, f), h)

device_number-same : (j k : DeviceTypeKey) → device_number j ≡ device_number k → j ≡ k
device_number-same DeviceTypeKey.unknown k e = ground arith
device_number-same DeviceTypeKey.desktop k e = ground arith
device_number-same DeviceTypeKey.mobile k e = ground arith
device_number-same DeviceTypeKey.tablet k e = ground arith
device_number-same DeviceTypeKey.connected_tv k e = ground arith

module _ {F : Type 0} where
  -- What `matches_request` tests.
  pub record Matches (context : RequestContext) (c : CampaignRecord F) : Type 0 where
    pub active : c.active ≡ true
    pub country : c.country_key.value ≡ context.country_key.value
    pub device : c.device_type_key ≡ context.device_type_key
    pub slot : c.ad_slot_key.value ≡ context.ad_slot_key.value

  pub matches_request-Matches :
      (context : RequestContext) (c : CampaignRecord F)
      → matches_request context c ≡ true
      → Matches context c
  unfolding matches_request
  matches_request-Matches context c e = record {
    active = ground arith;
    country = ground arith;
    device = device_number-same c.device_type_key context.device_type_key (ground arith);
    slot = ground arith;
  }

  Matches-matches_request :
      (context : RequestContext) (c : CampaignRecord F)
      → Matches context c
      → matches_request context c ≡ true
  unfolding matches_request
  Matches-matches_request context c h =
      let device = ap device_number h.device in ground (arith, h.active, h.country, device, h.slot)

  pub creative_slot :
      (s : CampaignStoreSnapshot F) (c : CampaignRecord F) (r : CreativeRecord)
      → HasSpan s.creatives c
      → Listed r (campaign_creatives s c)
      → r.ad_slot_key.value ≡ c.ad_slot_key.value
  unfolding campaign_creatives
  creative_slot s c r span l =
      Listed-All (λ (q : CreativeRecord). q.ad_slot_key.value ≡ c.ad_slot_key.value)
        (take c.creative_count (drop c.creative_offset s.creatives)) r span.same_slot l

  creatives_given :
      (s : CampaignStoreSnapshot F) (c : CampaignRecord F)
      → HasSpan s.creatives c
      → is_empty (campaign_creatives s c) ≡ false
  unfolding campaign_creatives
  creatives_given s c span =
      not_empty (take c.creative_count (drop c.creative_offset s.creatives)) (
        omega (
          arith,
          length-take c.creative_count (drop c.creative_offset s.creatives),
          length-drop c.creative_offset s.creatives,
          span.within,
          span.some_creative,
        ))
    where
      not_empty : (rs : List CreativeRecord) → 0 < length rs → is_empty rs ≡ false
      not_empty [] h = absurd (omega arith)
      not_empty (r ∷ rs) h = refl

  -- Some campaign of the list matches the request.
  abbrev pub any_matches : RequestContext → List (CampaignRecord F) → Bool
  any_matches context [] = false
  any_matches context (c ∷ cs) = matches_request context c || any_matches context cs

  pub any_matches-Listed :
      (context : RequestContext) (cs : List (CampaignRecord F))
      → any_matches context cs ≡ true
      → (c : CampaignRecord F) × Listed c cs × Matches context c
  any_matches-Listed context [] h = absurd (false≢true h)
  any_matches-Listed context (c ∷ cs) h = elim (Bool-cases (matches_request context c)) [
    | inl hit ↦ (c, (0, refl), matches_request-Matches context c hit)
    | inr miss ↦
        let later : any_matches context cs ≡ true = sym (rw miss refl) ∙ h in
        let (found, (i, e), fits) = any_matches-Listed context cs later in (found, (suc i, e), fits)
  ]

  pub Listed-any_matches :
      (context : RequestContext) (cs : List (CampaignRecord F)) (c : CampaignRecord F)
      → Listed c cs
      → Matches context c
      → any_matches context cs ≡ true
  Listed-any_matches context [] c (i, e) h = cc
  Listed-any_matches context (first ∷ cs) c (zero, e) h =
      let same : first ≡ c = cc in
      let hit = ap (matches_request context) same ∙ Matches-matches_request context c h in
      rw hit refl
  Listed-any_matches context (first ∷ cs) c (suc i, e) h =
      let later = Listed-any_matches context cs c (i, e) h in
      rw later (elim (Bool-cases (matches_request context first)) [
        | inl hit ↦ rw hit refl
        | inr miss ↦ rw miss refl
      ])

module _ {F : Type 0} ⦃d : Double F⦄ (laws : IsIeee F) where
  pub any_can_bid-matching :
      (s : CampaignStoreSnapshot F) (context : RequestContext) (cs : List (CampaignRecord F))
      → All (HasSpan s.creatives) cs
      → any_can_bid laws (map (view_of s) (keep (matches_request context) cs))
        ≡ any_matches context cs
  unfolding valid
  any_can_bid-matching s context [] h = refl
  any_can_bid-matching s context (c ∷ cs) h = elim (Bool-cases (matches_request context c)) [
    | inl hit ↦ let given = creatives_given s c h.0 in rw (hit, given) refl
    | inr miss ↦ rw miss (any_can_bid-matching s context cs h.1)
  ]

  -- A campaign of the store that the message may be answered with, and the bid for it.
  pub record Won (m : ParsedMessage) (store : CampaignStoreSnapshot F) (decision : BidDecision F)
      : Type 0 where
    pub campaign : CampaignRecord F
    pub listed : Listed campaign store.campaigns
    pub active : campaign.active ≡ true
    pub country : campaign.country_key.value ≡ (normalize_country_key m.country).value
    pub device : campaign.device_type_key ≡ normalize_device_type_key m.device_type
    pub slot : campaign.ad_slot_key.value ≡ (normalize_ad_slot_key m.ad_slot).value
    pub creative : CreativeRecord
    pub creative_listed : Listed creative (campaign_creatives store campaign)
    pub creative_slot : creative.ad_slot_key.value ≡ (normalize_ad_slot_key m.ad_slot).value
    pub shape : decision ≡ bid_of campaign creative decision.bid_price
    pub price : InRange laws decision.bid_price
