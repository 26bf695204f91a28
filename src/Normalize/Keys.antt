-- ===== src/Normalize/Keys.antt =====
-- The keys of src/normalize.cc: their ranges, and when two texts have the same key.
use rtb_engine.Base.{
  ℕ, ◌+◌, ◌*◌, ◌%◌, ◌^◌, ◌<◌, ◌≡◌, ◌≢◌, refl, sym, ◌∙◌, ◌↔◌, ◌⊎◌, inl, inr, bit_xor, bit_or-shifted,
  bit_xor-lt, bit_xor-cancel, bit_xor_comm, subst, All, ◌++◌, List, [], ◌∷◌, arith, length, text_eq,
  text_eq→eq, Bool-cases,
}
use rtb_engine.Types.{
  desktop_name, mobile_name, tablet_name, ctv_name, connected_tv_name, DeviceTypeKey,
}
use rtb_engine.Buffer.Bytes.{IsByte}
use rtb_engine.Normalize.Letters.{
  SameLetter, to_upper_ascii-IsByte, to_upper_ascii-SameLetter, SameLetter-to_upper_ascii,
  to_upper_ascii-zero,
}
use rtb_engine.Normalize.{
  to_upper_ascii, normalize_country_key, normalize_device_type_key, normalize_ad_slot_key,
  hash_from, hash_step,
}

country_value :
    (a b : ℕ)
    → IsByte a
    → IsByte b
    → (normalize_country_key (a ∷ b ∷ [])).value ≡ to_upper_ascii a * 2 ^ 8 + to_upper_ascii b
unfolding normalize_country_key
country_value a b h k = omega (
  arith,
  bit_or-shifted 8 (to_upper_ascii a) (to_upper_ascii b) (to_upper_ascii-IsByte b k),
  to_upper_ascii-IsByte a h,
  to_upper_ascii-IsByte b k,
)

same_value :
    (a b c d : ℕ)
    → IsByte a
    → IsByte b
    → IsByte c
    → IsByte d
    → ((normalize_country_key (a ∷ b ∷ [])).value ≡ (normalize_country_key (c ∷ d ∷ [])).value)
      ↔ ((to_upper_ascii a ≡ to_upper_ascii c) × (to_upper_ascii b ≡ to_upper_ascii d))
same_value a b c d ha hb hc hd =
    (λ e. omega (arith, first, second, bounds), λ e. omega (arith, first, second))
  where
    first : (normalize_country_key (a ∷ b ∷ [])).value ≡ to_upper_ascii a * 2 ^ 8 + to_upper_ascii b
    first = country_value a b ha hb

    second :
        (normalize_country_key (c ∷ d ∷ [])).value ≡ to_upper_ascii c * 2 ^ 8 + to_upper_ascii d
    second = country_value c d hc hd

    bounds : IsByte (to_upper_ascii b) × IsByte (to_upper_ascii d)
    bounds = (to_upper_ascii-IsByte b hb, to_upper_ascii-IsByte d hd)

-- Two-letter countries, of bytes, have the same key exactly when they are the same letter by
-- letter but for ASCII case.
pub country_key-same :
    (a b c d : ℕ)
    → IsByte a
    → IsByte b
    → IsByte c
    → IsByte d
    → ((normalize_country_key (a ∷ b ∷ [])).value ≡ (normalize_country_key (c ∷ d ∷ [])).value)
      ↔ (SameLetter a c × SameLetter b d)
country_key-same a b c d ha hb hc hd =
    let (forth, back) = same_value a b c d ha hb hc hd in
    (
      λ e.
          let (p, q) = forth e in
          (to_upper_ascii-SameLetter a c ha hc p, to_upper_ascii-SameLetter b d hb hd q),
      λ (p, q). back (SameLetter-to_upper_ascii a c ha hc p, SameLetter-to_upper_ascii b d hb hd q),
    )

-- A country whose length is not 2 has the key 0, which validation rejects.
country_key_other : (s : List ℕ) → length s ≢ 2 → (normalize_country_key s).value ≡ 0
unfolding normalize_country_key
country_key_other s h = ground arith

-- The key 0, which stands for no country, is that of every text of another length than 2, and of
-- no two-letter text but the one of two zero bytes.
pub country_key-zero :
    (a b : ℕ)
    → IsByte a
    → IsByte b
    → ((normalize_country_key (a ∷ b ∷ [])).value ≡ 0 → (a ≡ 0) × (b ≡ 0))
      × ((s : List ℕ) → length s ≢ 2 → (normalize_country_key s).value ≡ 0)
country_key-zero a b ha hb = (zero_bytes, country_key_other)
  where
    zero_bytes : (normalize_country_key (a ∷ b ∷ [])).value ≡ 0 → (a ≡ 0) × (b ≡ 0)
    zero_bytes e = (
      to_upper_ascii-zero a (omega (arith, country_value a b ha hb)) ha,
      to_upper_ascii-zero b (omega (arith, country_value a b ha hb)) hb,
    )

-- The device types that the engine knows, by the texts that name them.
pub data Names : List ℕ → DeviceTypeKey → Type 0 where
  names_desktop : {s : List ℕ} → s ≡ desktop_name → Names s DeviceTypeKey.desktop
  names_mobile : {s : List ℕ} → s ≡ mobile_name → Names s DeviceTypeKey.mobile
  names_tablet : {s : List ℕ} → s ≡ tablet_name → Names s DeviceTypeKey.tablet
  names_ctv : {s : List ℕ} → s ≡ ctv_name → Names s DeviceTypeKey.connected_tv
  names_connected_tv : {s : List ℕ} → s ≡ connected_tv_name → Names s DeviceTypeKey.connected_tv

name-Names : (s : List ℕ) (k : DeviceTypeKey) → Names s k → normalize_device_type_key s ≡ k
unfolding normalize_device_type_key
name-Names s k (names_desktop e) = rw e
name-Names s k (names_mobile e) = rw e
name-Names s k (names_tablet e) = rw e
name-Names s k (names_ctv e) = rw e
name-Names s k (names_connected_tv e) = rw e

Names-name :
    (s : List ℕ)
    → (normalize_device_type_key s ≡ DeviceTypeKey.unknown) ⊎ Names s (normalize_device_type_key s)
unfolding normalize_device_type_key
Names-name s = elim (Bool-cases (text_eq s desktop_name)) [
  | inl e ↦ rw e (inr (names_desktop (text_eq→eq s desktop_name e)))
  | inr n ↦ rw n (elim (Bool-cases (text_eq s mobile_name)) [
    | inl e ↦ rw e (inr (names_mobile (text_eq→eq s mobile_name e)))
    | inr n ↦ rw n (elim (Bool-cases (text_eq s tablet_name)) [
      | inl e ↦ rw e (inr (names_tablet (text_eq→eq s tablet_name e)))
      | inr n ↦ rw n (elim (Bool-cases (text_eq s ctv_name)) [
        | inl e ↦ rw e (inr (names_ctv (text_eq→eq s ctv_name e)))
        | inr n ↦ rw n (elim (Bool-cases (text_eq s connected_tv_name)) [
          | inl e ↦ rw e (inr (names_connected_tv (text_eq→eq s connected_tv_name e)))
          | inr n ↦ rw n (inl refl)
        ])
      ])
    ])
  ])
]

-- A text is normalized to a known device type exactly when it is one of the names of that type.
pub device_type-Names :
    (s : List ℕ) (k : DeviceTypeKey)
    → k ≢ DeviceTypeKey.unknown
    → (normalize_device_type_key s ≡ k) ↔ Names s k
device_type-Names s k known = (named, name-Names s k)
  where
    named : normalize_device_type_key s ≡ k → Names s k
    named e = elim (Names-name s) [
      | inl u ↦ absurd (known (sym e ∙ u))
      | inr n ↦ subst (Names s) e n
    ]

times_prime_cancel :
    (x y : ℕ) → x < 2 ^ 32 → y < 2 ^ 32 → x * 16777619 % 2 ^ 32 ≡ y * 16777619 % 2 ^ 32 → x ≡ y
times_prime_cancel x y h k e = omega arith

hash_step-value :
    (v w c : ℕ) → v < 2 ^ 32 → w < 2 ^ 32 → c < 2 ^ 32 → hash_step v c ≡ hash_step w c → v ≡ w
unfolding hash_step
hash_step-value v w c h k l e = bit_xor-cancel c v w (
    bit_xor_comm c v
    ∙ times_prime_cancel (bit_xor v c) (bit_xor w c) (bit_xor-lt 32 v c h l) (bit_xor-lt 32 w c k l)
        e
    ∙ bit_xor_comm w c)

hash_step-character :
    (v c d : ℕ) → v < 2 ^ 32 → IsByte c → IsByte d → hash_step v c ≡ hash_step v d → c ≡ d
unfolding hash_step
hash_step-character v c d h k l e = bit_xor-cancel v c d (
    times_prime_cancel (bit_xor v c) (bit_xor v d) (bit_xor-lt 32 v c h (omega arith))
      (bit_xor-lt 32 v d h (omega arith)) e)

hash_step-lt : (v c : ℕ) → hash_step v c < 2 ^ 32
unfolding hash_step
hash_step-lt v c = omega arith

hash_from-value :
    (s : List ℕ) (v w : ℕ)
    → All IsByte s
    → v < 2 ^ 32
    → w < 2 ^ 32
    → hash_from v s ≡ hash_from w s
    → v ≡ w
unfolding hash_from
hash_from-value [] v w b h k e = e
hash_from-value (c ∷ s) v w b h k e =
    hash_step-value v w c h k (omega (arith, b.0)) (
      hash_from-value s (hash_step v c) (hash_step w c) b.1 (hash_step-lt v c) (hash_step-lt w c) e)

hash_from-append : (v : ℕ) (s t : List ℕ) → hash_from v (s ++ t) ≡ hash_from (hash_from v s) t
unfolding hash_from
hash_from-append v [] t = refl
hash_from-append v (c ∷ s) t = hash_from-append (hash_step v c) s t

hash_from-lt : (s : List ℕ) (v : ℕ) → v < 2 ^ 32 → hash_from v s < 2 ^ 32
unfolding hash_from
hash_from-lt [] v h = h
hash_from-lt (c ∷ s) v h = hash_from-lt s (hash_step v c) (hash_step-lt v c)

-- The ad slot key is a 32-bit number, and changing one character of an ad slot, of bytes from
-- there on, changes its key.
pub ad_slot_key-one_change :
    (s t : List ℕ) (c d : ℕ)
    → IsByte c
    → IsByte d
    → All IsByte t
    → c ≢ d
    → ((normalize_ad_slot_key (s ++ c ∷ t)).value < 2 ^ 32)
      × ((normalize_ad_slot_key (s ++ c ∷ t)).value ≢ (normalize_ad_slot_key (s ++ d ∷ t)).value)
unfolding normalize_ad_slot_key
ad_slot_key-one_change s t c d hc hd bytes differs =
    (hash_from-lt (s ++ c ∷ t) 2166136261 (omega arith), apart)
  where
    before : ℕ
    before = hash_from 2166136261 s

    small : before < 2 ^ 32
    small = hash_from-lt s 2166136261 (omega arith)

    apart : hash_from 2166136261 (s ++ c ∷ t) ≢ hash_from 2166136261 (s ++ d ∷ t)
    apart e = differs (
        hash_step-character before c d small hc hd (
          hash_from-value t (hash_step before c) (hash_step before d) bytes (hash_step-lt before c)
            (hash_step-lt before d)
            (sym (hash_from-append 2166136261 s (c ∷ t))
              ∙ e
              ∙ hash_from-append 2166136261 s (d ∷ t))))
