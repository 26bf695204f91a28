-- ===== src/Store/Creatives.antt =====
-- `parse_creative_specs` of src/campaign_store.cc: what it pushes, also when it fails.
use rtb_engine.Base.{
  ℕ, ◌+◌, ◌%◌, ◌^◌, ◌≤◌, ◌<◌, ◌≡◌, refl, sym, ◌∙◌, inl, inr, Bool, true, false, not, List, [], ◌∷◌,
  ◌++◌, arith, ◌==◌, length, is_empty, All, Bool-cases, Option-cases,
}
use mathlib.Core.List.{append-nil, append_assoc}
use rtb_engine.Types.{AdSlotKey, CreativeRecord}
use rtb_engine.Numbers.{parse_u64}
use rtb_engine.Store.{Specs, push_creatives}

-- New creatives at the end, all for one ad slot, and counted.
pub record Grown (key : AdSlotKey) (tokens : List (List ℕ)) (before : List CreativeRecord)
    (count : ℕ) (after : Specs) : Type 0 where
  pub more : List CreativeRecord
  pub shape : after.creatives ≡ before ++ more
  pub counted : after.creative_count ≡ count + length more
  pub slot : All (λ (r : CreativeRecord). r.ad_slot_key.value ≡ key.value) more
  pub few : length more ≤ length tokens
  pub success : after.parsed ≡ true → 0 < after.creative_count

module _ (key : AdSlotKey) where
  push_none :
      (tokens : List (List ℕ)) (before : List CreativeRecord) (count : ℕ) (parsed : Bool)
      → (parsed ≡ true → 0 < count)
      → Grown key tokens before count
          (record { parsed = parsed; creatives = before; creative_count = count })
  push_none tokens before count parsed h = record {
    more = [];
    shape = sym (append-nil before);
    counted = omega arith;
    slot = tt;
    few = omega arith;
    success = h;
  }

  Grown-skip :
      (token : List ℕ) (tokens : List (List ℕ)) (before : List CreativeRecord) (count : ℕ)
      (after : Specs)
      → Grown key tokens before count after
      → Grown key (token ∷ tokens) before count after
  Grown-skip token tokens before count after g = record {
    more = g.more;
    shape = g.shape;
    counted = g.counted;
    slot = g.slot;
    few = omega (arith, g.few);
    success = g.success;
  }

  abbrev new_creative : ℕ → CreativeRecord
  new_creative id = record { creative_id = id; ad_slot_key = key }

  Grown-push :
      (token : List ℕ) (tokens : List (List ℕ)) (before : List CreativeRecord) (count id : ℕ)
      (after : Specs)
      → count + 1 < 2 ^ 32
      → Grown key tokens (before ++ new_creative id ∷ []) ((count + 1) % 2 ^ 32) after
      → Grown key (token ∷ tokens) before count after
  Grown-push token tokens before count id after small g = record {
    more = new_creative id ∷ g.more;
    shape = g.shape ∙ append_assoc before (new_creative id ∷ []) g.more;
    counted = omega (arith, g.counted);
    slot = (refl, g.slot);
    few = omega (arith, g.few);
    success = g.success;
  }

  pub push_creatives-Grown :
      (tokens : List (List ℕ)) (before : List CreativeRecord) (count : ℕ)
      → count + length tokens < 2 ^ 32
      → Grown key tokens before count (push_creatives key tokens before count)
  unfolding push_creatives
  push_creatives-Grown [] before count small =
      push_none [] before count (not (count == 0)) (λ h. ground arith)
  push_creatives-Grown (token ∷ tokens) before count small = elim (Bool-cases (is_empty token)) [
    | inl blank ↦ rw blank (
        Grown-skip token tokens before count _
          (push_creatives-Grown tokens before count (omega arith)))
    | inr given ↦ elim (Option-cases (parse_u64 token)) [
      | inl bad ↦ rw (given, bad) (push_none (token ∷ tokens) before count false (λ h. cc))
      | inr (id, good) ↦
          rw (given, good)
            (Grown-push token tokens before count id _ (omega arith) (
              push_creatives-Grown tokens (before ++ new_creative id ∷ []) ((count + 1) % 2 ^ 32)
                (omega arith)))
    ]
  ]
