-- ===== src/Worker/Connections.antt =====
-- The connection map of a worker (src/worker_runtime.cc): its operations, and what holds of all
-- connections between two events.
use rtb_engine.Base.{
  ℕ, ◌≡◌, refl, sym, ap, ◌∙◌, subst, inl, inr, Bool, true, false, not, ◌&&◌, ◌||◌, [], ◌∷◌, ◌++◌,
  none, some, arith, ◌==◌, All, Bool-cases, Option-cases, All-append,
}
use native.Mathlib.Decide.{ℕ_discrete}
use rtb_engine.Worker.{ConnectionState, ConnectionMap, erase, find, assign, emplace}

-- Whether the map has an entry for a descriptor.
abbrev pub has : ℕ → ConnectionMap → Bool
has fd [] = false
has fd ((key, connection) ∷ m) = (key == fd) || has fd m

-- At most one entry for each descriptor.
abbrev pub IsDistinct : ConnectionMap → Type 0
IsDistinct [] = Unit
IsDistinct ((key, connection) ∷ m) = (has key m ≡ false) × IsDistinct m

pub has-erase : (k fd : ℕ) (m : ConnectionMap) → has k (erase fd m) ≡ (has k m && not (fd == k))
unfolding erase
has-erase k fd [] = refl
has-erase k fd ((key, c) ∷ m) = ground (arith, has-erase k fd m)

pub has-assign :
    (k fd : ℕ) (c : ConnectionState) (m : ConnectionMap) → has k (assign fd c m) ≡ has k m
unfolding assign
has-assign k fd c [] = refl
has-assign k fd c ((key, old) ∷ m) = ground (arith, has-assign k fd c m)

has-append :
    (k fd : ℕ) (c : ConnectionState) (m : ConnectionMap)
    → has k (m ++ (fd, c) ∷ []) ≡ (has k m || (fd == k))
has-append k fd c [] = ground arith
has-append k fd c ((key, old) ∷ m) = ground (arith, has-append k fd c m)

find-has : (fd : ℕ) (m : ConnectionMap) → find fd m ≡ none → has fd m ≡ false
unfolding find
find-has fd [] h = refl
find-has fd ((key, c) ∷ m) h = ground (arith, find-has fd m)

found_entry :
    (fd : ℕ) (m : ConnectionMap) (c : ConnectionState) → find fd m ≡ some c → has fd m ≡ true
unfolding find
found_entry fd [] c h = ground arith
found_entry fd ((key, old) ∷ m) c h = ground (arith, found_entry fd m c)

pub has-emplace :
    (k fd : ℕ) (c : ConnectionState) (m : ConnectionMap)
    → has k (emplace fd c m) ≡ (has k m || (fd == k))
unfolding emplace
has-emplace k fd c m = elim (Option-cases (find fd m)) [
  | inl e ↦ rw (e, emplace) (has-append k fd c m)
  | inr (old, e) ↦
      rw (e, emplace)
        (elim (ℕ_discrete fd k) [
          | yes same ↦
              let found = subst (λ (j : ℕ). has j m ≡ true) same (found_entry fd m old e) in
              ground (arith, found)
          | no other ↦ ground arith
        ])
]

pub erase-IsDistinct : (fd : ℕ) (m : ConnectionMap) → IsDistinct m → IsDistinct (erase fd m)
unfolding erase
erase-IsDistinct fd [] h = tt
erase-IsDistinct fd ((key, c) ∷ m) h = elim (Bool-cases (key == fd)) [
  | inl e ↦ rw e (erase-IsDistinct fd m h.1)
  | inr e ↦ rw e (ground (arith, has-erase key fd m, h.0), erase-IsDistinct fd m h.1)
]

pub assign-IsDistinct :
    (fd : ℕ) (c : ConnectionState) (m : ConnectionMap) → IsDistinct m → IsDistinct (assign fd c m)
unfolding assign
assign-IsDistinct fd c [] h = tt
assign-IsDistinct fd c ((key, old) ∷ m) h = elim (Bool-cases (key == fd)) [
  | inl e ↦ rw e (has-assign key fd c m ∙ h.0, assign-IsDistinct fd c m h.1)
  | inr e ↦ rw e (has-assign key fd c m ∙ h.0, assign-IsDistinct fd c m h.1)
]

append-IsDistinct :
    (fd : ℕ) (c : ConnectionState) (m : ConnectionMap)
    → has fd m ≡ false
    → IsDistinct m
    → IsDistinct (m ++ (fd, c) ∷ [])
append-IsDistinct fd c [] h k = (refl, tt)
append-IsDistinct fd c ((key, old) ∷ m) h k =
    (ground (arith, has-append key fd c m, k.0), append-IsDistinct fd c m (ground (arith, h)) k.1)

pub emplace-IsDistinct :
    (fd : ℕ) (c : ConnectionState) (m : ConnectionMap) → IsDistinct m → IsDistinct (emplace fd c m)
unfolding emplace
emplace-IsDistinct fd c m h = elim (Option-cases (find fd m)) [
  | inl e ↦ rw (e, emplace) (append-IsDistinct fd c m (find-has fd m e) h)
  | inr (old, e) ↦ rw (e, emplace) h
]

same_key : (key fd : ℕ) → (key == fd) ≡ true → key ≡ fd
same_key key fd h = ground arith

-- What holds of every entry.
module _ (P : ℕ × ConnectionState → Type 0) where
  pub erase-All : (fd : ℕ) (m : ConnectionMap) → All P m → All P (erase fd m)
  unfolding erase
  erase-All fd [] h = tt
  erase-All fd ((key, c) ∷ m) h = elim (Bool-cases (key == fd)) [
    | inl e ↦ rw e (erase-All fd m h.1)
    | inr e ↦ rw e (h.0, erase-All fd m h.1)
  ]

  pub assign-All :
      (fd : ℕ) (c : ConnectionState) (m : ConnectionMap)
      → P (fd, c)
      → All P m
      → All P (assign fd c m)
  unfolding assign
  assign-All fd c [] p h = tt
  assign-All fd c ((key, old) ∷ m) p h = elim (Bool-cases (key == fd)) [
    | inl e ↦
        rw e (subst (λ (k : ℕ). P (k, c)) (sym (same_key key fd e)) p, assign-All fd c m p h.1)
    | inr e ↦ rw e (h.0, assign-All fd c m p h.1)
  ]

  pub emplace-All :
      (fd : ℕ) (c : ConnectionState) (m : ConnectionMap)
      → P (fd, c)
      → All P m
      → All P (emplace fd c m)
  unfolding emplace
  emplace-All fd c m p h = elim (Option-cases (find fd m)) [
    | inl e ↦ rw (e, emplace) (All-append P m ((fd, c) ∷ []) h (p, tt))
    | inr (old, e) ↦ rw (e, emplace) h
  ]

  pub find-All :
      (fd : ℕ) (c : ConnectionState) (m : ConnectionMap) → All P m → find fd m ≡ some c → P (fd, c)
  unfolding find
  find-All fd c [] h e = ground arith
  find-All fd c ((key, old) ∷ m) h e = elim (Bool-cases (key == fd)) [
    | inl same ↦
        let path : old ≡ c = ground (arith, e, same) in
        subst (λ (k : ℕ). P (k, c)) (same_key key fd same)
          (subst (λ (x : ConnectionState). P (key, x)) path h.0)
    | inr other ↦ find-All fd c m h.1 (ground (arith, e, other))
  ]

pub erase-assign :
    (fd : ℕ) (c : ConnectionState) (m : ConnectionMap) → erase fd (assign fd c m) ≡ erase fd m
unfolding erase assign
erase-assign fd c [] = refl
erase-assign fd c ((key, old) ∷ m) = elim (Bool-cases (key == fd)) [
  | inl e ↦ rw (e, e) (erase-assign fd c m)
  | inr e ↦ rw (e, e) (ap (λ r. (key, old) ∷ r) (erase-assign fd c m))
]
