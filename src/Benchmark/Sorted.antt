-- ===== src/Benchmark/Sorted.antt =====
-- The order of sorted values, for the percentiles of src/benchmark.cc.
use rtb_engine.Base.{
  ℕ, zero, suc, ◌≤◌, ◌<◌, ◌≡◌, inl, inr, refl, ap, ◌∙◌, List, [], ◌∷◌, arith, leb, length, get_or,
  All, Bool-cases,
}
use rtb_engine.Benchmark.{insert, sort}

-- Every value is at most the values behind it.
abbrev pub IsSorted : List ℕ → Type 0
IsSorted [] = Unit
IsSorted (x ∷ xs) = All (λ y. x ≤ y) xs × IsSorted xs

All-insert : (P : ℕ → Type 0) (x : ℕ) (ys : List ℕ) → P x → All P ys → All P (insert x ys)
unfolding insert
All-insert P x [] p h = (p, tt)
All-insert P x (y ∷ ys) p h = elim (Bool-cases (leb x y)) [
  | inl e ↦ rw e (p, h)
  | inr e ↦ rw e (h.0, All-insert P x ys p h.1)
]

All-le-below : (x y : ℕ) (ys : List ℕ) → x ≤ y → All (λ z. y ≤ z) ys → All (λ z. x ≤ z) ys
All-le-below x y [] h a = tt
All-le-below x y (z ∷ ys) h a = (omega (arith, a.0), All-le-below x y ys h a.1)

insert-IsSorted : (x : ℕ) (ys : List ℕ) → IsSorted ys → IsSorted (insert x ys)
unfolding insert
insert-IsSorted x [] s = (tt, tt)
insert-IsSorted x (y ∷ ys) s = elim (Bool-cases (leb x y)) [
  | inl e ↦ let h : x ≤ y = ground arith in rw e ((h, All-le-below x y ys h s.0), s)
  | inr e ↦
      let h : y ≤ x = ground arith in
      rw e (All-insert (λ z. y ≤ z) x ys h s.0, insert-IsSorted x ys s.1)
]

pub sort-IsSorted : (xs : List ℕ) → IsSorted (sort xs)
unfolding sort
sort-IsSorted [] = tt
sort-IsSorted (x ∷ xs) = insert-IsSorted x (sort xs) (sort-IsSorted xs)

length-insert : (x : ℕ) (ys : List ℕ) → length (insert x ys) ≡ suc (length ys)
unfolding insert
length-insert x [] = refl
length-insert x (y ∷ ys) = ground (arith, length-insert x ys)

pub length-sort : (xs : List ℕ) → length (sort xs) ≡ length xs
unfolding sort
length-sort [] = refl
length-sort (x ∷ xs) = length-insert x (sort xs) ∙ ap suc (length-sort xs)

pub All-sort : (P : ℕ → Type 0) (xs : List ℕ) → All P xs → All P (sort xs)
unfolding sort
All-sort P [] h = tt
All-sort P (x ∷ xs) h = All-insert P x (sort xs) h.0 (All-sort P xs h.1)

pub get_or-All :
    (P : ℕ → Type 0) (xs : List ℕ) (i d : ℕ) → i < length xs → All P xs → P (get_or xs i d)
get_or-All P [] i d h a = absurd (omega arith)
get_or-All P (x ∷ xs) zero d h a = a.0
get_or-All P (x ∷ xs) (suc i) d h a = get_or-All P xs i d (omega arith) a.1

-- Values further back are no smaller.
pub get_or-IsSorted :
    (xs : List ℕ) (i j d : ℕ) → IsSorted xs → i ≤ j → j < length xs → get_or xs i d ≤ get_or xs j d
get_or-IsSorted [] i j d s h k = absurd (omega arith)
get_or-IsSorted (x ∷ xs) zero zero d s h k = omega arith
get_or-IsSorted (x ∷ xs) zero (suc j) d s h k = get_or-All (λ y. x ≤ y) xs j d (omega arith) s.0
get_or-IsSorted (x ∷ xs) (suc i) zero d s h k = absurd (omega arith)
get_or-IsSorted (x ∷ xs) (suc i) (suc j) d s h k =
    get_or-IsSorted xs i j d s.1 (omega arith) (omega arith)
