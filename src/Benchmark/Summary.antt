-- ===== src/Benchmark/Summary.antt =====
-- The summary of a phase (src/benchmark.cc): where its smallest and largest value and its
-- percentiles come from, and their order.
use rtb_engine.Base.{
  ℕ, suc, ◌-◌, ◌^◌, ◌≤◌, ◌<◌, ◌≡◌, refl, sym, ap, subst, true, List, [], ◌∷◌, arith, map, min, max,
  length, get_or, All, All-Listed, Listed, Listed-All,
}
use native.Mathlib.Decide.{dec_lt}
use rtb_engine.Double.{Double, IsIeee, ◌≼◌, zero_double, one_double}
use rtb_engine.Benchmark.{
  RequestTimingBreakdown, BenchmarkPhaseSummary, Statistics, sort, min_from, max_from,
  percentile_index, percentile_value, summarize_phase,
}
use rtb_engine.Benchmark.Sorted.{sort-IsSorted, length-sort, All-sort, get_or-All, get_or-IsSorted}

-- What the conversion to `size_t` and the literals of hundredths satisfy.
pub record Truncates {F : Type 0} ⦃d : Double F⦄ (laws : IsIeee F) (s : Statistics F) : Type 0 where
  pub truncate_mono :
      (x y : F)
      → IsIeee.is_finite laws x ≡ true
      → IsIeee.is_finite laws y ≡ true
      → x ≼ y
      → Statistics.truncate s x ≤ Statistics.truncate s y
  pub truncate-of_u64 : (n : ℕ) → n < 2 ^ 53 → Statistics.truncate s (d.of_u64 n) ≡ n
  pub hundredths_finite : (h : ℕ) → h ≤ 100 → IsIeee.is_finite laws (d.decimal h 2) ≡ true
  pub hundredths_mono : (h k : ℕ) → h ≤ k → k ≤ 100 → d.decimal h 2 ≼ d.decimal k 2
  pub hundredths_le_one : (h : ℕ) → h ≤ 100 → d.decimal h 2 ≼ one_double F
  pub zero_le-hundredths : (h : ℕ) → zero_double F ≼ d.decimal h 2

pub length-map : {A : Type 0} (f : A → ℕ) (xs : List A) → length (map f xs) ≡ length xs
length-map f [] = refl
length-map f (x ∷ xs) = ap suc (length-map f xs)

min_from-le : (m : ℕ) (xs : List ℕ) → (min_from m xs ≤ m) × All (λ x. min_from m xs ≤ x) xs
unfolding min_from
min_from-le m [] = (omega arith, tt)
min_from-le m (x ∷ xs) =
    let r = min_from-le (min m x) xs in (omega (arith, r.0), (omega (arith, r.0), r.1))

max_from-ge : (m : ℕ) (xs : List ℕ) → (m ≤ max_from m xs) × All (λ x. x ≤ max_from m xs) xs
unfolding max_from
max_from-ge m [] = (omega arith, tt)
max_from-ge m (x ∷ xs) =
    let r = max_from-ge (max m x) xs in (omega (arith, r.0), (omega (arith, r.0), r.1))

min_either : (P : ℕ → Type 0) (a b : ℕ) → P a → P b → P (min a b)
min_either P a b p q = elim (dec_lt a b) [
  | yes h ↦ subst P (omega arith) p
  | no h ↦ subst P (omega arith) q
]

max_either : (P : ℕ → Type 0) (a b : ℕ) → P a → P b → P (max a b)
max_either P a b p q = elim (dec_lt a b) [
  | yes h ↦ subst P (omega arith) q
  | no h ↦ subst P (omega arith) p
]

-- A property of all values is one of the smallest and of the largest.
min_from-All : (P : ℕ → Type 0) (m : ℕ) (xs : List ℕ) → P m → All P xs → P (min_from m xs)
unfolding min_from
min_from-All P m [] p a = p
min_from-All P m (x ∷ xs) p a = min_from-All P (min m x) xs (min_either P m x p a.0) a.1

max_from-All : (P : ℕ → Type 0) (m : ℕ) (xs : List ℕ) → P m → All P xs → P (max_from m xs)
unfolding max_from
max_from-All P m [] p a = p
max_from-All P m (x ∷ xs) p a = max_from-All P (max m x) xs (max_either P m x p a.0) a.1

module _ {F : Type 0} ⦃d : Double F⦄ (laws : IsIeee F) (s : Statistics F)
    (t : Truncates laws s) where
  open laws use {is_finite}

  -- The position of a percentile before it is truncated.
  abbrev exact : ℕ → ℕ → F
  exact h last = d.mul (d.decimal h 2) (d.of_u64 last)

  exact_le : (h last : ℕ) → h ≤ 100 → last < 2 ^ 53 → exact h last ≼ d.of_u64 last
  exact_le h last small few =
      laws.le_trans _ _ _
        (laws.mul_mono (d.decimal h 2) (one_double F) (d.of_u64 last) (t.hundredths_finite h small)
          laws.one_finite (laws.of_u64_finite last (omega arith))
          (laws.zero_le-of_u64 last (omega arith)) (t.hundredths_le_one h small))
        (laws.one-mul (d.of_u64 last) (laws.of_u64_finite last (omega arith)))

  exact_finite : (h last : ℕ) → h ≤ 100 → last < 2 ^ 53 → is_finite (exact h last) ≡ true
  exact_finite h last small few =
      laws.finite_between (zero_double F) (exact h last) (d.of_u64 last) laws.zero_finite
        (laws.of_u64_finite last (omega arith))
        (laws.mul_nonneg _ _ (t.hundredths_finite h small) (laws.of_u64_finite last (omega arith))
          (t.zero_le-hundredths h) (laws.zero_le-of_u64 last (omega arith)))
        (exact_le h last small few)

  index_le : (h last : ℕ) → h ≤ 100 → last < 2 ^ 53 → percentile_index s h last ≤ last
  index_le h last small few = omega (
    arith,
    t.truncate_mono (exact h last) (d.of_u64 last) (exact_finite h last small few)
        (laws.of_u64_finite last (omega arith)) (exact_le h last small few),
    t.truncate-of_u64 last few,
  )

  index_mono :
      (h k last : ℕ)
      → h ≤ k
      → k ≤ 100
      → last < 2 ^ 53
      → percentile_index s h last ≤ percentile_index s k last
  index_mono h k last le small few =
      t.truncate_mono (exact h last) (exact k last) (exact_finite h last (omega arith) few)
        (exact_finite k last small few)
        (laws.mul_mono _ _ _ (t.hundredths_finite h (omega arith)) (t.hundredths_finite k small)
          (laws.of_u64_finite last (omega arith)) (laws.zero_le-of_u64 last (omega arith))
          (t.hundredths_mono h k le small))

  module _ (value : ℕ) (more : List ℕ) (few : length more < 2 ^ 53) where
    abbrev values : List ℕ
    values = value ∷ more

    percentile_value_lem :
        (h : ℕ)
        → percentile_value s values h ≡ get_or (sort values) (percentile_index s h (length more)) 0
    unfolding percentile_value
    percentile_value_lem h =
        ap (λ n. get_or (sort values) (percentile_index s h n) 0)
          (let e : suc (length more) - 1 ≡ length more = omega arith in e)

    percentile_mono :
        (h k : ℕ) → h ≤ k → k ≤ 100 → percentile_value s values h ≤ percentile_value s values k
    percentile_mono h k le small = omega (
      arith,
      percentile_value_lem h,
      percentile_value_lem k,
      get_or-IsSorted (sort values) (percentile_index s h (length more))
          (percentile_index s k (length more)) 0 (sort-IsSorted values)
          (index_mono h k (length more) le small few)
          (omega (arith, index_le k (length more) small few, length-sort values)),
    )

    percentile-All :
        (P : ℕ → Type 0) (h : ℕ) → h ≤ 100 → All P values → P (percentile_value s values h)
    percentile-All P h small a = subst P (sym (percentile_value_lem h)) (
        get_or-All P (sort values) (percentile_index s h (length more)) 0
          (omega (arith, index_le h (length more) small few, length-sort values))
          (All-sort P values a))

  -- The figures of a phase are values of it, in this order, and bound all its values.
  pub record Summarizes (values : List ℕ) (p : BenchmarkPhaseSummary F) : Type 0 where
    pub counted : p.count ≡ length values
    pub min_listed : Listed p.min_ns values
    pub max_listed : Listed p.max_ns values
    pub p50_listed : Listed p.p50_ns values
    pub p95_listed : Listed p.p95_ns values
    pub p99_listed : Listed p.p99_ns values
    pub bounded : All (λ v. (p.min_ns ≤ v) × (v ≤ p.max_ns)) values
    pub ordered :
        (p.min_ns ≤ p.p50_ns)
        × (p.p50_ns ≤ p.p95_ns)
        × (p.p95_ns ≤ p.p99_ns)
        × (p.p99_ns ≤ p.max_ns)

  -- For a `double` with the laws of `IsIeee` and a conversion with those of `Truncates`, and for
  -- at least one and at most 2 ^ 53 requests, the summary counts them; its minimum, maximum and
  -- percentiles are times of the phase; the minimum and the maximum bound all of them; and the
  -- figures are in the order minimum, median, 95th and 99th percentile, maximum.
  pub summarize_phase-Summarizes :
      (request : RequestTimingBreakdown) (requests : List RequestTimingBreakdown)
      (accessor : RequestTimingBreakdown → ℕ)
      → length requests < 2 ^ 53
      → Summarizes
          (map accessor (request ∷ requests))
          (summarize_phase s (request ∷ requests) accessor)
  unfolding summarize_phase
  summarize_phase-Summarizes request requests accessor few = record {
    counted = refl;
    min_listed = min_from-All Here v vs own.0 own;
    max_listed = max_from-All Here v vs own.0 own;
    p50_listed = percentile-All v more less Here 50 (omega arith) own;
    p95_listed = percentile-All v more less Here 95 (omega arith) own;
    p99_listed = percentile-All v more less Here 99 (omega arith) own;
    bounded = All-Listed _ vs (λ x l. (
      Listed-All (λ y. min_from v vs ≤ y) vs x (min_from-le v vs).1 l,
      Listed-All (λ y. y ≤ max_from v vs) vs x (max_from-ge v vs).1 l,
    ));
    ordered = (
      percentile-All v more less (λ y. min_from v vs ≤ y) 50 (omega arith) (min_from-le v vs).1,
      percentile_mono v more less 50 95 (omega arith) (omega arith),
      percentile_mono v more less 95 99 (omega arith) (omega arith),
      percentile-All v more less (λ y. y ≤ max_from v vs) 99 (omega arith) (max_from-ge v vs).1,
    );
  }
    where
      v : ℕ
      v = accessor request

      more : List ℕ
      more = map accessor requests

      vs : List ℕ
      vs = v ∷ more

      Here : ℕ → Type 0
      Here x = Listed x vs

      own : All Here vs
      own = All-Listed Here vs (λ x l. l)

      less : length more < 2 ^ 53
      less = omega (arith, length-map accessor requests)
