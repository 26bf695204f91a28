-- ===== src/Decision/Price.antt =====
-- The price of an offer (`generate_bid_price` of src/decision.cc) and its range.
use rtb_engine.Base.{ℕ, ◌/◌, ◌^◌, ◌<◌, ◌≡◌, true, arith}
use rtb_engine.Double.{
  Double, IsIeee, ◌≼◌, zero_double, one_double, min_bid_price, max_bid_price, unit_scale,
  price_width,
}
use rtb_engine.Rng.{WorkerRng, next_u64, next_unit_double}
use rtb_engine.Rng.Range.{IsValid, next_u64_lem}
use rtb_engine.Decision.{generate_bid_price}

module _ {F : Type 0} ⦃d : Double F⦄ (laws : IsIeee F) where
  open laws use {is_finite}

  -- Between 0 and 1, both included.
  record IsUnit (u : F) : Type 0 where
    finite : is_finite u ≡ true
    low : zero_double F ≼ u
    high : u ≼ one_double F

  mul-IsUnit : (k : ℕ) → k < 2 ^ 53 → IsUnit (d.mul (d.of_u64 k) (unit_scale F))
  mul-IsUnit k h = record {
    finite = laws.finite_between _ _ _ laws.zero_finite laws.one_finite low high;
    low = low;
    high = high;
  }
    where
      k_finite : is_finite (d.of_u64 k) ≡ true
      k_finite = laws.of_u64_finite k (omega arith)

      low : zero_double F ≼ d.mul (d.of_u64 k) (unit_scale F)
      low =
          laws.mul_nonneg _ _ k_finite laws.scale_finite (laws.zero_le-of_u64 k (omega arith))
            laws.zero_le-scale

      high : d.mul (d.of_u64 k) (unit_scale F) ≼ one_double F
      high =
          laws.le_trans _ _ _
            (laws.mul_mono _ _ _ k_finite (laws.of_u64_finite (2 ^ 53) (omega arith))
              laws.scale_finite laws.zero_le-scale
              (laws.of_u64_mono k (2 ^ 53) (omega arith) (omega arith)))
            laws.full_scale

  next_unit_double-IsUnit : (rng : WorkerRng) → IsValid rng → IsUnit (next_unit_double rng).0
  unfolding next_unit_double
  next_unit_double-IsUnit rng v =
      mul-IsUnit ((next_u64 rng).0 / 2 ^ 11) (omega (arith, next_u64_lem rng v))

  -- A price that may be bid.
  pub record InRange (p : F) : Type 0 where
    pub finite : is_finite p ≡ true
    pub low : min_bid_price F ≼ p
    pub high : p ≼ max_bid_price F

  price-InRange : (u : F) → IsUnit u → InRange (d.add (min_bid_price F) (d.mul u (price_width F)))
  price-InRange u b = record {
    finite = laws.finite_between _ _ _ laws.min_price_finite laws.max_price_finite low high;
    low = low;
    high = high;
  }
    where
      low : min_bid_price F ≼ d.add (min_bid_price F) (d.mul u (price_width F))
      low = laws.le_trans _ _ _ (laws.add-zero _ laws.min_price_finite) (
          laws.add_mono _ _ _ laws.min_price_finite
            (laws.mul_nonneg _ _ b.finite laws.width_finite b.low laws.zero_le-width))

      scaled : d.mul u (price_width F) ≼ price_width F
      scaled =
          laws.le_trans _ _ _
            (laws.mul_mono _ _ _ b.finite laws.one_finite laws.width_finite laws.zero_le-width
              b.high)
            (laws.one-mul _ laws.width_finite)

      high : d.add (min_bid_price F) (d.mul u (price_width F)) ≼ max_bid_price F
      high =
          laws.le_trans _ _ _ (laws.add_mono _ _ _ laws.min_price_finite scaled) laws.min_add-width

  -- For a `double` with the laws of `IsIeee`, the price drawn from a valid generator is at least
  -- the smallest and at most the largest bid price, and the generator stays valid.
  pub generate_bid_price-InRange :
      (rng : WorkerRng)
      → IsValid rng
      → InRange (generate_bid_price rng).0 × IsValid (generate_bid_price {F = F} rng).1
  unfolding generate_bid_price next_unit_double
  generate_bid_price-InRange rng v =
      (price-InRange _ (next_unit_double-IsUnit rng v), (next_u64_lem rng v).2)
