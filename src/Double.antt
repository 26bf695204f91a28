-- ===== src/Double.antt =====
-- The operations of `double` that the program uses. The type is a parameter, with the IEEE 754
-- facts that the proofs rely on as a record of laws.
pub mod Fixed
use rtb_engine.Base.{ℕ, ◌^◌, ◌≤◌, ◌<◌, ◌≡◌, ◌⊎◌, Bool, true, false, List, Option}

-- `decimal m k` is the literal m / 10 ^ k; `parse` is what a `stringstream` reads from a text that
-- it uses up.
pub record Double (F : Type 0) : Type 0 where
  pub of_u64 : ℕ → F
  pub decimal : ℕ → ℕ → F
  pub neg_infinity : F
  pub add : F → F → F
  pub sub : F → F → F
  pub mul : F → F → F
  pub div : F → F → F
  pub le : F → F → Bool
  pub parse : List ℕ → Option F

infix 4 ◌≼◌
abbrev pub ◌≼◌ : {F : Type 0} ⦃d : Double F⦄ → F → F → Type 0
◌≼◌ ⦃d⦄ x y = d.le x y ≡ true

module _ (F : Type 0) ⦃d : Double F⦄ where
  abbrev pub zero_double : F
  zero_double = d.decimal 0 0

  abbrev pub one_double : F
  one_double = d.decimal 1 0

-- config.h
module _ (F : Type 0) ⦃d : Double F⦄ where
  abbrev pub min_bid_price : F
  min_bid_price = d.decimal 5 2

  abbrev pub max_bid_price : F
  max_bid_price = d.decimal 500 2

  -- The factor that takes 53 bits to the unit interval.
  abbrev pub unit_scale : F
  unit_scale = d.div (one_double F) (d.of_u64 (2 ^ 53))

  -- The width of the price range.
  abbrev pub price_width : F
  price_width = d.sub max_bid_price min_bid_price

-- A value is finite if it is neither infinite nor NaN.
pub record IsIeee (F : Type 0) ⦃d : Double F⦄ : Type 0 where
  pub is_finite : F → Bool
  pub le_trans : (x y z : F) → x ≼ y → y ≼ z → x ≼ z
  pub le_total : (x y : F) → is_finite x ≡ true → is_finite y ≡ true → (x ≼ y) ⊎ (y ≼ x)
  pub neg_infinity_lt : (x : F) → is_finite x ≡ true → d.le x d.neg_infinity ≡ false
  pub neg_infinity_le : (x : F) → is_finite x ≡ true → d.neg_infinity ≼ x
  pub finite_between :
      (x y z : F) → is_finite x ≡ true → is_finite z ≡ true → x ≼ y → y ≼ z → is_finite y ≡ true
  pub of_u64_finite : (n : ℕ) → n < 2 ^ 64 → is_finite (d.of_u64 n) ≡ true
  pub of_u64_mono : (m n : ℕ) → m ≤ n → n < 2 ^ 64 → d.of_u64 m ≼ d.of_u64 n
  pub zero_le-of_u64 : (n : ℕ) → n < 2 ^ 64 → zero_double F ≼ d.of_u64 n
  pub mul_mono :
      (x y z : F)
      → is_finite x ≡ true
      → is_finite y ≡ true
      → is_finite z ≡ true
      → zero_double F ≼ z
      → x ≼ y
      → d.mul x z ≼ d.mul y z
  pub mul_nonneg :
      (x y : F)
      → is_finite x ≡ true
      → is_finite y ≡ true
      → zero_double F ≼ x
      → zero_double F ≼ y
      → zero_double F ≼ d.mul x y
  pub one-mul : (x : F) → is_finite x ≡ true → d.mul (one_double F) x ≼ x
  pub add_mono : (x y z : F) → is_finite x ≡ true → y ≼ z → d.add x y ≼ d.add x z
  pub add-zero : (x : F) → is_finite x ≡ true → x ≼ d.add x (zero_double F)
  -- The constants of config.h and of the generator.
  pub zero_finite : is_finite (zero_double F) ≡ true
  pub one_finite : is_finite (one_double F) ≡ true
  pub min_price_finite : is_finite (min_bid_price F) ≡ true
  pub max_price_finite : is_finite (max_bid_price F) ≡ true
  pub width_finite : is_finite (price_width F) ≡ true
  pub zero_le-width : zero_double F ≼ price_width F
  pub min_add-width : d.add (min_bid_price F) (price_width F) ≼ max_bid_price F
  pub scale_finite : is_finite (unit_scale F) ≡ true
  pub zero_le-scale : zero_double F ≼ unit_scale F
  pub full_scale : d.mul (d.of_u64 (2 ^ 53)) (unit_scale F) ≼ one_double F
