-- ===== src/Double/Fixed.antt =====
-- A concrete type that meets the laws of `Double`: fixed-point numbers with minus infinity, counted
-- in 1 / (100 * 2 ^ 53), which is fine enough for the cents and for the 53-bit unit interval.
use rtb_engine.Base.{
  ℕ, ◌+◌, ◌-◌, ◌*◌, ◌/◌, ◌^◌, ◌≤◌, ◌≡◌, ◌⊎◌, refl, inl, Bool, true, false, Option, none, some,
  arith, leb,
}
use native.Mathlib.Nat.{mul-le-mul_right}
use rtb_engine.Numbers.{parse_u64}
use rtb_engine.Double.{Double, IsIeee}

pub data Fixed : Type 0 where
  below_all : Fixed
  units : ℕ → Fixed

abbrev pub units_per_one : ℕ
units_per_one = 100 * 2 ^ 53

abbrev add : Fixed → Fixed → Fixed
add (units a) (units b) = units (a + b)
add (units a) below_all = below_all
add below_all y = below_all

abbrev sub : Fixed → Fixed → Fixed
sub (units a) (units b) = units (a - b)
sub (units a) below_all = units a
sub below_all y = below_all

abbrev mul : Fixed → Fixed → Fixed
mul (units a) (units b) = units (a * b / units_per_one)
mul (units a) below_all = below_all
mul below_all y = below_all

abbrev div : Fixed → Fixed → Fixed
div (units a) (units b) = units (a * units_per_one / b)
div (units a) below_all = units 0
div below_all y = below_all

abbrev le : Fixed → Fixed → Bool
le (units a) (units b) = leb a b
le (units a) below_all = false
le below_all y = true

abbrev parse_whole : Option ℕ → Option Fixed
parse_whole none = none
parse_whole (some n) = some (units (n * units_per_one))

instance abbrev pub fixed_double : Double Fixed
fixed_double = record {
  of_u64 = λ n. units (n * units_per_one);
  decimal = λ m k. units (m * units_per_one / 10 ^ k);
  neg_infinity = below_all;
  add = add;
  sub = sub;
  mul = mul;
  div = div;
  le = le;
  parse = λ text. parse_whole (parse_u64 text);
}

abbrev is_finite : Fixed → Bool
is_finite (units a) = true
is_finite below_all = false

le_trans : (x y z : Fixed) → le x y ≡ true → le y z ≡ true → le x z ≡ true
le_trans (units a) (units b) (units c) h k = ground arith
le_trans (units a) (units b) below_all h k = cc
le_trans (units a) below_all z h k = cc
le_trans below_all y z h k = refl

le_total :
    (x y : Fixed) → is_finite x ≡ true → is_finite y ≡ true → (le x y ≡ true) ⊎ (le y x ≡ true)
le_total (units a) (units b) h k = ground arith
le_total (units a) below_all h k = cc
le_total below_all y h k = inl refl

below_lt : (x : Fixed) → is_finite x ≡ true → le x below_all ≡ false
below_lt (units a) h = refl
below_lt below_all h = cc

finite_between :
    (x y z : Fixed)
    → is_finite x ≡ true
    → is_finite z ≡ true
    → le x y ≡ true
    → le y z ≡ true
    → is_finite y ≡ true
finite_between (units a) (units b) z h k l m = refl
finite_between (units a) below_all z h k l m = cc
finite_between below_all y z h k l m = cc

leb_of_le : (a b : ℕ) → a ≤ b → leb a b ≡ true
leb_of_le a b h = ground arith

le_of_leb : (a b : ℕ) → leb a b ≡ true → a ≤ b
le_of_leb a b h = ground arith

mul_mono :
    (x y z : Fixed)
    → is_finite x ≡ true
    → is_finite y ≡ true
    → is_finite z ≡ true
    → le x y ≡ true
    → le (mul x z) (mul y z) ≡ true
mul_mono (units a) (units b) (units c) h k l m =
    leb_of_le _ _ (omega (arith, mul-le-mul_right c (le_of_leb a b m)))
mul_mono (units a) (units b) below_all h k l m = cc
mul_mono (units a) below_all z h k l m = cc
mul_mono below_all y z h k l m = cc

zero_le-mul :
    (x y : Fixed) → is_finite x ≡ true → is_finite y ≡ true → le (units 0) (mul x y) ≡ true
zero_le-mul (units a) (units b) h k = leb_of_le _ _ (omega arith)
zero_le-mul (units a) below_all h k = cc
zero_le-mul below_all y h k = cc

one-mul : (x : Fixed) → is_finite x ≡ true → le (mul (units units_per_one) x) x ≡ true
one-mul (units a) h = leb_of_le _ _ (omega arith)
one-mul below_all h = cc

add_mono : (x y z : Fixed) → is_finite x ≡ true → le y z ≡ true → le (add x y) (add x z) ≡ true
add_mono (units a) (units b) (units c) h k = ground arith
add_mono (units a) (units b) below_all h k = cc
add_mono (units a) below_all z h k = refl
add_mono below_all y z h k = refl

add-zero : (x : Fixed) → is_finite x ≡ true → le x (add x (units 0)) ≡ true
add-zero (units a) h = leb_of_le _ _ (omega arith)
add-zero below_all h = cc

-- The laws of `IsIeee` can be met together.
pub Fixed-IsIeee : IsIeee Fixed
Fixed-IsIeee = record {
  is_finite = is_finite;
  le_trans = le_trans;
  le_total = le_total;
  neg_infinity_lt = below_lt;
  neg_infinity_le = λ x h. refl;
  finite_between = finite_between;
  of_u64_finite = λ n h. refl;
  of_u64_mono = λ m n h k. leb_of_le _ _ (omega arith);
  zero_le-of_u64 = λ n h. leb_of_le _ _ (omega arith);
  mul_mono = λ x y z h k l _ m. mul_mono x y z h k l m;
  mul_nonneg = λ x y h k _ _. zero_le-mul x y h k;
  one-mul = one-mul;
  add_mono = add_mono;
  add-zero = add-zero;
  zero_finite = refl;
  one_finite = refl;
  min_price_finite = refl;
  max_price_finite = refl;
  width_finite = refl;
  zero_le-width = refl;
  min_add-width = refl;
  scale_finite = refl;
  zero_le-scale = refl;
  full_scale = refl;
}

pub units_finite : (a : ℕ) → IsIeee.is_finite Fixed-IsIeee (units a) ≡ true
unfolding Fixed-IsIeee
units_finite a = refl
