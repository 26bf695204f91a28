-- ===== src/Base/Bits.antt =====
-- `|` and `^` of machine words at variables: the digit recursion that the native operations stand
-- for, and the bounds and cancellations that follow by induction on the width.
use Prim.Native.Nat.{
  ℕ, zero, suc, ◌+◌, ◌*◌, ◌/◌, ◌%◌, ◌^◌, ◌≤◌, ◌<◌, max, bit_or, bit_xor, digits, differ,
  bit_or-bitwise, bit_xor-bitwise,
}
use mathlib.Core.Path.{◌≡◌, refl, sym, ap, ◌∙◌}
use native.Mathlib.Omega.{arith}
use native.Mathlib.Nat.{pow-suc, mul_assoc}

module _ (f : ℕ → ℕ → ℕ) (f_zero : (y : ℕ) → f 0 y ≡ y) where
  abbrev by_digits : ℕ → ℕ → ℕ → ℕ
  by_digits n a b = digits (λ y. y) f n a b

  by_digits_fuel : (n m a b : ℕ) → a ≤ n → a ≤ m → by_digits n a b ≡ by_digits m a b
  by_digits_fuel zero zero a b p q = refl
  by_digits_fuel zero (suc m) zero b p q = refl
  by_digits_fuel zero (suc m) (suc a) b p q = absurd (omega arith)
  by_digits_fuel (suc n) zero zero b p q = refl
  by_digits_fuel (suc n) zero (suc a) b p q = absurd (omega arith)
  by_digits_fuel (suc n) (suc m) zero b p q = refl
  by_digits_fuel (suc n) (suc m) (suc a) b p q =
      ap (λ t. t * 2 + f (suc a % 2) (b % 2))
        (by_digits_fuel n m (suc a / 2) (b / 2) (omega arith) (omega arith))

  by_digits_step :
      (a b : ℕ) → by_digits a a b ≡ by_digits (a / 2) (a / 2) (b / 2) * 2 + f (a % 2) (b % 2)
  by_digits_step zero b = omega (arith, f_zero (b % 2))
  by_digits_step (suc a) b =
      ap (λ t. t * 2 + f (suc a % 2) (b % 2))
        (by_digits_fuel a (suc a / 2) (suc a / 2) (b / 2) (omega arith) (omega arith))

bit_xor_step : (a b : ℕ) → bit_xor a b ≡ bit_xor (a / 2) (b / 2) * 2 + differ (a % 2) (b % 2)
bit_xor_step a b =
    bit_xor-bitwise a b
    ∙ by_digits_step differ (λ y. refl) a b
    ∙ ap (λ t. t * 2 + differ (a % 2) (b % 2)) (sym (bit_xor-bitwise (a / 2) (b / 2)))

bit_or_step : (a b : ℕ) → bit_or a b ≡ bit_or (a / 2) (b / 2) * 2 + max (a % 2) (b % 2)
bit_or_step a b =
    bit_or-bitwise a b
    ∙ by_digits_step max (λ y. omega arith) a b
    ∙ ap (λ t. t * 2 + max (a % 2) (b % 2)) (sym (bit_or-bitwise (a / 2) (b / 2)))

differ_bits : (x y : ℕ) → x < 2 → y < 2 → differ x y < 2
differ_bits zero y h k = k
differ_bits (suc zero) zero h k = omega arith
differ_bits (suc zero) (suc zero) h k = omega arith
differ_bits (suc zero) (suc (suc y)) h k = absurd (omega arith)
differ_bits (suc (suc x)) y h k = absurd (omega arith)

differ_same : (x y : ℕ) → differ x y ≡ 0 → x ≡ y
differ_same zero y h = sym h
differ_same (suc x) zero h = h
differ_same (suc x) (suc y) h = ap suc (differ_same x y h)

-- The exclusive or of two k-bit words is a k-bit word.
pub bit_xor-lt : (k a b : ℕ) → a < 2 ^ k → b < 2 ^ k → bit_xor a b < 2 ^ k
bit_xor-lt zero a b h l =
    let p : a ≡ 0 = omega arith in let q : b ≡ 0 = omega arith in rw (p, q) (omega arith)
bit_xor-lt (suc k) a b h l = omega (
  arith,
  pow-suc 2 k,
  bit_xor_step a b,
  bit_xor-lt k (a / 2) (b / 2) (omega (arith, pow-suc 2 k)) (omega (arith, pow-suc 2 k)),
  differ_bits (a % 2) (b % 2) (omega arith) (omega arith),
)

bit_xor-eq-zero_fuel : (n a b : ℕ) → a ≤ n → b ≤ n → bit_xor a b ≡ 0 → a ≡ b
bit_xor-eq-zero_fuel zero a b h l e = omega arith
bit_xor-eq-zero_fuel (suc n) a b h l e = omega (
  arith,
  bit_xor-eq-zero_fuel n (a / 2) (b / 2) (omega arith) (omega arith)
      (omega (arith, bit_xor_step a b)),
  differ_same (a % 2) (b % 2) (omega (arith, bit_xor_step a b)),
)

-- Only equal words have the exclusive or 0.
pub bit_xor-eq-zero : (a b : ℕ) → bit_xor a b ≡ 0 → a ≡ b
bit_xor-eq-zero a b e = bit_xor-eq-zero_fuel (a + b) a b (omega arith) (omega arith) e

bit_or-zero_fuel : (n a : ℕ) → a ≤ n → bit_or a 0 ≡ a
bit_or-zero_fuel n zero h = refl
bit_or-zero_fuel zero (suc a) h = absurd (omega arith)
bit_or-zero_fuel (suc n) (suc a) h =
    omega (arith, bit_or_step (suc a) 0, bit_or-zero_fuel n (suc a / 2) (omega arith))

-- `(a << k) | b` joins a word to k lower bits.
pub bit_or-shifted : (k a b : ℕ) → b < 2 ^ k → bit_or (a * 2 ^ k) b ≡ a * 2 ^ k + b
bit_or-shifted zero a b h =
    let q : b ≡ 0 = omega arith in
    rw q (bit_or-zero_fuel (a * 1) (a * 1) (omega arith) ∙ omega arith)
bit_or-shifted (suc k) a b h =
    let e : a * 2 ^ suc k ≡ a * 2 ^ k * 2 =
      ap (λ t. a * t) (pow-suc 2 k) ∙ sym (mul_assoc a (2 ^ k) 2) in
    let half : (a * 2 ^ k * 2) / 2 ≡ a * 2 ^ k = omega arith in
    let even : (a * 2 ^ k * 2) % 2 ≡ 0 = omega arith in
    rw e (
      bit_or_step (a * 2 ^ k * 2) b
      ∙ ap (λ t. bit_or t (b / 2) * 2 + max ((a * 2 ^ k * 2) % 2) (b % 2)) half
      ∙ omega (arith, bit_or-shifted k a (b / 2) (omega (arith, pow-suc 2 k)), even))

differ_cancel : (x y z : ℕ) → x < 2 → y < 2 → z < 2 → differ x y ≡ differ x z → y ≡ z
differ_cancel zero y z h k l e = e
differ_cancel (suc zero) zero zero h k l e = refl
differ_cancel (suc zero) zero (suc zero) h k l e = absurd (omega arith)
differ_cancel (suc zero) (suc zero) zero h k l e = absurd (omega arith)
differ_cancel (suc zero) (suc zero) (suc zero) h k l e = refl
differ_cancel (suc zero) zero (suc (suc z)) h k l e = absurd (omega arith)
differ_cancel (suc zero) (suc zero) (suc (suc z)) h k l e = absurd (omega arith)
differ_cancel (suc zero) (suc (suc y)) z h k l e = absurd (omega arith)
differ_cancel (suc (suc x)) y z h k l e = absurd (omega arith)

differ_comm : (x y : ℕ) → differ x y ≡ differ y x
differ_comm zero zero = refl
differ_comm zero (suc y) = refl
differ_comm (suc x) zero = refl
differ_comm (suc x) (suc y) = differ_comm x y

bit_xor-cancel_fuel : (n a b c : ℕ) → a ≤ n → b ≤ n → c ≤ n → bit_xor a b ≡ bit_xor a c → b ≡ c
bit_xor-cancel_fuel zero a b c h k l e = omega arith
bit_xor-cancel_fuel (suc n) a b c h k l e =
    let same_bit : differ (a % 2) (b % 2) ≡ differ (a % 2) (c % 2) = omega (
      arith,
      bit_xor_step a b,
      bit_xor_step a c,
      differ_bits (a % 2) (b % 2) (omega arith) (omega arith),
      differ_bits (a % 2) (c % 2) (omega arith) (omega arith),
    ) in
    omega (
      arith,
      bit_xor-cancel_fuel n (a / 2) (b / 2) (c / 2) (omega arith) (omega arith) (omega arith)
          (omega (arith, bit_xor_step a b, bit_xor_step a c, same_bit)),
      differ_cancel (a % 2) (b % 2) (c % 2) (omega arith) (omega arith) (omega arith) same_bit,
    )

-- Exclusive or with a fixed word on the left is injective.
pub bit_xor-cancel : (a b c : ℕ) → bit_xor a b ≡ bit_xor a c → b ≡ c
bit_xor-cancel a b c e =
    bit_xor-cancel_fuel (a + b + c) a b c (omega arith) (omega arith) (omega arith) e

bit_xor_comm_fuel : (n a b : ℕ) → a ≤ n → b ≤ n → bit_xor a b ≡ bit_xor b a
bit_xor_comm_fuel zero a b h l = let p : a ≡ b = omega arith in rw p
bit_xor_comm_fuel (suc n) a b h l = omega (
  arith,
  bit_xor_step a b,
  bit_xor_step b a,
  differ_comm (a % 2) (b % 2),
  bit_xor_comm_fuel n (a / 2) (b / 2) (omega arith) (omega arith),
)

pub bit_xor_comm : (a b : ℕ) → bit_xor a b ≡ bit_xor b a
bit_xor_comm a b = bit_xor_comm_fuel (a + b) a b (omega arith) (omega arith)
