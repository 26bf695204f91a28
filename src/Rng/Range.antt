-- ===== src/Rng/Range.antt =====
-- The states of the generator of include/rtb/runtime_types.h, and the ranges of its draws.
use rtb_engine.Base.{ℕ, ◌*◌, ◌/◌, ◌%◌, ◌^◌, ◌<◌, ◌≡◌, arith, bit_xor, bit_xor-lt, bit_xor-eq-zero}
use native.Mathlib.Nat.{mod-lt, pos_of_ne-zero}
use rtb_engine.Rng.{WorkerRng, seed, xorshift, next_u64, uniform_index}

pub record IsValid (rng : WorkerRng) : Type 0 where
  pub positive : 0 < rng.state
  pub word : rng.state < 2 ^ 64

-- Any 64-bit seed, 0 included, gives a state that is not 0.
pub seed-IsValid : (n : ℕ) → n < 2 ^ 64 → IsValid (seed n)
unfolding seed
seed-IsValid n h = ground arith

module _ (x : ℕ) (word : x < 2 ^ 64) where
  left_13-lt : bit_xor x (x * 2 ^ 13 % 2 ^ 64) < 2 ^ 64
  left_13-lt = bit_xor-lt 64 x (x * 2 ^ 13 % 2 ^ 64) word (omega arith)

  right_7-lt : bit_xor x (x / 2 ^ 7) < 2 ^ 64
  right_7-lt = bit_xor-lt 64 x (x / 2 ^ 7) word (omega arith)

  left_17-lt : bit_xor x (x * 2 ^ 17 % 2 ^ 64) < 2 ^ 64
  left_17-lt = bit_xor-lt 64 x (x * 2 ^ 17 % 2 ^ 64) word (omega arith)

  -- A word that equals its own shift is 0.
  left_13-pos : 0 < x → 0 < bit_xor x (x * 2 ^ 13 % 2 ^ 64)
  left_13-pos h =
      pos_of_ne-zero λ e. absurd (omega (arith, bit_xor-eq-zero x (x * 2 ^ 13 % 2 ^ 64) e))

  right_7-pos : 0 < x → 0 < bit_xor x (x / 2 ^ 7)
  right_7-pos h = pos_of_ne-zero λ e. absurd (omega (arith, bit_xor-eq-zero x (x / 2 ^ 7) e))

  left_17-pos : 0 < x → 0 < bit_xor x (x * 2 ^ 17 % 2 ^ 64)
  left_17-pos h =
      pos_of_ne-zero λ e. absurd (omega (arith, bit_xor-eq-zero x (x * 2 ^ 17 % 2 ^ 64) e))

-- The three shifts keep a word that is not 0 from becoming 0, and within 64 bits.
pub xorshift_range : (x : ℕ) → 0 < x → x < 2 ^ 64 → (0 < xorshift x) × (xorshift x < 2 ^ 64)
unfolding xorshift
xorshift_range x h word = (left_17-pos second second_word second_pos, left_17-lt second second_word)
  where
    first : ℕ
    first = bit_xor x (x * 2 ^ 13 % 2 ^ 64)

    first_word : first < 2 ^ 64
    first_word = left_13-lt x word

    first_pos : 0 < first
    first_pos = left_13-pos x word h

    second : ℕ
    second = bit_xor first (first / 2 ^ 7)

    second_word : second < 2 ^ 64
    second_word = right_7-lt first first_word

    second_pos : 0 < second
    second_pos = right_7-pos first first_word first_pos

-- A draw from a valid generator is the xorshift of its state, so that 0 is never replaced; the
-- state after it is the value drawn, and stays valid.
pub next_u64_lem :
    (rng : WorkerRng)
    → IsValid rng
    → ((next_u64 rng).0 ≡ xorshift rng.state)
      × ((next_u64 rng).1.state ≡ (next_u64 rng).0)
      × IsValid (next_u64 rng).1
unfolding next_u64
next_u64_lem rng v = ground (arith, xorshift_range rng.state v.positive v.word)

-- An index is drawn below a bound that is not 0, and the generator stays valid.
pub uniform_index_lem :
    (rng : WorkerRng) (upper_bound : ℕ)
    → IsValid rng
    → ((0 < upper_bound) → (uniform_index rng upper_bound).0 < upper_bound)
      × IsValid (uniform_index rng upper_bound).1
unfolding uniform_index
uniform_index_lem rng upper_bound v = (λ h. index h, next)
  where
    index : 0 < upper_bound → (uniform_index rng upper_bound).0 < upper_bound
    index h = ground (arith, mod-lt (next_u64 rng).0 h)

    next : IsValid (uniform_index rng upper_bound).1
    next = ground (arith, next_u64_lem rng v)
