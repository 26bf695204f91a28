-- ===== src/Rng.antt =====
-- `WorkerRng` of include/rtb/runtime_types.h, a xorshift generator. A draw returns the value and the
-- generator after it.
mod Examples
pub mod Range
use rtb_engine.Base.{ℕ, ◌*◌, ◌/◌, ◌%◌, ◌^◌, bit_xor, if◌then◌else◌, ◌==◌}
use rtb_engine.Double.{Double, unit_scale}

pub record WorkerRng : Type 0 where
  pub state : ℕ

unfoldable pub seed : ℕ → WorkerRng
seed seed_value = record { state = if seed_value == 0 then 1 else seed_value }

-- The three shifts of a 64-bit word.
unfoldable pub xorshift : ℕ → ℕ
xorshift value =
    let first = bit_xor value (value * 2 ^ 13 % 2 ^ 64) in
    let second = bit_xor first (first / 2 ^ 7) in bit_xor second (second * 2 ^ 17 % 2 ^ 64)

unfoldable pub next_u64 : WorkerRng → ℕ × WorkerRng
unfolding xorshift
next_u64 rng =
    let value = xorshift rng.state in
    let state = if value == 0 then 1 else value in (state, record { state = state })

unfoldable pub next_unit_double : {F : Type 0} ⦃d : Double F⦄ → WorkerRng → F × WorkerRng
unfolding next_u64
next_unit_double {F} ⦃d⦄ rng =
    let (value, rng') = next_u64 rng in (d.mul (d.of_u64 (value / 2 ^ 11)) (unit_scale F), rng')

unfoldable pub uniform_index : WorkerRng → ℕ → ℕ × WorkerRng
unfolding next_u64
uniform_index rng upper_bound =
    let (value, rng') = next_u64 rng in
    if upper_bound == 0 then (0, rng) else (value % upper_bound, rng')
