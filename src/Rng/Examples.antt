-- ===== src/Rng/Examples.antt =====
-- The generator of include/rtb/runtime_types.h, seeded with 0 and with 1.
use rtb_engine.Base.{◌≡◌, refl}
use rtb_engine.Rng.{seed}

zero_seed : seed 0 ≡ seed 1
unfolding seed
zero_seed = refl
