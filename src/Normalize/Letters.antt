-- ===== src/Normalize/Letters.antt =====
-- `to_upper_ascii` of src/normalize.cc, and when two letters are the same but for case.
use rtb_engine.Base.{ℕ, ◌+◌, ◌≤◌, ◌≡◌, ◌⊎◌, inl, inr, arith}
use rtb_engine.Buffer.Bytes.{IsByte}
use rtb_engine.Normalize.{to_upper_ascii}

pub to_upper_ascii-IsByte : (c : ℕ) → IsByte c → IsByte (to_upper_ascii c)
unfolding to_upper_ascii
to_upper_ascii-IsByte c h = ground arith

-- `u` is a capital letter and `l` the small one.
abbrev pub IsUpperOf : ℕ → ℕ → Type 0
IsUpperOf u l = (b'A' ≤ u) × (u ≤ b'Z') × (l ≡ u + 32)

-- The same character but for ASCII case.
abbrev pub SameLetter : ℕ → ℕ → Type 0
SameLetter a b = (a ≡ b) ⊎ (IsUpperOf a b ⊎ IsUpperOf b a)

pub to_upper_ascii-SameLetter :
    (a b : ℕ) → IsByte a → IsByte b → to_upper_ascii a ≡ to_upper_ascii b → SameLetter a b
unfolding to_upper_ascii
to_upper_ascii-SameLetter a b ha hb e = ground arith

pub SameLetter-to_upper_ascii :
    (a b : ℕ) → IsByte a → IsByte b → SameLetter a b → to_upper_ascii a ≡ to_upper_ascii b
unfolding to_upper_ascii
SameLetter-to_upper_ascii a b ha hb (inl e) = ground arith
SameLetter-to_upper_ascii a b ha hb (inr (inl u)) = ground (arith, u.0, u.1, u.2)
SameLetter-to_upper_ascii a b ha hb (inr (inr u)) = ground (arith, u.0, u.1, u.2)

pub to_upper_ascii-zero : (c : ℕ) → to_upper_ascii c ≡ 0 → IsByte c → c ≡ 0
unfolding to_upper_ascii
to_upper_ascii-zero c e h = ground arith
