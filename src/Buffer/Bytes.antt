-- ===== src/Buffer/Bytes.antt =====
-- Bytes in a vector: network byte order (`htonl`, `ntohl`) and copies into a range.
use rtb_engine.Base.{
  ℕ, ◌+◌, ◌*◌, ◌/◌, ◌%◌, ◌^◌, ◌≤◌, ◌<◌, ◌≡◌, refl, sym, ap, ◌∙◌, List, [], ◌∷◌, ◌++◌, arith, length,
  take, drop, length-append, length-take, length-drop, take-length,
}
use mathlib.Core.List.{append_assoc}

abbrev pub IsByte : ℕ → Type 0
IsByte b = b < 256

-- The value of bytes in network order, the highest first.
be_fold : ℕ → List ℕ → ℕ
be_fold acc [] = acc
be_fold acc (b ∷ bs) = be_fold (acc * 256 + b) bs

unfoldable pub be_value : List ℕ → ℕ
unfolding be_fold
be_value bs = be_fold 0 bs

-- The four bytes of a `uint32_t` in network order.
unfoldable pub be_bytes : ℕ → List ℕ
be_bytes n = (n / 2 ^ 24 % 256) ∷ (n / 2 ^ 16 % 256) ∷ (n / 2 ^ 8 % 256) ∷ (n % 256) ∷ []

-- A copy of `bytes` to position `at` of a vector.
unfoldable pub overwrite : List ℕ → ℕ → List ℕ → List ℕ
overwrite xs at bytes = take at xs ++ (bytes ++ drop (at + length bytes) xs)

pub length-be_bytes : (n : ℕ) → length (be_bytes n) ≡ 4
unfolding be_bytes
length-be_bytes n = refl

-- `ntohl` undoes `htonl`.
pub be_value-be_bytes : (n : ℕ) → n < 2 ^ 32 → be_value (be_bytes n) ≡ n
unfolding be_value be_bytes
be_value-be_bytes n h = omega arith

-- The bytes of the number that four bytes spell are these bytes.
pub be_bytes-be_value :
    (a b c d : ℕ)
    → IsByte a
    → IsByte b
    → IsByte c
    → IsByte d
    → be_bytes (be_value (a ∷ b ∷ c ∷ d ∷ [])) ≡ a ∷ b ∷ c ∷ d ∷ []
unfolding be_value be_bytes
be_bytes-be_value a b c d ha hb hc hd = ground arith

pub length-overwrite :
    (xs : List ℕ) (at : ℕ) (bytes : List ℕ)
    → at + length bytes ≤ length xs
    → length (overwrite xs at bytes) ≡ length xs
unfolding overwrite
length-overwrite xs at bytes h = omega (
  arith,
  length-append (take at xs) (bytes ++ drop (at + length bytes) xs),
  length-append bytes (drop (at + length bytes) xs),
  length-take at xs,
  length-drop (at + length bytes) xs,
)

-- What precedes the copy is left alone, and the bytes stand behind it.
pub take-overwrite :
    (xs : List ℕ) (at : ℕ) (bytes : List ℕ)
    → at ≤ length xs
    → take (at + length bytes) (overwrite xs at bytes) ≡ take at xs ++ bytes
unfolding overwrite
take-overwrite xs at bytes h =
    let e : length (take at xs) ≡ at = omega (arith, length-take at xs) in
    ap (take (at + length bytes)) (sym (append_assoc (take at xs) bytes _))
    ∙ ap (λ k. take k ((take at xs ++ bytes) ++ drop (at + length bytes) xs))
        (omega (arith, length-append (take at xs) bytes))
    ∙ take-length (take at xs ++ bytes) _
