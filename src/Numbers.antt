-- ===== src/Numbers.antt =====
-- Decimal numbers of the C++ library as the program uses them: `std::from_chars` for `uint64_t`
-- (`parse_u64` of src/campaign_store.cc and `parse_u64_arg` of src/server.cc) and for `int`
-- (`parse_int_arg`), and `std::to_string` (src/response_builder.cc). These parsers return an `Option`,
-- as their callers do not read the out parameter after a failure.
mod Examples
pub mod Decimal
use rtb_engine.Base.{
  ℕ, zero, suc, ◌+◌, ◌-◌, ◌*◌, ◌/◌, ◌%◌, ◌^◌, Bool, true, false, ◌&&◌, List, [], ◌∷◌, Option, none,
  some, if◌then◌else◌, leb, ltb, ◌==◌, is_empty,
}

-- `int`: `negsuc n` is -(n + 1).
pub data ℤ : Type 0 where
  pos : ℕ → ℤ
  negsuc : ℕ → ℤ

abbrev pub is_digit : ℕ → Bool
is_digit c = leb b'0' c && leb c b'9'

-- The number that the digits at the front spell behind `acc`, and the rest of the text.
unfoldable pub scan_digits : ℕ → List ℕ → ℕ × List ℕ
scan_digits acc [] = (acc, [])
scan_digits acc (c ∷ s) =
    let rest = scan_digits (acc * 10 + (c - b'0')) s in if is_digit c then rest else (acc, c ∷ s)

-- `from_chars` with `ec == errc {}` and `ptr == end`: at least one digit, in range, nothing left.
whole_number : ℕ → List ℕ → Option ℕ
whole_number limit [] = none
whole_number limit (c ∷ s) =
    let (value, rest) = scan_digits 0 (c ∷ s) in
    if is_digit c && is_empty rest && ltb value limit then some value else none

unfoldable pub parse_u64 : List ℕ → Option ℕ
unfolding whole_number scan_digits
parse_u64 text = whole_number (2 ^ 64) text

minus : Option ℕ → Option ℤ
minus none = none
minus (some zero) = some (pos 0)
minus (some (suc n)) = some (negsuc n)

plus : Option ℕ → Option ℤ
plus none = none
plus (some n) = some (pos n)

-- A minus sign is accepted before the digits, and the range is that of `int32_t`.
unfoldable pub parse_int_arg : List ℕ → Option ℤ
unfolding whole_number scan_digits minus plus
parse_int_arg [] = none
parse_int_arg (c ∷ s) =
    if c == b'-' then minus (whole_number (2 ^ 31 + 1) s) else plus (whole_number (2 ^ 31) (c ∷ s))

-- The digits of `n` before `acc`; the first argument is fuel.
digits_onto : ℕ → ℕ → List ℕ → List ℕ
digits_onto zero n acc = (b'0' + n % 10) ∷ acc
digits_onto (suc fuel) n acc =
    let more = digits_onto fuel (n / 10) ((b'0' + n % 10) ∷ acc) in
    if ltb n 10 then (b'0' + n) ∷ acc else more

unfoldable pub to_string : ℕ → List ℕ
unfolding digits_onto
to_string n = digits_onto n n []
