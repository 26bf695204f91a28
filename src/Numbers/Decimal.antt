-- ===== src/Numbers/Decimal.antt =====
-- `std::to_string` against `std::from_chars` on 64-bit numbers.
use rtb_engine.Base.{
  ℕ, zero, suc, ◌+◌, ◌*◌, ◌/◌, ◌%◌, ◌^◌, ◌≤◌, ◌<◌, ◌≡◌, refl, ap, ◌∙◌, ◌⊎◌, inl, inr, Bool, true,
  false, ◌&&◌, if◌then◌else◌, is_empty, List, [], ◌∷◌, ◌++◌, none, some, arith, ltb, lt→ltb, ltb→lt,
  sym, Bool-cases,
}
use mathlib.Core.List.{append-nil}
use rtb_engine.Numbers.{is_digit, scan_digits, whole_number, parse_u64, digits_onto, to_string}

scan-digit :
    (acc k : ℕ) (s : List ℕ)
    → k < 10
    → scan_digits acc ((b'0' + k) ∷ s) ≡ scan_digits (acc * 10 + k) s
unfolding scan_digits
scan-digit acc k s h =
    let digit : is_digit (b'0' + k) ≡ true = ground arith in
    rw digit (ap (λ v. scan_digits v s) (omega arith))

-- The digits that `digits_onto` puts down are read back as the number.
scan-digits_onto :
    (fuel n : ℕ) (acc : List ℕ)
    → n ≤ fuel
    → scan_digits 0 (digits_onto fuel n acc) ≡ scan_digits n acc
unfolding digits_onto
scan-digits_onto zero n acc h =
    scan-digit 0 (n % 10) acc (omega arith) ∙ ap (λ v. scan_digits v acc) (omega arith)
scan-digits_onto (suc fuel) n acc h = elim (Bool-cases (ltb n 10)) [
  | inl small ↦
      rw small (scan-digit 0 n acc (ltb→lt n 10 small) ∙ ap (λ v. scan_digits v acc) (omega arith))
  | inr large ↦ rw large (
      scan-digits_onto fuel (n / 10) ((b'0' + n % 10) ∷ acc) (ground arith)
      ∙ scan-digit (n / 10) (n % 10) acc (omega arith)
      ∙ ap (λ v. scan_digits v acc) (omega arith))
]

head-digits_onto :
    (fuel n : ℕ) (acc : List ℕ)
    → (c : ℕ) × (s : List ℕ) × (digits_onto fuel n acc ≡ c ∷ s) × (is_digit c ≡ true)
unfolding digits_onto
head-digits_onto zero n acc = (b'0' + n % 10, acc, refl, ground arith)
head-digits_onto (suc fuel) n acc = elim (Bool-cases (ltb n 10)) [
  | inl small ↦ (b'0' + n, acc, rw small, ground arith)
  | inr large ↦ rw large (head-digits_onto fuel (n / 10) ((b'0' + n % 10) ∷ acc))
]

digits_onto-append :
    (fuel n : ℕ) (acc t : List ℕ) → digits_onto fuel n acc ++ t ≡ digits_onto fuel n (acc ++ t)
unfolding digits_onto
digits_onto-append zero n acc t = refl
digits_onto-append (suc fuel) n acc t = elim (Bool-cases (ltb n 10)) [
  | inl small ↦ rw small refl
  | inr large ↦ rw large (digits_onto-append fuel (n / 10) ((b'0' + n % 10) ∷ acc) t)
]

-- A text that starts with a digit is the number that its digits spell, if that is all of it and in
-- range.
whole_number_of :
    (limit n c : ℕ) (s rest : List ℕ)
    → is_digit c ≡ true
    → scan_digits 0 (c ∷ s) ≡ (n, rest)
    → whole_number limit (c ∷ s) ≡ (if is_empty rest && ltb n limit then some n else none)
unfolding whole_number
whole_number_of limit n c s rest d e = rw (e, d) refl

whole_number-digits :
    (limit n : ℕ) (t rest : List ℕ)
    → scan_digits n t ≡ (n, rest)
    → whole_number limit (to_string n ++ t)
      ≡ (if is_empty rest && ltb n limit then some n else none)
unfolding to_string
whole_number-digits limit n t rest e =
    let (c, s, shape, digit) = head-digits_onto n n t in
    let text : digits_onto n n [] ++ t ≡ c ∷ s = digits_onto-append n n [] t ∙ shape in
    ap (whole_number limit) text
    ∙ whole_number_of limit n c s rest digit
        (ap (scan_digits 0) (sym shape) ∙ scan-digits_onto n n t (omega arith) ∙ e)

-- The text of a number is read back as that number if it fits 64 bits and is refused otherwise,
-- and with anything but a digit behind it it is refused.
pub parse_u64-to_string :
    (n c : ℕ) (s : List ℕ)
    → (c < b'0') ⊎ (b'9' < c)
    → (parse_u64 (to_string n) ≡ (if ltb n (2 ^ 64) then some n else none))
      × (parse_u64 (to_string n ++ c ∷ s) ≡ none)
unfolding parse_u64
parse_u64-to_string n c s h = (alone, whole_number-digits (2 ^ 64) n (c ∷ s) (c ∷ s) (no_more n))
  where
    alone : whole_number (2 ^ 64) (to_string n) ≡ (if ltb n (2 ^ 64) then some n else none)
    alone =
        ap (whole_number (2 ^ 64)) (sym (append-nil (to_string n)))
        ∙ whole_number-digits (2 ^ 64) n [] [] refl

    no_more : (acc : ℕ) → scan_digits acc (c ∷ s) ≡ (acc, c ∷ s)
    no_more acc =
        let other : is_digit c ≡ false = elim h [ inl l ↦ ground arith | inr g ↦ ground arith ] in
        rw other refl

pub reads_back : (n : ℕ) → n < 2 ^ 64 → parse_u64 (to_string n) ≡ some n
reads_back n h =
    (parse_u64-to_string n 0 [] (inl (omega arith))).0
    ∙ ap (λ (b : Bool). if b then some n else none) (lt→ltb n (2 ^ 64) h)
