-- ===== src/Store/Csv/Sizes.antt =====
-- The lengths and the number of the pieces that src/campaign_store.cc cuts from a text.
use rtb_engine.Base.{
  ℕ, zero, suc, ◌+◌, ◌≤◌, ◌≡◌, refl, List, [], ◌∷◌, map, arith, length, get_or, All, All-map,
}
use rtb_engine.Types.{csv_delimiter, creative_delimiter}
use rtb_engine.Store.Csv.{
  trim_front, trim_back, trim_copy, split_at, split_csv_line, split_creatives, drop_last_empty,
  lines,
}

length-trim_front : (s : List ℕ) → length (trim_front s) ≤ length s
unfolding trim_front
length-trim_front [] = omega arith
length-trim_front (c ∷ s) = ground (arith, length-trim_front s)

length-trim_back : (s : List ℕ) → length (trim_back s) ≤ length s
unfolding trim_back
length-trim_back [] = omega arith
length-trim_back (c ∷ s) = ground (arith, length-trim_back s)

length-trim_copy : (s : List ℕ) → length (trim_copy s) ≤ length s
unfolding trim_copy
length-trim_copy s = omega (arith, length-trim_back (trim_front s), length-trim_front s)

abbrev AtMost : ℕ → List ℕ → Type 0
AtMost n u = length u ≤ n

AtMost-more : (n : ℕ) (us : List (List ℕ)) → All (AtMost n) us → All (AtMost (suc n)) us
AtMost-more n us h = All-map (AtMost n) (AtMost (suc n)) us (λ u k. omega arith) h

record Cut (s : List ℕ) (r : List ℕ × List (List ℕ)) : Type 0 where
  first : length r.0 ≤ length s
  others : All (AtMost (length s)) r.1
  few : length r.1 ≤ length s

split_at-Cut : (d : ℕ) (s : List ℕ) → Cut s (split_at d s)
unfolding split_at
split_at-Cut d [] = record { first = omega arith; others = tt; few = omega arith }
split_at-Cut d (c ∷ s) =
    let r = split_at-Cut d s in
    let more = AtMost-more (length s) (split_at d s).1 r.others in
    ground (arith, r.first, more, r.few)

get_or-AtMost : (n i : ℕ) (us : List (List ℕ)) → All (AtMost n) us → length (get_or us i []) ≤ n
get_or-AtMost n i [] h = omega arith
get_or-AtMost n zero (u ∷ us) h = h.0
get_or-AtMost n (suc i) (u ∷ us) h = get_or-AtMost n i us h.1

trimmed : (n : ℕ) (us : List (List ℕ)) → All (AtMost n) us → All (AtMost n) (map trim_copy us)
trimmed n [] h = tt
trimmed n (u ∷ us) h = (omega (arith, length-trim_copy u, h.0), trimmed n us h.1)

field_size : (i : ℕ) (line : List ℕ) → length (get_or (split_csv_line line) i []) ≤ length line
unfolding split_csv_line
field_size i line =
    let r = split_at-Cut csv_delimiter line in
    get_or-AtMost (length line) i (split_csv_line line) (
      omega (arith, length-trim_copy (split_at csv_delimiter line).0, r.first),
      trimmed (length line) (split_at csv_delimiter line).1 r.others,
    )

-- A line's creative field has at most as many tokens as the line has characters, and one more.
pub creative_tokens :
    (i : ℕ) (line : List ℕ)
    → length (split_creatives (get_or (split_csv_line line) i [])) ≤ suc (length line)
unfolding split_creatives
creative_tokens i line = omega (
  arith,
  (split_at-Cut creative_delimiter (get_or (split_csv_line line) i [])).few,
  field_size i line,
)

-- The characters of some lines, each with its newline.
abbrev pub text_size : List (List ℕ) → ℕ
text_size [] = 0
text_size (line ∷ rest) = suc (length line) + text_size rest

text_size-drop_last_empty :
    (line : List ℕ) (rest : List (List ℕ))
    → text_size (drop_last_empty line rest) ≤ text_size (line ∷ rest)
unfolding drop_last_empty
text_size-drop_last_empty line [] = ground arith
text_size-drop_last_empty line (next ∷ rest) = omega (arith, text_size-drop_last_empty next rest)

text_size-split_at :
    (d : ℕ) (s : List ℕ) → text_size ((split_at d s).0 ∷ (split_at d s).1) ≡ suc (length s)
unfolding split_at
text_size-split_at d [] = refl
text_size-split_at d (c ∷ s) = ground (arith, text_size-split_at d s)

-- The lines of a file are no longer than the file and one newline.
pub text_size-lines : (bytes : List ℕ) → text_size (lines bytes) ≤ suc (length bytes)
unfolding lines
text_size-lines bytes = omega (
  arith,
  text_size-drop_last_empty (split_at 10 bytes).0 (split_at 10 bytes).1,
  text_size-split_at 10 bytes,
)
