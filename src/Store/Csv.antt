-- ===== src/Store/Csv.antt =====
-- The text functions of src/campaign_store.cc and the `getline` loop over the file's bytes.
pub mod Sizes
use rtb_engine.Base.{
  ℕ, Bool, true, false, ◌&&◌, ◌||◌, List, [], ◌∷◌, map, if◌then◌else◌, ◌==◌, is_empty,
}
use rtb_engine.Types.{csv_delimiter, creative_delimiter}

abbrev pub is_blank : ℕ → Bool
is_blank c = c == b' ' || c == 9 || c == 13

-- The first loop of `trim_copy`, up to a character that is no blank.
unfoldable pub trim_front : List ℕ → List ℕ
trim_front [] = []
trim_front (c ∷ s) = let rest = trim_front s in if is_blank c then rest else c ∷ s

-- The second loop: blanks with nothing but blanks behind them go.
unfoldable pub trim_back : List ℕ → List ℕ
trim_back [] = []
trim_back (c ∷ s) = let rest = trim_back s in if is_blank c && is_empty rest then [] else c ∷ rest

unfoldable pub trim_copy : List ℕ → List ℕ
unfolding trim_front trim_back
trim_copy value = trim_back (trim_front value)

-- The text before the first delimiter, and the texts between the ones that follow.
unfoldable pub split_at : ℕ → List ℕ → List ℕ × List (List ℕ)
split_at delimiter [] = ([], [])
split_at delimiter (c ∷ s) =
    let (token, tokens) = split_at delimiter s in
    if c == delimiter then ([], token ∷ tokens) else (c ∷ token, tokens)

unfoldable pub split_csv_line : List ℕ → List (List ℕ)
unfolding split_at trim_copy
split_csv_line line =
    let (field, fields) = split_at csv_delimiter line in trim_copy field ∷ map trim_copy fields

-- The tokens of `parse_creative_specs`. Where the loop ends before an empty last token, that token
-- is here too; the loop's body skips it.
unfoldable pub split_creatives : List ℕ → List (List ℕ)
unfolding split_at
split_creatives value = let (token, tokens) = split_at creative_delimiter value in token ∷ tokens

-- `getline` until it fails: a last line without its newline counts, an empty one does not.
drop_last_empty : List ℕ → List (List ℕ) → List (List ℕ)
drop_last_empty line [] = if is_empty line then [] else line ∷ []
drop_last_empty line (next ∷ rest) = line ∷ drop_last_empty next rest

unfoldable pub lines : List ℕ → List (List ℕ)
unfolding drop_last_empty split_at
lines bytes = let (line, rest) = split_at 10 bytes in drop_last_empty line rest

-- `line.rfind(prefix, 0) == 0`.
unfoldable pub starts_with : List ℕ → List ℕ → Bool
starts_with [] s = true
starts_with (p ∷ prefix) [] = false
starts_with (p ∷ prefix) (c ∷ s) = p == c && starts_with prefix s
