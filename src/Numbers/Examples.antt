-- ===== src/Numbers/Examples.antt =====
-- Decimal numbers read and written.
use rtb_engine.Base.{◌≡◌, ◌++◌, refl, inr, some, none, arith, codes}
use rtb_engine.Numbers.{parse_u64, parse_int_arg, to_string, negsuc}
use rtb_engine.Numbers.Decimal.{parse_u64-to_string}

largest : parse_u64 (codes "18446744073709551615") ≡ some 18446744073709551615
unfolding parse_u64
largest = refl

too_large : parse_u64 (codes "18446744073709551616") ≡ none
unfolding parse_u64
too_large = refl

trailing : parse_u64 (codes "12 ") ≡ none
unfolding parse_u64
trailing = refl

negative : parse_int_arg (codes "-7") ≡ some (negsuc 6)
unfolding parse_int_arg
negative = refl

parse_u64-to_string_example :
    (parse_u64 (to_string 1050) ≡ some 1050) × (parse_u64 (to_string 1050 ++ codes "ms") ≡ none)
parse_u64-to_string_example = parse_u64-to_string 1050 b'm' (codes "s") (inr (omega arith))
