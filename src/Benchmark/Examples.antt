-- ===== src/Benchmark/Examples.antt =====
-- The summary of src/benchmark.cc run on four requests, with whole numbers for its figures.
use rtb_engine.Base.{
  ℕ, ◌+◌, ◌*◌, ◌/◌, ◌≤◌, ◌≡◌, refl, arith, true, List, [], ◌∷◌, ◌++◌, codes, length,
}
use rtb_engine.Numbers.{to_string}
use rtb_engine.Double.{◌≼◌}
use rtb_engine.Double.Fixed.{
  Fixed, below_all, units, units_per_one, fixed_double, Fixed-IsIeee, units_finite,
}
use rtb_engine.Benchmark.{
  RequestTimingBreakdown, Statistics, new_recorder, record_request, request_limit_reached, insert,
  sort, min_from, max_from, percentile_value, summarize_phase,
}
use rtb_engine.Benchmark.Summary.{Truncates, Summarizes, summarize_phase-Summarizes}

abbrev sum : List ℕ → ℕ
sum [] = 0
sum (x ∷ xs) = x + sum xs

abbrev whole : Fixed → ℕ
whole below_all = 0
whole (units a) = a / units_per_one

-- An average that is rounded down to a whole number.
abbrev statistics : Statistics Fixed
statistics = record {
  average = λ values. units (sum values / length values * units_per_one);
  truncate = whole;
  fixed_two = λ x. to_string (whole x) ++ codes ".00";
}

whole_mono : (x y : Fixed) → x ≼ y → whole x ≤ whole y
whole_mono below_all y h = omega arith
whole_mono (units a) (units b) h = ground arith
whole_mono (units a) below_all h = ground arith

statistics-Truncates : Truncates Fixed-IsIeee statistics
statistics-Truncates = record {
  truncate_mono = λ x y p q h. whole_mono x y h;
  truncate-of_u64 = λ n h. omega arith;
  hundredths_finite = λ h small. units_finite (h * units_per_one / 100);
  hundredths_mono = λ h k a b. ground arith;
  hundredths_le_one = λ h small. ground arith;
  zero_le-hundredths = λ h. ground arith;
}

abbrev timing : ℕ → RequestTimingBreakdown
timing n = record {
  parse_ns = n;
  normalize_validate_ns = 1;
  retrieve_ns = 2;
  decide_ns = 3;
  response_build_ns = 4;
  response_stage_ns = 5;
  total_internal_ns = n + 15;
}

median :
    (summarize_phase statistics (timing 9 ∷ timing 4 ∷ timing 7 ∷ []) (λ t. t.parse_ns)).p50_ns ≡ 7
unfolding summarize_phase percentile_value sort insert min_from max_from
median = refl

limit : request_limit_reached (record_request (timing 3) (new_recorder 1)) ≡ true
unfolding request_limit_reached record_request
limit = refl

summarize_phase-Summarizes_example :
    Summarizes Fixed-IsIeee statistics statistics-Truncates
      (9 ∷ 4 ∷ 7 ∷ [])
      (summarize_phase statistics (timing 9 ∷ timing 4 ∷ timing 7 ∷ []) (λ t. t.parse_ns))
summarize_phase-Summarizes_example =
    summarize_phase-Summarizes Fixed-IsIeee statistics statistics-Truncates (timing 9)
      (timing 4 ∷ timing 7 ∷ []) (λ t. t.parse_ns) (omega arith)
