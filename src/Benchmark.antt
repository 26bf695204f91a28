-- ===== src/Benchmark.antt =====
-- The benchmark statistics: src/benchmark.cc, with the records of include/rtb/benchmark.h.
-- `std::sort` is an insertion sort, a stream is the text that it has received, and the mutex of the
-- recorder makes each method one step. What the file does with `long double` and with the truncation
-- of a `double` is the parameter `Statistics`.
pub mod Sorted
pub mod Summary
pub mod Report
mod Examples
use rtb_engine.Base.{
  ℕ, suc, ◌-◌, min, max, Bool, true, false, not, ◌&&◌, List, [], ◌∷◌, ◌++◌, Option, none, some, map,
  if◌then◌else◌, ltb, leb, ◌==◌, length, get_or, is_empty, codes,
}
use rtb_engine.Double.{Double, zero_double}
use rtb_engine.Numbers.{ℤ, pos, negsuc, to_string}

pub record RequestTimingBreakdown : Type 0 where
  pub parse_ns : ℕ
  pub normalize_validate_ns : ℕ
  pub retrieve_ns : ℕ
  pub decide_ns : ℕ
  pub response_build_ns : ℕ
  pub response_stage_ns : ℕ
  pub total_internal_ns : ℕ

pub record BenchmarkPhaseSummary (F : Type 0) : Type 0 where
  pub count : ℕ
  pub min_ns : ℕ
  pub max_ns : ℕ
  pub avg_ns : F
  pub p50_ns : ℕ
  pub p95_ns : ℕ
  pub p99_ns : ℕ

pub record BenchmarkSummary (F : Type 0) : Type 0 where
  pub request_count : ℕ
  pub parse : BenchmarkPhaseSummary F
  pub normalize_validate : BenchmarkPhaseSummary F
  pub retrieve : BenchmarkPhaseSummary F
  pub decide : BenchmarkPhaseSummary F
  pub response_build : BenchmarkPhaseSummary F
  pub response_stage : BenchmarkPhaseSummary F
  pub total_internal : BenchmarkPhaseSummary F

pub record BenchmarkMetadata : Type 0 where
  pub timestamp_utc : List ℕ
  pub port : ℕ
  pub workers : ℤ
  pub request_limit : ℕ
  pub duration_ms : ℕ
  pub completed_requests : ℕ
  pub campaign_data_path : List ℕ

pub record BenchmarkRecorder : Type 0 where
  pub request_limit : ℕ
  pub requests : List RequestTimingBreakdown

-- The constructor.
abbrev pub new_recorder : ℕ → BenchmarkRecorder
new_recorder request_limit = record { request_limit = request_limit; requests = [] }

unfoldable pub record_request : RequestTimingBreakdown → BenchmarkRecorder → BenchmarkRecorder
record_request timing recorder = record recorder { requests = recorder.requests ++ timing ∷ [] }

unfoldable pub completed_requests : BenchmarkRecorder → ℕ
completed_requests recorder = length recorder.requests

unfoldable pub request_limit_reached : BenchmarkRecorder → Bool
unfolding completed_requests
request_limit_reached recorder =
    not (recorder.request_limit == 0) && leb recorder.request_limit (completed_requests recorder)

-- `std::sort`.
unfoldable pub insert : ℕ → List ℕ → List ℕ
insert x [] = x ∷ []
insert x (y ∷ ys) = if leb x y then x ∷ y ∷ ys else y ∷ insert x ys

unfoldable pub sort : List ℕ → List ℕ
unfolding insert
sort [] = []
sort (x ∷ xs) = insert x (sort xs)

-- `average` is the sum of the values, as `long double`, divided by their number; `truncate` is the
-- conversion of a `double` to `size_t`; `fixed_two` is how a stream shows a `double` with two digits
-- behind the point.
pub record Statistics (F : Type 0) : Type 0 where
  pub average : List ℕ → F
  pub truncate : F → ℕ
  pub fixed_two : F → List ℕ

-- The loop of `summarize_phase` over the requests behind the first.
unfoldable pub min_from : ℕ → List ℕ → ℕ
min_from m [] = m
min_from m (x ∷ xs) = min_from (min m x) xs

unfoldable pub max_from : ℕ → List ℕ → ℕ
max_from m [] = m
max_from m (x ∷ xs) = max_from (max m x) xs

module _ {F : Type 0} ⦃d : Double F⦄ (s : Statistics F) where
  open s use {average, truncate}

  -- The position of a percentile, given in hundredths, among `suc last` values.
  abbrev pub percentile_index : ℕ → ℕ → ℕ
  percentile_index hundredths last = truncate (d.mul (d.decimal hundredths 2) (d.of_u64 last))

  unfoldable pub percentile_value : List ℕ → ℕ → ℕ
  unfolding sort
  percentile_value values hundredths =
      if is_empty values
      then 0
      else get_or (sort values) (percentile_index hundredths (length values - 1)) 0

  abbrev pub empty_phase : BenchmarkPhaseSummary F
  empty_phase = record {
    count = 0;
    min_ns = 0;
    max_ns = 0;
    avg_ns = zero_double F;
    p50_ns = 0;
    p95_ns = 0;
    p99_ns = 0;
  }

  unfoldable pub summarize_phase :
      List RequestTimingBreakdown → (RequestTimingBreakdown → ℕ) → BenchmarkPhaseSummary F
  summarize_phase [] accessor = empty_phase
  summarize_phase (request ∷ requests) accessor =
      let values = map accessor (request ∷ requests) in
      record {
        count = length values;
        min_ns = min_from (accessor request) values;
        max_ns = max_from (accessor request) values;
        avg_ns = average values;
        p50_ns = percentile_value values 50;
        p95_ns = percentile_value values 95;
        p99_ns = percentile_value values 99;
      }

  unfoldable pub summarize : BenchmarkRecorder → BenchmarkSummary F
  unfolding summarize_phase
  summarize recorder =
      let phase =
        λ (accessor : RequestTimingBreakdown → ℕ). summarize_phase recorder.requests accessor in
      record {
        request_count = length recorder.requests;
        parse = phase (λ value. value.parse_ns);
        normalize_validate = phase (λ value. value.normalize_validate_ns);
        retrieve = phase (λ value. value.retrieve_ns);
        decide = phase (λ value. value.decide_ns);
        response_build = phase (λ value. value.response_build_ns);
        response_stage = phase (λ value. value.response_stage_ns);
        total_internal = phase (λ value. value.total_internal_ns);
      }
