-- ===== src/Benchmark/Report.antt =====
-- The reports of src/benchmark.cc: `print_summary` and `write_json` as the texts that they put out.
use rtb_engine.Base.{
  ℕ, ◌+◌, Bool, List, [], ◌∷◌, ◌++◌, Option, none, some, if◌then◌else◌, is_empty, codes,
}
use rtb_engine.Double.{Double}
use rtb_engine.Numbers.{ℤ, pos, negsuc, to_string}
use rtb_engine.Benchmark.{
  BenchmarkPhaseSummary, BenchmarkSummary, BenchmarkMetadata, BenchmarkRecorder, Statistics,
  summarize,
}

-- What a chain of `<<` puts out.
unfoldable pub put : List (List ℕ) → List ℕ
put [] = []
put (text ∷ texts) = text ++ put texts

-- An `int` in a stream.
unfoldable pub show_int : ℤ → List ℕ
show_int (pos n) = to_string n
show_int (negsuc n) = codes "-" ++ to_string (n + 1)

-- A member of an object, up to its value: the indent and the quoted name.
unfoldable pub member : List ℕ → List ℕ → List ℕ
unfolding put
member indent name = put (indent ∷ codes "\"" ∷ name ∷ codes "\": " ∷ [])

-- A line with a member: `end` is what follows the value.
unfoldable pub number_line : List ℕ → List ℕ → List ℕ → List ℕ → List ℕ
unfolding put member
number_line indent name value end = put (member indent name ∷ value ∷ end ∷ codes "\n" ∷ [])

unfoldable pub text_line : List ℕ → List ℕ → List ℕ → List ℕ
unfolding put member
text_line name value end =
    put (member (codes "    ") name ∷ codes "\"" ∷ value ∷ codes "\"" ∷ end ∷ codes "\n" ∷ [])

unfoldable pub metadata_json : BenchmarkMetadata → List ℕ
unfolding put number_line text_line
metadata_json m = put (
    codes "  \"metadata\": {\n"
    ∷ text_line (codes "timestamp_utc") m.timestamp_utc (codes ",")
    ∷ number_line (codes "    ") (codes "port") (to_string m.port) (codes ",")
    ∷ number_line (codes "    ") (codes "workers") (show_int m.workers) (codes ",")
    ∷ number_line (codes "    ") (codes "request_limit") (to_string m.request_limit) (codes ",")
    ∷ number_line (codes "    ") (codes "duration_ms") (to_string m.duration_ms) (codes ",")
    ∷ number_line (codes "    ") (codes "completed_requests") (to_string m.completed_requests)
        (codes ",")
    ∷ text_line (codes "campaign_data_path") m.campaign_data_path []
    ∷ codes "  },\n"
    ∷ [])

module _ {F : Type 0} (s : Statistics F) where
  open s use {fixed_two}

  -- The lambda of `print_summary`.
  unfoldable pub print_phase : List ℕ → BenchmarkPhaseSummary F → List ℕ
  unfolding put
  print_phase name phase = put (
      codes "  "
      ∷ name
      ∷ codes ": avg="
      ∷ fixed_two phase.avg_ns
      ∷ codes "ns p50="
      ∷ to_string phase.p50_ns
      ∷ codes "ns p95="
      ∷ to_string phase.p95_ns
      ∷ codes "ns p99="
      ∷ to_string phase.p99_ns
      ∷ codes "ns max="
      ∷ to_string phase.max_ns
      ∷ codes "ns\n"
      ∷ [])

  unfoldable pub phase_json : List ℕ → BenchmarkPhaseSummary F → List ℕ
  unfolding put number_line member
  phase_json name phase = put (
      member (codes "    ") name
      ∷ codes "{\n"
      ∷ number_line (codes "      ") (codes "count") (to_string phase.count) (codes ",")
      ∷ number_line (codes "      ") (codes "min_ns") (to_string phase.min_ns) (codes ",")
      ∷ number_line (codes "      ") (codes "max_ns") (to_string phase.max_ns) (codes ",")
      ∷ number_line (codes "      ") (codes "avg_ns") (fixed_two phase.avg_ns) (codes ",")
      ∷ number_line (codes "      ") (codes "p50_ns") (to_string phase.p50_ns) (codes ",")
      ∷ number_line (codes "      ") (codes "p95_ns") (to_string phase.p95_ns) (codes ",")
      ∷ number_line (codes "      ") (codes "p99_ns") (to_string phase.p99_ns) []
      ∷ codes "    }"
      ∷ [])

  unfoldable pub phases_json : BenchmarkSummary F → List ℕ
  unfolding put phase_json
  phases_json b = put (
      codes "  \"phases\": {\n"
      ∷ phase_json (codes "parse") b.parse
      ∷ codes ",\n"
      ∷ phase_json (codes "normalize_validate") b.normalize_validate
      ∷ codes ",\n"
      ∷ phase_json (codes "retrieve") b.retrieve
      ∷ codes ",\n"
      ∷ phase_json (codes "decide") b.decide
      ∷ codes ",\n"
      ∷ phase_json (codes "response_build") b.response_build
      ∷ codes ",\n"
      ∷ phase_json (codes "response_stage") b.response_stage
      ∷ codes ",\n"
      ∷ phase_json (codes "total_internal") b.total_internal
      ∷ codes "\n  }\n"
      ∷ [])

module _ {F : Type 0} ⦃d : Double F⦄ (s : Statistics F) where
  unfoldable pub print_summary : BenchmarkRecorder → List ℕ
  unfolding put print_phase
  print_summary recorder =
      let summary = summarize s recorder in
      put (
        codes "Engine internal benchmark summary\n"
        ∷ codes "requests="
        ∷ to_string summary.request_count
        ∷ codes "\n"
        ∷ print_phase s (codes "parse") summary.parse
        ∷ print_phase s (codes "normalize_validate") summary.normalize_validate
        ∷ print_phase s (codes "retrieve") summary.retrieve
        ∷ print_phase s (codes "decide") summary.decide
        ∷ print_phase s (codes "response_build") summary.response_build
        ∷ print_phase s (codes "response_stage") summary.response_stage
        ∷ print_phase s (codes "total_internal") summary.total_internal
        ∷ [])

  -- The metadata that are written: the time of the call if there is none, and the recorder's count.
  unfoldable pub final_metadata :
      List ℕ → BenchmarkMetadata → BenchmarkSummary F → BenchmarkMetadata
  final_metadata timestamp_now_utc metadata summary = record metadata {
    timestamp_utc =
        if is_empty metadata.timestamp_utc then timestamp_now_utc else metadata.timestamp_utc;
    completed_requests = summary.request_count;
  }

  -- The contents of the file, none if it cannot be opened. The first argument says whether it can,
  -- the second is what `timestamp_now_utc` returns.
  unfoldable pub write_json :
      Bool → List ℕ → BenchmarkMetadata → BenchmarkRecorder → Option (List ℕ)
  unfolding put metadata_json phases_json final_metadata
  write_json is_open timestamp_now_utc metadata recorder =
      let summary = summarize s recorder in
      let final = final_metadata timestamp_now_utc metadata summary in
      if is_open
      then some (put (codes "{\n" ∷ metadata_json final ∷ phases_json s summary ∷ codes "}\n" ∷ []))
      else none
