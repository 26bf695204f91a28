-- ===== src/Bench/Examples.antt =====
-- The in-process benchmark (bench/request_pipeline_bench.cc) run on the sample store.
use rtb_engine.Base.{
  ℕ, ◌+◌, ◌*◌, ◌≡◌, refl, List, [], ◌∷◌, Option, none, some, codes, text_eq, ltb, if◌then◌else◌,
}
use rtb_engine.Double.Fixed.{fixed_double}
use rtb_engine.Rng.{seed}
use rtb_engine.Types.{is_eligible, is_connected_tv}
use rtb_engine.Buffer.{readable_bytes, try_extract_frame, reserve}
use rtb_engine.Buffer.Bytes.{overwrite, be_bytes}
use rtb_engine.Parse.{parse_bid_request}
use rtb_engine.Framing.{stage_response_frame}
use rtb_engine.Rng.{xorshift, next_u64, next_unit_double, uniform_index}
use rtb_engine.Normalize.{
  normalize_country_key, normalize_device_type_key, normalize_ad_slot_key, compute_deadline_ns,
  initial_context, build_request_context,
}
use rtb_engine.Store.{find_bucket}
use rtb_engine.Retrieve.{
  campaign_creatives, matches_request, choose_seed_bucket, collect, retrieve_candidates,
}
use rtb_engine.Decision.{
  choose_random_creative, generate_bid_price, consider_bid, consider_campaign, consider_candidate,
  choose_best, make_bid_decision,
}
use rtb_engine.Request.{result_status, validate_request_context, handle_in, handle_request}
use rtb_engine.Response.{build_bid_response}
use rtb_engine.Numbers.{scan_digits, to_string}
use rtb_engine.Protobuf.{BidRequest}
use rtb_engine.Protobuf.Sample.{sample_proto}
use rtb_engine.Store.Sample.{sample_store}
use rtb_engine.Buffer.{empty_buffer}
use rtb_engine.Benchmark.{new_recorder, record_request, completed_requests}
use rtb_engine.Worker.Lifetime.{no_request}
use rtb_engine.Worker.Frames.{frame_times}
use rtb_engine.Bench.{
  default_arguments, build_framed_request, finish_iteration, iteration, BenchArguments, BenchState,
  parse_u64_into, set_argument, bench_arguments, iterations,
}
use rtb_engine.Bench.Due.{recorded_times, parse_times}
use rtb_engine.Bench.Count.{iterations-records}

abbrev defaults : BenchArguments
defaults = default_arguments []

-- A number that cannot be read is passed over.
bad_count :
    bench_arguments (codes "--count" ∷ codes "x" ∷ codes "--warmup" ∷ codes "5" ∷ []) defaults
    ≡ some (record defaults { warmup = 5 })
unfolding bench_arguments set_argument text_eq parse_u64_into scan_digits
bad_count = refl

-- Text behind the digits is passed over, too.
suffixed_count :
    bench_arguments (codes "--count" ∷ codes "12x" ∷ []) defaults
    ≡ some (record defaults { count = 12 })
unfolding bench_arguments set_argument text_eq parse_u64_into scan_digits
suffixed_count = refl

too_large_count :
    bench_arguments (codes "--count" ∷ codes "18446744073709551616" ∷ []) defaults ≡ some defaults
unfolding bench_arguments set_argument text_eq parse_u64_into scan_digits
too_large_count = refl

usage : bench_arguments (codes "--help" ∷ []) defaults ≡ none
unfolding bench_arguments text_eq
usage = refl

abbrev written : BidRequest → List ℕ
written request = request.request_id

abbrev start : BenchState
start = record {
  scratch = no_request;
  rng = seed 1;
  write_buffer = empty_buffer;
  recorder = new_recorder 0;
}

-- The second reading is later by the index of the iteration.
abbrev clocks : ℕ → ℕ → ℕ
clocks i j = 1000 * i + (if ltb 1 j then i + j else j)

abbrev run : Option BenchState
run = iterations sample_proto written sample_store 1 clocks (1 + 2) 0 start

abbrev reached : Option BenchState → BenchState
reached none = start
reached (some state) = state

ends : run ≡ some (reached run)
unfolding iterations iteration finish_iteration build_framed_request to_string frame_times
    record_request try_extract_frame readable_bytes parse_bid_request stage_response_frame reserve
    be_bytes overwrite handle_request handle_in validate_request_context build_request_context
    initial_context compute_deadline_ns normalize_country_key normalize_device_type_key
    normalize_ad_slot_key text_eq is_connected_tv is_eligible retrieve_candidates collect
    choose_seed_bucket find_bucket matches_request campaign_creatives make_bid_decision choose_best
    consider_candidate consider_campaign consider_bid choose_random_creative generate_bid_price
    uniform_index next_unit_double next_u64 xorshift result_status build_bid_response seed
ends = refl

times : parse_times clocks 2 1 ≡ 2 ∷ 3 ∷ []
unfolding parse_times
times = refl

iterations-records_example :
    (completed_requests (reached run).recorder ≡ 2)
    × (recorded_times (reached run).recorder ≡ parse_times clocks 2 1)
iterations-records_example =
    iterations-records sample_proto written sample_store 1 clocks 2 start (reached run) refl ends
