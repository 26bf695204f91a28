-- ===== src/Bench.antt =====
-- The in-process benchmark: `main` of bench/request_pipeline_bench.cc and its helpers. The generated
-- `SerializeAsString` of a request is a parameter.
mod Examples
pub mod Due
pub mod Count
use rtb_engine.Base.{
  ℕ, zero, suc, ◌+◌, ◌-◌, ◌*◌, ◌%◌, ◌^◌, Bool, true, false, not, ◌&&◌, List, [], ◌∷◌, ◌++◌, Option,
  none, some, if◌then◌else◌, ltb, ◌==◌, length, drop, codes, text_eq, is_empty,
}
use rtb_engine.Types.{CampaignStoreSnapshot, ParsedMessage, default_parsed_message}
use rtb_engine.Numbers.{ℤ, pos, is_digit, scan_digits, to_string}
use rtb_engine.Double.{Double}
use rtb_engine.Rng.{WorkerRng, seed}
use rtb_engine.Protobuf.{Protobuf, BidRequest, auction_type_first_price}
use rtb_engine.Buffer.{ReusableBuffer, empty_buffer}
use rtb_engine.Buffer.Bytes.{be_bytes}
use rtb_engine.Parse.{ParseStatus, ParseResult, parse_bid_request}
use rtb_engine.Store.{load_campaign_store_snapshot}
use rtb_engine.Framing.{stage_response_frame}
use rtb_engine.Request.{HandleRequestStatus, Handled, handle_request}
use rtb_engine.Benchmark.{BenchmarkRecorder, Statistics, new_recorder, record_request}
use rtb_engine.Benchmark.Report.{print_summary}
use rtb_engine.Worker.Frames.{is_ok, drops, no_times, frame_times}
use rtb_engine.Worker.Lifetime.{no_request}

abbrev pub benchmark_request : ℕ → BidRequest
benchmark_request request_index = record {
  request_id = codes "bench-req-" ++ to_string request_index;
  tmax_ms = 100;
  country = codes "US";
  device_type = codes "desktop";
  ad_slot = codes "homepage-top";
  auction_type = auction_type_first_price;
}

-- The payload behind its size, in network order.
unfoldable pub build_framed_request : (BidRequest → List ℕ) → ℕ → List ℕ
build_framed_request serialize_as_string request_index =
    let payload = serialize_as_string (benchmark_request request_index) in
    be_bytes (length payload % 2 ^ 32) ++ payload

pub record BenchArguments : Type 0 where
  pub warmup : ℕ
  pub count : ℕ
  pub seed_value : ℕ
  pub campaign_data_path : List ℕ

-- The settings before the first argument; the path is one that the build fixes.
abbrev pub default_arguments : List ℕ → BenchArguments
default_arguments default_path = record {
  warmup = 1000;
  count = 10000;
  seed_value = 12345;
  campaign_data_path = default_path;
}

abbrev pub bench_usage : List ℕ
bench_usage =
    codes "Usage: rtb_inproc_bench [--warmup N] [--count N] [--seed N] "
    ++ codes "[--campaign-data-path PATH]\n"

-- `parse_u64` of the benchmark: whether the whole text is a number of 64 bits, and the output, which
-- `from_chars` writes also when text follows the digits.
unfoldable pub parse_u64_into : List ℕ → ℕ → Bool × ℕ
unfolding scan_digits
parse_u64_into [] out = (false, out)
parse_u64_into (c ∷ s) out =
    let (value, rest) = scan_digits 0 (c ∷ s) in
    if is_digit c && ltb value (2 ^ 64) then (is_empty rest, value) else (false, out)

-- The setting that an argument with a value changes, none if it is none of them.
unfoldable pub set_argument : List ℕ → List ℕ → BenchArguments → Option BenchArguments
unfolding text_eq parse_u64_into
set_argument arg value settings =
    if text_eq arg (codes "--warmup")
    then some (record settings { warmup = (parse_u64_into value settings.warmup).1 })
    else if text_eq arg (codes "--count")
    then some (record settings { count = (parse_u64_into value settings.count).1 })
    else if text_eq arg (codes "--seed")
    then some (record settings { seed_value = (parse_u64_into value settings.seed_value).1 })
    else if text_eq arg (codes "--campaign-data-path")
    then some (record settings { campaign_data_path = value })
    else none

-- The loop over the arguments; none when the usage is asked for.
unfoldable pub bench_arguments : List (List ℕ) → BenchArguments → Option BenchArguments
unfolding text_eq
bench_arguments [] settings = some settings
bench_arguments (arg ∷ []) settings = if text_eq arg (codes "--help") then none else some settings
bench_arguments (arg ∷ value ∷ rest) settings =
    let one = bench_arguments (value ∷ rest) settings in
    let two = λ (s : BenchArguments). bench_arguments rest s in
    elim (set_argument arg value settings) [
      | some changed ↦ two changed
      | none ↦ if text_eq arg (codes "--help") then none else one
    ]

-- What an iteration changes.
pub record BenchState : Type 0 where
  pub scratch : BidRequest
  pub rng : WorkerRng
  pub write_buffer : ReusableBuffer
  pub recorder : BenchmarkRecorder

module _ {F : Type 0} ⦃d : Double F⦄ (proto : Protobuf F)
    (serialize_as_string : BidRequest → List ℕ) (store : CampaignStoreSnapshot F) (warmup : ℕ) where
  -- From the handled request on; none when the program ends with 1.
  unfoldable pub finish_iteration : (ℕ → ℕ) → ℕ → BenchState → Handled F → Option BenchState
  finish_iteration now request_index state handled =
      let (staged, written) =
        stage_response_frame proto handled.result.response state.write_buffer in
      let emptied : ReusableBuffer = record written { read_offset = 0; write_offset = 0 } in
      let recorder =
        if ltb request_index warmup
        then state.recorder
        else record_request (frame_times now handled) state.recorder in
      if drops handled.result.status
      then none
      else if not staged
      then none
      else some (record state { rng = handled.rng; write_buffer = emptied; recorder = recorder })

  -- The readings of the clock are those of `process_ready_frames`.
  unfoldable pub iteration : (ℕ → ℕ) → ℕ → BenchState → Option BenchState
  iteration now request_index state =
      let payload = drop 4 (build_framed_request serialize_as_string (request_index + 1)) in
      let parsed = parse_bid_request proto payload state.scratch default_parsed_message in
      if not (is_ok parsed.status)
      then none
      else finish_iteration now request_index (record state { scratch = parsed.scratch })
          (handle_request (λ i. now (4 + i)) parsed.out (now 3) store state.rng (some no_times))

  -- The iterations that are left, and the index of the next one; each has its own readings.
  unfoldable pub iterations : (ℕ → ℕ → ℕ) → ℕ → ℕ → BenchState → Option BenchState
  iterations clocks zero request_index state = some state
  iterations clocks (suc left) request_index state =
      let more = λ (next : BenchState). iterations clocks left (1 + request_index) next in
      elim (iteration (clocks request_index) request_index state) [
        | none ↦ none
        | some next ↦ more next
      ]

pub record BenchResult : Type 0 where
  pub exit_code : ℤ
  pub output : List ℕ

module _ {F : Type 0} ⦃d : Double F⦄ (proto : Protobuf F)
    (serialize_as_string : BidRequest → List ℕ) (s : Statistics F) where
  unfoldable pub finish_bench : Option BenchState → BenchResult
  finish_bench none = record { exit_code = pos 1; output = [] }
  finish_bench (some state) = record { exit_code = pos 0; output = print_summary s state.recorder }

  -- The whole run: the contents of the campaign file are those at the path of the settings.
  unfoldable pub run_bench :
      (List ℕ → Option (List ℕ)) → (ℕ → ℕ → ℕ) → Option BenchArguments → BenchResult
  run_bench files clocks none = record { exit_code = pos 0; output = bench_usage }
  run_bench files clocks (some settings) =
      let start : BenchState = record {
        scratch = no_request;
        rng = seed settings.seed_value;
        write_buffer = empty_buffer;
        recorder = new_recorder 0;
      } in
      elim (load_campaign_store_snapshot (files settings.campaign_data_path)) [
        | none ↦ record { exit_code = pos 1; output = [] }
        | some store ↦ finish_bench (
            iterations proto serialize_as_string store settings.warmup clocks
              ((settings.warmup + settings.count) % 2 ^ 64) 0 start)
      ]
