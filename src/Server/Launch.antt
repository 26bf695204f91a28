-- ===== src/Server/Launch.antt =====
-- `run_server` and `print_server_usage` of src/server.cc, and `main` of src/main.cc. The opening and
-- the shutdown of the protobuf library are not part of the model.
use rtb_engine.Base.{
  ℕ, Bool, true, false, not, ◌&&◌, List, [], ◌∷◌, ◌++◌, Option, none, some, if◌then◌else◌, ◌==◌,
  codes, is_empty,
}
use rtb_engine.Types.{CampaignStoreSnapshot}
use rtb_engine.Numbers.{ℤ, pos, negsuc, to_string}
use rtb_engine.Double.{Double}
use rtb_engine.Protobuf.{Protobuf}
use rtb_engine.Store.{load_campaign_store_snapshot}
use rtb_engine.Benchmark.{
  BenchmarkMetadata, BenchmarkRecorder, Statistics, new_recorder, completed_requests,
}
use rtb_engine.Benchmark.Report.{put, print_summary, write_json, show_int}
use rtb_engine.Worker.{WorkerRuntime, SystemCall, close, opens}
use rtb_engine.Worker.Loop.{WaitResult}
use rtb_engine.Worker.Lifetime.{StartInput}
use rtb_engine.Server.{ServerConfig, ParseServerConfigStatus, ParsedConfig, parse_server_config}
use rtb_engine.Server.Run.{
  Globals, SignalHandlerScope, WorkerThread, request_shutdown, install_signal_handlers, leave_scope,
  shutdown_all, start_workers, new_threads, runtimes_of, run_threads,
}

-- What the environment answers. The schedule says how the workers' threads go on, `timer_expired`
-- whether the timer of the benchmark expires before the workers end.
pub record ServerInput : Type 0 where
  pub campaign_file : Option (List ℕ)
  pub event_fd : Option ℕ
  pub sigint : Bool
  pub sigterm : Bool
  pub starts : ℕ → StartInput
  pub schedule : List (ℕ × WaitResult)
  pub timer_expired : Bool
  pub json_open : Bool
  pub timestamp_now_utc : List ℕ

pub record ServerRun : Type 0 where
  pub exit_code : ℤ
  pub output : List ℕ
  pub json : Option (List ℕ)
  pub globals : Globals
  pub calls : List SystemCall

abbrev pub fails_with : Globals → List SystemCall → ServerRun
fails_with globals calls = record {
  exit_code = pos 1;
  output = [];
  json = none;
  globals = globals;
  calls = calls;
}

unfoldable pub print_server_usage : List ℕ → List ℕ
unfolding put
print_server_usage program_name = put (
    codes "Usage: "
    ∷ program_name
    ∷ codes " [--port PORT] [--workers COUNT] "
    ∷ codes "[--campaign-data-path PATH] [--benchmark] [--benchmark-json PATH] "
    ∷ codes "[--benchmark-requests COUNT] [--benchmark-duration-ms MS]\n"
    ∷ [])

unfoldable pub listening_line : ServerConfig → List ℕ
unfolding put
listening_line config = put (
    codes "rtb_engine listening on port "
    ∷ to_string config.port
    ∷ codes " with "
    ∷ show_int config.workers
    ∷ codes " worker(s)\n"
    ∷ [])

abbrev pub recorder_for : ServerConfig → Option BenchmarkRecorder
recorder_for config =
    if config.benchmark then some (new_recorder config.benchmark_requests) else none

abbrev pub worker_count : ℤ → ℕ
worker_count (pos n) = n
worker_count (negsuc n) = 0

module _ {F : Type 0} where
  unfoldable pub all_returned : List (WorkerThread F) → Bool
  all_returned [] = true
  all_returned (thread ∷ threads) = elim thread.returned [
    | none ↦ false
    | some value ↦ all_returned threads
  ]

module _ {F : Type 0} ⦃d : Double F⦄ (s : Statistics F) where
  abbrev pub metadata_for : ServerConfig → BenchmarkRecorder → BenchmarkMetadata
  metadata_for config recorder = record {
    timestamp_utc = [];
    port = config.port;
    workers = config.workers;
    request_limit = config.benchmark_requests;
    duration_ms = config.benchmark_duration_ms;
    completed_requests = completed_requests recorder;
    campaign_data_path = config.campaign_data_path;
  }

  -- What the benchmark prints, and the file that it writes.
  unfoldable pub report :
      ServerInput → ServerConfig → Option BenchmarkRecorder → List ℕ × Option (List ℕ)
  report input config none = ([], none)
  report input config (some recorder) = (
    print_summary s recorder,
    (if is_empty config.benchmark_json_path
        then none
        else write_json s input.json_open input.timestamp_now_utc (metadata_for config recorder)
            recorder),
  )

module _ {F : Type 0} ⦃d : Double F⦄ (proto : Protobuf F) (s : Statistics F) where
  -- The threads from their start to their end, the report, and the end of the server; none while a
  -- thread goes on.
  unfoldable pub serve :
      ServerInput
      → ServerConfig
      → CampaignStoreSnapshot F
      → ℕ
      → Globals
      → Option BenchmarkRecorder
      → List (WorkerRuntime F)
      → Option ServerRun
  serve input config store event_fd globals recorder runtimes =
      let running = run_threads proto store (pos event_fd) input.schedule (record {
        threads = new_threads runtimes;
        recorder = recorder;
        exit_code = pos 0;
        globals = globals;
        calls = [];
      }) in
      let timed =
        config.benchmark && not (config.benchmark_duration_ms == 0) && input.timer_expired in
      let (requested, wakes) = request_shutdown (pos event_fd) running.globals in
      let (summary, json) = report s input config running.recorder in
      if all_returned running.threads
      then some (record {
        exit_code = running.exit_code;
        output = listening_line config ++ summary;
        json = json;
        globals = record (if timed then requested else running.globals) {
          shutdown_event_fd = negsuc 0;
        };
        calls =
            running.calls
            ++ ((if timed then wakes else [])
                ++ (shutdown_all (runtimes_of running.threads) ++ close (pos event_fd) ∷ []));
      })
      else none

  abbrev pub behind : List SystemCall → SignalHandlerScope → ServerRun → ServerRun
  behind calls scope run = record run {
    globals = leave_scope scope run.globals;
    calls = calls ++ run.calls;
  }

  abbrev pub behind_all : List SystemCall → SignalHandlerScope → Option ServerRun → Option ServerRun
  behind_all calls scope none = none
  behind_all calls scope (some run) = some (behind calls scope run)

  -- From `eventfd` on.
  unfoldable pub open_event_fd :
      ServerInput → ServerConfig → Globals → CampaignStoreSnapshot F → Option ServerRun
  open_event_fd input config globals store = elim input.event_fd [
    | none ↦ some (fails_with globals [])
    | some fd ↦
        let (installed, handled, scope) =
          install_signal_handlers input.sigint input.sigterm (pos fd) globals in
        let none_left : Globals = record handled { shutdown_event_fd = negsuc 0 } in
        let recorder = recorder_for config in
        let pool =
          start_workers input.starts config (pos fd) recorder store (worker_count config.workers) 0
            [] in
        if not installed
        then some (behind (opens fd ∷ []) scope (fails_with none_left (close (pos fd) ∷ [])))
        else if not pool.all_initialized
        then some (
            behind (opens fd ∷ pool.calls) scope
              (fails_with (record none_left { shutdown_requested = false }) (close (pos fd) ∷ [])))
        else behind_all (opens fd ∷ pool.calls) scope (
            serve input config store fd (record handled { shutdown_requested = false }) recorder
              pool.runtimes)
  ]

  unfoldable pub run_server : ServerInput → Globals → ServerConfig → Option ServerRun
  run_server input globals config =
      if config.port == 0
      then some (fails_with globals [])
      else if worker_count config.workers == 0
      then some (fails_with globals [])
      else elim (load_campaign_store_snapshot input.campaign_file) [
        | none ↦ some (fails_with globals [])
        | some store ↦ open_event_fd input config globals store
      ]

  -- What the program writes to its two streams, and its exit code.
  pub record MainResult : Type 0 where
    pub exit_code : ℤ
    pub output : List ℕ
    pub errors : List ℕ

  abbrev pub served_main : Option ServerRun → Option MainResult
  served_main none = none
  served_main (some run) =
      some (record { exit_code = run.exit_code; output = run.output; errors = [] })

  -- The configuration that the parser leaves decides how the program goes on.
  unfoldable pub dispatch : ServerInput → List ℕ → ParsedConfig → Option MainResult
  dispatch input program_name parsed = elim parsed.status [
    | ParseServerConfigStatus.help_requested ↦
        some (record { exit_code = pos 0; output = print_server_usage program_name; errors = [] })
    | ParseServerConfigStatus.invalid_argument ↦ some (record {
      exit_code = pos 1;
      output = [];
      errors = (codes "Error: " ++ (parsed.error ++ codes "\n")) ++ print_server_usage program_name;
    })
    | ParseServerConfigStatus.ok ↦ served_main (
        run_server input (record { shutdown_requested = false; shutdown_event_fd = negsuc 0 })
          parsed.out)
  ]

  -- `args` are the arguments behind the program's name.
  unfoldable pub main : ServerInput → List ℕ → List ℕ → List (List ℕ) → Option MainResult
  main input default_campaign_data_path program_name args =
      dispatch input program_name (parse_server_config default_campaign_data_path args)
