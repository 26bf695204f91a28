-- ===== src/Server/Run.antt =====
-- The signal handling of src/server.cc, and the start of the workers and their threads in its
-- `run_server`. The globals are passed on. The threads are a schedule: which worker's `epoll_wait`
-- returns next, and what. A worker's turn uses the shared recorder, whose
-- mutex orders the turns.
use rtb_engine.Base.{
  ℕ, zero, suc, ◌+◌, ◌*◌, Bool, true, false, not, ◌&&◌, List, [], ◌∷◌, ◌++◌, Option, none, some,
  if◌then◌else◌,
}
use rtb_engine.Types.{CampaignStoreSnapshot}
use rtb_engine.Numbers.{ℤ, pos, negsuc}
use rtb_engine.Double.{Double}
use rtb_engine.Protobuf.{Protobuf}
use rtb_engine.Benchmark.{BenchmarkRecorder}
use rtb_engine.Worker.{WorkerConfig, WorkerRuntime, SystemCall, wake}
use rtb_engine.Worker.Loop.{WaitResult, Looped, run_worker_loop}
use rtb_engine.Worker.Lifetime.{
  StartInput, Started, new_runtime, initialize_worker_runtime, shutdown_worker_runtime,
}
use rtb_engine.Server.{ServerConfig}

-- `g_shutdown_requested` and `g_shutdown_event_fd`.
pub record Globals : Type 0 where
  pub shutdown_requested : Bool
  pub shutdown_event_fd : ℤ

-- `write` to the event descriptor, unless it is negative.
unfoldable pub request_shutdown : ℤ → Globals → Globals × List SystemCall
request_shutdown (negsuc n) globals = (record globals { shutdown_requested = true }, [])
request_shutdown (pos fd) globals =
    (record globals { shutdown_requested = true }, wake (pos fd) ∷ [])

unfoldable pub handle_shutdown_signal : Globals → Globals × List SystemCall
handle_shutdown_signal globals = request_shutdown globals.shutdown_event_fd globals

-- The saved handlers are the kernel's, and not part of the model.
pub record SignalHandlerScope : Type 0 where
  pub previous_event_fd : ℤ
  pub installed : Bool

-- The success of the two calls of `sigaction` that install the handler.
unfoldable pub install_signal_handlers :
    Bool → Bool → ℤ → Globals → Bool × Globals × SignalHandlerScope
install_signal_handlers sigint sigterm shutdown_event_fd globals =
    let previous = globals.shutdown_event_fd in
    if sigint && sigterm
    then (
      true,
      record globals { shutdown_event_fd = shutdown_event_fd },
      record { previous_event_fd = previous; installed = true },
    )
    else (false, globals, record { previous_event_fd = previous; installed = false })

-- The destructor.
unfoldable pub leave_scope : SignalHandlerScope → Globals → Globals
leave_scope scope globals =
    if not scope.installed
    then globals
    else record globals { shutdown_event_fd = scope.previous_event_fd }

abbrev pub worker_config : ServerConfig → ℤ → ℕ → WorkerConfig
worker_config config shutdown_event_fd worker_id = record {
  worker_id = pos worker_id;
  port = config.port;
  epoll_max_events = pos 256;
  connection_buffer_capacity = 16 * 1024;
  max_frame_size = 64 * 1024;
  shutdown_fd = shutdown_event_fd;
  campaign_data_path = config.campaign_data_path;
}

-- The workers that are initialized, or none when one failed; and the calls.
pub record Pool (F : Type 0) : Type 0 where
  pub all_initialized : Bool
  pub runtimes : List (WorkerRuntime F)
  pub calls : List SystemCall

module _ {F : Type 0} where
  unfoldable pub shutdown_all : List (WorkerRuntime F) → List SystemCall
  shutdown_all [] = []
  shutdown_all (runtime ∷ runtimes) =
      let (closed, calls) = shutdown_worker_runtime runtime in calls ++ shutdown_all runtimes

module _ {F : Type 0} ⦃d : Double F⦄ where
  -- What follows `initialize_worker_runtime`; `next` is the rest of the loop.
  unfoldable pub add_worker :
      List (WorkerRuntime F) → Started F → (List (WorkerRuntime F) → Pool F) → Pool F
  add_worker runtimes started next =
      let rest = next (runtimes ++ started.runtime ∷ []) in
      if not started.initialized
      then record {
        all_initialized = false;
        runtimes = [];
        calls = started.calls ++ shutdown_all runtimes;
      }
      else record rest { calls = started.calls ++ rest.calls }

  -- The loop over the worker ids: how many are left, and the id of the next one.
  unfoldable pub start_workers :
      (ℕ → StartInput)
      → ServerConfig
      → ℤ
      → Option BenchmarkRecorder
      → CampaignStoreSnapshot F
      → ℕ
      → ℕ
      → List (WorkerRuntime F)
      → Pool F
  start_workers inputs config shutdown_event_fd recorder store zero worker_id runtimes = record {
    all_initialized = true;
    runtimes = runtimes;
    calls = [];
  }
  start_workers inputs config shutdown_event_fd recorder store (suc left) worker_id runtimes =
      add_worker runtimes
        (initialize_worker_runtime (inputs worker_id)
          (new_runtime (worker_config config shutdown_event_fd worker_id) recorder (some store)))
        (λ more.
          start_workers inputs config shutdown_event_fd recorder store left (1 + worker_id) more)

-- A worker's thread, with what its loop returned.
pub record WorkerThread (F : Type 0) : Type 0 where
  pub runtime : WorkerRuntime F
  pub returned : Option ℤ

-- The threads, the shared recorder, and the calls so far.
pub record Running (F : Type 0) : Type 0 where
  pub threads : List (WorkerThread F)
  pub recorder : Option BenchmarkRecorder
  pub exit_code : ℤ
  pub globals : Globals
  pub calls : List SystemCall

module _ {F : Type 0} where
  abbrev pub new_threads : List (WorkerRuntime F) → List (WorkerThread F)
  new_threads [] = []
  new_threads (runtime ∷ runtimes) =
      record { runtime = runtime; returned = none } ∷ new_threads runtimes

  abbrev pub runtimes_of : List (WorkerThread F) → List (WorkerRuntime F)
  runtimes_of [] = []
  runtimes_of (thread ∷ threads) = thread.runtime ∷ runtimes_of threads

-- The exit code after a loop that returned a value.
unfoldable pub store_exit_code : ℤ → ℤ → ℤ
store_exit_code exit_code (pos zero) = exit_code
store_exit_code exit_code (pos (suc n)) = pos (suc n)
store_exit_code exit_code (negsuc n) = negsuc n

module _ {F : Type 0} ⦃d : Double F⦄ (proto : Protobuf F) (store : CampaignStoreSnapshot F)
    (shutdown_event_fd : ℤ) where
  -- After the turn: a thread whose loop has returned asks for the shutdown.
  unfoldable pub finish_turn : Looped F → Running F → Running F
  finish_turn looped running =
      let (globals, wakes) = request_shutdown shutdown_event_fd running.globals in
      let served : Running F = record running {
        threads = record { runtime = looped.runtime; returned = looped.returned } ∷ running.threads;
        recorder = looped.runtime.benchmark_recorder;
        calls = running.calls ++ looped.calls;
      } in
      elim looped.returned [
        | none ↦ served
        | some value ↦ record served {
          exit_code = store_exit_code running.exit_code value;
          globals = globals;
          calls = served.calls ++ wakes;
        }
      ]

  -- The turn of the thread at an index; one that has returned, or is not there, does nothing.
  unfoldable pub take_turn : ℕ → WaitResult → Running F → List (WorkerThread F) → Running F
  take_turn index wait running [] = record running { threads = [] }
  take_turn zero wait running (thread ∷ threads) = elim thread.returned [
    | some value ↦ record running { threads = thread ∷ threads }
    | none ↦
        finish_turn
          (run_worker_loop proto store (wait ∷ [])
            (record thread.runtime { benchmark_recorder = running.recorder }))
          (record running { threads = threads })
  ]
  take_turn (suc index) wait running (thread ∷ threads) =
      let rest = take_turn index wait running threads in
      record rest { threads = thread ∷ rest.threads }

  unfoldable pub run_threads : List (ℕ × WaitResult) → Running F → Running F
  run_threads [] running = running
  run_threads ((index, wait) ∷ schedule) running =
      run_threads schedule (take_turn index wait running running.threads)
