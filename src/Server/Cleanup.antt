-- ===== src/Server/Cleanup.antt =====
-- The start of the workers in `run_server` (src/server.cc) when one of them fails.
use rtb_engine.Base.{
  ℕ, zero, suc, ◌+◌, ◌≡◌, ◌⊎◌, refl, sym, ap, ◌∙◌, subst, inl, inr, Bool, true, false, not, ◌&&◌,
  ◌||◌, List, [], ◌∷◌, ◌++◌, Option, some, arith, ◌==◌, All, All-append, Bool-cases,
}
use mathlib.Core.Bool.{false≢true}
use rtb_engine.Types.{CampaignStoreSnapshot}
use rtb_engine.Numbers.{ℤ, pos}
use rtb_engine.Double.{Double}
use rtb_engine.Benchmark.{BenchmarkRecorder, Statistics}
use rtb_engine.Worker.{WorkerRuntime, SystemCall, close, opens}
use rtb_engine.Worker.Lifetime.{
  StartInput, Started, new_runtime, initialize_worker_runtime, shutdown_worker_runtime,
}
use rtb_engine.Worker.Calls.{open_after, open_after-append}
use rtb_engine.Worker.Start.{
  IsOwn, owns, shutdown-open_after, Opens, initialize_worker_runtime-Opens,
}
use rtb_engine.Server.{ServerConfig}
use rtb_engine.Server.Launch.{ServerInput, ServerRun, recorder_for, worker_count, open_event_fd}
use rtb_engine.Protobuf.{Protobuf}
use rtb_engine.Server.Run.{
  Globals, install_signal_handlers, worker_config, shutdown_all, add_worker, start_workers,
}

-- What is open afterwards was open before, or is opened by the calls.
open_after-cases :
    (calls : List SystemCall) (fd : ℕ) (b : Bool)
    → (open_after fd b calls ≡ open_after fd false calls) ⊎ (b ≡ true)
open_after-cases calls fd true = inr refl
open_after-cases calls fd false = inl refl

module _ {F : Type 0} where
  abbrev owned_by : List (WorkerRuntime F) → ℕ → Bool
  owned_by [] fd = false
  owned_by (r ∷ rs) fd = owns r fd || owned_by rs fd

  abbrev IsStarted : WorkerRuntime F → Type 0
  IsStarted r = r.connections ≡ []

  owned_by-append :
      (rs : List (WorkerRuntime F)) (r : WorkerRuntime F) (fd : ℕ)
      → owned_by (rs ++ r ∷ []) fd ≡ (owned_by rs fd || owns r fd)
  owned_by-append [] r fd = ground arith
  owned_by-append (q ∷ rs) r fd = ground (arith, owned_by-append rs r fd)

  shutdown_all-open_after :
      (rs : List (WorkerRuntime F)) (fd : ℕ) (b : Bool)
      → All IsStarted rs
      → open_after fd b (shutdown_all rs) ≡ (b && not (owned_by rs fd))
  unfolding shutdown_all
  shutdown_all-open_after [] fd b h = ground arith
  shutdown_all-open_after (r ∷ rs) fd b h =
      open_after-append fd b (shutdown_worker_runtime r).1 (shutdown_all rs)
      ∙ shutdown_all-open_after rs fd _ h.1
      ∙ ap (λ o. o && not (owned_by rs fd))
          (shutdown-open_after r fd b (subst (All IsOwn) (sym h.0) tt))
      ∙ ground arith

module _ {F : Type 0} ⦃d : Double F⦄ (inputs : ℕ → StartInput) (config : ServerConfig)
    (shutdown_event_fd : ℤ) (recorder : Option BenchmarkRecorder)
    (store : CampaignStoreSnapshot F) where
  abbrev started_at : ℕ → Started F
  started_at worker_id =
      initialize_worker_runtime (inputs worker_id)
        (new_runtime (worker_config config shutdown_event_fd worker_id) recorder (some store))

  start_workers-closes :
      (left worker_id : ℕ) (rs : List (WorkerRuntime F)) (fd : ℕ) (b : Bool)
      → All IsStarted rs
      → (b ≡ true → owned_by rs fd ≡ true)
      → (start_workers inputs config shutdown_event_fd recorder store left worker_id
          rs).all_initialized
        ≡ false
      → open_after fd b
          (start_workers inputs config shutdown_event_fd recorder store left worker_id rs).calls
        ≡ false
  unfolding start_workers add_worker
  start_workers-closes zero worker_id rs fd b h own = λ failed. absurd (false≢true (sym failed))
  start_workers-closes (suc left) worker_id rs fd b h own =
      elim (Bool-cases (started_at worker_id).initialized) [
        | inl up ↦ rw up (λ failed.
            open_after-append fd b (started_at worker_id).calls _
            ∙ start_workers-closes left (1 + worker_id) (rs ++ (started_at worker_id).runtime ∷ [])
                fd (open_after fd b (started_at worker_id).calls)
                (All-append IsStarted rs ((started_at worker_id).runtime ∷ []) h
                  (begun.no_connections, tt))
                opened failed)
        | inr down ↦ rw down (λ failed.
            open_after-append fd b (started_at worker_id).calls (shutdown_all rs)
            ∙ shutdown_all-open_after rs fd _ h
            ∙ closed down)
      ]
    where
      begun : Opens (worker_config config shutdown_event_fd worker_id) (started_at worker_id)
      begun =
          initialize_worker_runtime-Opens (inputs worker_id)
            (worker_config config shutdown_event_fd worker_id) recorder (some store)

      opened :
          open_after fd b (started_at worker_id).calls ≡ true
          → owned_by (rs ++ (started_at worker_id).runtime ∷ []) fd ≡ true
      opened h = elim (open_after-cases (started_at worker_id).calls fd b) [
        | inl e ↦
            ground
              (arith, owned_by-append rs (started_at worker_id).runtime fd, begun.balance fd, e, h)
        | inr e ↦ ground (arith, owned_by-append rs (started_at worker_id).runtime fd, own e)
      ]

      closed :
          (started_at worker_id).initialized ≡ false
          → (open_after fd b (started_at worker_id).calls && not (owned_by rs fd)) ≡ false
      closed down = elim (open_after-cases (started_at worker_id).calls fd b) [
        | inl e ↦ ground (arith, begun.balance fd, begun.failed down fd, e)
        | inr e ↦ ground (arith, own e)
      ]

-- A run that ends with exit code 1 and no descriptor open that it opened.
pub record EndsClean (run : ServerRun) : Type 0 where
  pub exits : run.exit_code ≡ pos 1
  pub silent : run.output ≡ []
  pub closes : (fd : ℕ) → open_after fd false run.calls ≡ false

module _ {F : Type 0} ⦃d : Double F⦄ (proto : Protobuf F) (s : Statistics F) where
  closes_event_fd :
      (calls : List SystemCall) (n fd : ℕ)
      → ((n == fd) ≡ false → open_after fd false calls ≡ false)
      → open_after fd false ((opens n ∷ calls) ++ close (pos n) ∷ []) ≡ false
  closes_event_fd calls n fd h = elim (Bool-cases (n == fd)) [
    | inl e ↦ open_after-append fd _ calls _ ∙ rw e refl
    | inr e ↦ open_after-append fd _ calls _ ∙ rw e (h e)
  ]

  -- When `eventfd` succeeds, but a signal handler cannot be installed or one of the workers cannot
  -- be initialized, `run_server` prints nothing, returns 1, and has closed all the descriptors
  -- that it and its workers opened.
  pub open_event_fd-EndsClean :
      (input : ServerInput) (config : ServerConfig) (globals : Globals)
      (store : CampaignStoreSnapshot F) (n : ℕ)
      → input.event_fd ≡ some n
      → ((input.sigint && input.sigterm) ≡ false)
        ⊎ ((start_workers input.starts config
              (pos n)
              (recorder_for config)
              store
              (worker_count config.workers)
              0
              []).all_initialized
            ≡ false)
      → (run : ServerRun) × (open_event_fd proto s input config globals store ≡ some run)
        × EndsClean run
  unfolding open_event_fd install_signal_handlers
  open_event_fd-EndsClean input config globals store n e h =
      elim (Bool-cases (input.sigint && input.sigterm)) [
        | inr off ↦
            rw (e, open_event_fd, off)
              (
                _,
                refl,
                record {
                  exits = refl;
                  silent = refl;
                  closes = λ fd. closes_event_fd [] n fd (λ k. refl);
                },
              )
        | inl on ↦
            rw (e, open_event_fd, on, stopped on)
              (
                _,
                refl,
                record {
                  exits = refl;
                  silent = refl;
                  closes = λ fd. closes_event_fd started n fd (λ k.
                      start_workers-closes input.starts config (pos n) (recorder_for config) store
                        (worker_count config.workers) 0 [] fd false tt (λ f. f) (stopped on));
                },
              )
      ]
    where
      stopped :
          (input.sigint && input.sigterm) ≡ true
          → (start_workers input.starts config
              (pos n)
              (recorder_for config)
              store
              (worker_count config.workers)
              0
              []).all_initialized
            ≡ false
      stopped on = elim h [ inl off ↦ absurd (false≢true (sym off ∙ on)) | inr failed ↦ failed ]

      started : List SystemCall
      started =
          (start_workers input.starts config (pos n) (recorder_for config) store
            (worker_count config.workers) 0 []).calls
