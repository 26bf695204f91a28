-- ===== src/Worker/Leak.antt =====
-- The whole life of a worker (src/worker_runtime.cc): what it opens, it closes.
use rtb_engine.Base.{
  ℕ, ◌-◌, ◌^◌, ◌<◌, ◌≡◌, refl, sym, ap, ◌∙◌, subst, Bool, true, false, not, ◌&&◌, List, [], ◌∷◌,
  ◌++◌, Option, some, All,
}
use rtb_engine.Types.{CampaignStoreSnapshot}
use rtb_engine.Double.{Double}
use rtb_engine.Protobuf.{Protobuf, SerializesExactly}
use rtb_engine.Worker.{ConnectionMap, WorkerConfig}
use rtb_engine.Benchmark.{BenchmarkRecorder}
use rtb_engine.Worker.Lifetime.{
  StartInput, new_runtime, Started, shutdown_worker_runtime, initialize_worker_runtime,
}
use rtb_engine.Worker.Loop.{WaitResult, Looped, run_worker_loop}
use rtb_engine.Worker.Calls.{open_after, open_after-append}
use rtb_engine.Worker.Connections.{IsDistinct}
use rtb_engine.Worker.Invariant.{IsEntry, IsWorker, IsWait, run_worker_loop-IsWorker}
use rtb_engine.Worker.Descriptors.{owned, IsOther, IsFreshWait, Accounts, run_worker_loop-Accounts}
use rtb_engine.Worker.Start.{
  IsOwn, shutdown-open_after, owns, Opens, initialize_worker_runtime-Opens,
}

unowned : (b : Bool) → (b && not b) ≡ false
unowned true = refl
unowned false = refl

entries-IsOwn : (max : ℕ) (m : ConnectionMap) → All (IsEntry max) m → All IsOwn m
entries-IsOwn max [] h = tt
entries-IsOwn max ((key, c) ∷ m) h = (h.0.0, entries-IsOwn max m h.1)

-- With a serializer that fills an array of the announced size, a maximum frame size below 2 ^ 32 -
-- 4, a buffer capacity below 2 ^ 63, counts of `write` that fit an `ssize_t`, and accepted
-- descriptors that are neither the listener nor the epoll instance, no descriptor that is closed
-- before is left open by a worker that is started, whether or not the start succeeds, run on any
-- events, and shut down.
pub worker_closes :
    {F : Type 0} ⦃d : Double F⦄ (proto : Protobuf F) (store : CampaignStoreSnapshot F)
    → SerializesExactly F proto
    → (input : StartInput) (waits : List WaitResult) (config : WorkerConfig)
      (recorder : Option BenchmarkRecorder)
    → config.max_frame_size < 2 ^ 32 - 4
    → config.connection_buffer_capacity < 2 ^ 63
    → All IsWait waits
    → (let started = initialize_worker_runtime input (new_runtime config recorder (some store)) in
        let looped = run_worker_loop proto store waits started.runtime in
        let (ended, closes) = shutdown_worker_runtime looped.runtime in
        All (IsFreshWait started.runtime.listen_fd started.runtime.epoll_fd) waits
        → (fd : ℕ) → open_after fd false (started.calls ++ (looped.calls ++ closes)) ≡ false)
worker_closes {F} proto store laws input waits config recorder small capacity counts fresh fd =
    open_after-append fd false started.calls _
    ∙ ap (λ b. open_after fd b (looped.calls ++ (shutdown_worker_runtime looped.runtime).1))
        (begun.balance fd)
    ∙ open_after-append fd _ looped.calls _
    ∙ ap (λ b. open_after fd b (shutdown_worker_runtime looped.runtime).1) (ran.balance fd)
    ∙ shutdown-open_after looped.runtime fd _ own
    ∙ ap
        (λ z.
          owned z started.runtime.epoll_fd looped.runtime.connections fd
          && not (
              owned looped.runtime.listen_fd looped.runtime.epoll_fd looped.runtime.connections fd))
        (sym ran.has_fds.listens)
    ∙ ap
        (λ z.
          owned looped.runtime.listen_fd z looped.runtime.connections fd
          && not (
              owned looped.runtime.listen_fd looped.runtime.epoll_fd looped.runtime.connections fd))
        (sym ran.has_fds.polls)
    ∙ unowned (owns looped.runtime fd)
  where
    started : Started F
    started = initialize_worker_runtime input (new_runtime config recorder (some store))

    looped : Looped F
    looped = run_worker_loop proto store waits started.runtime

    begun : Opens config started
    begun = initialize_worker_runtime-Opens input config recorder (some store)

    starting : IsWorker started.runtime
    starting = record {
      small =
          subst (λ (k : WorkerConfig). k.max_frame_size < 2 ^ 32 - 4) (sym begun.same_config) small;
      capacity =
          subst (λ (k : WorkerConfig). k.connection_buffer_capacity < 2 ^ 63)
            (sym begun.same_config) capacity;
      distinct = subst IsDistinct (sym begun.no_connections) tt;
      entries =
          subst (All (IsEntry started.runtime.config.max_frame_size)) (sym begun.no_connections) tt;
    }

    ran :
        Accounts started.runtime.listen_fd started.runtime.epoll_fd started.runtime looped.runtime
          looped.calls
    ran =
        run_worker_loop-Accounts started.runtime.listen_fd started.runtime.epoll_fd proto store laws
          waits started.runtime
          (record {
            listens = refl;
            polls = refl;
            apart =
                subst (All (λ x. IsOther started.runtime.listen_fd started.runtime.epoll_fd x.0))
                  (sym begun.no_connections) tt;
          })
          starting counts fresh

    own : All IsOwn looped.runtime.connections
    own =
        entries-IsOwn looped.runtime.config.max_frame_size looped.runtime.connections
          (run_worker_loop-IsWorker proto store laws waits started.runtime starting counts).entries
