-- ===== src/Worker/Loop.antt =====
-- `run_worker_loop` of src/worker_runtime.cc. Its environment is the list of what `epoll_wait`
-- returns; with each event stands what the operating system answers while it is handled.
use rtb_engine.Base.{
  ℕ, ◌+◌, ◌%◌, ◌^◌, Bool, true, false, List, [], ◌∷◌, ◌++◌, Option, none, some, if◌then◌else◌, ◌==◌,
}
use rtb_engine.Types.{CampaignStoreSnapshot}
use rtb_engine.Numbers.{ℤ, pos, negsuc}
use rtb_engine.Double.{Double}
use rtb_engine.Protobuf.{Protobuf}
use rtb_engine.Buffer.{empty_buffer, reserve}
use rtb_engine.Worker.{
  ConnectionState, WorkerRuntime, SystemCall, register, close, opens, erase, find, assign, emplace,
  close_connection,
}
use rtb_engine.Worker.Client.{EventBits, ClientInput, Served, serve_client}

-- A descriptor with the success of the `epoll_ctl` that adds it, or -1 with `EAGAIN` or with another
-- `errno`.
pub data AcceptResult : Type 0 where
  accepted : ℕ → Bool → AcceptResult
  would_block accept_error : AcceptResult

-- An event carries a descriptor that was registered, so it is not negative.
pub record PollEvent : Type 0 where
  pub fd : ℕ
  pub bits : EventBits
  pub input : ClientInput
  pub accepts : List AcceptResult

-- The events, or -1 with `EINTR` or with another `errno`.
pub data WaitResult : Type 0 where
  ready : List PollEvent → WaitResult
  interrupted wait_error : WaitResult

abbrev pub is_fd : ℤ → ℕ → Bool
is_fd (pos n) fd = n == fd
is_fd (negsuc n) fd = false

-- The worker after some events, with the value that the loop returned if it did.
pub record Looped (F : Type 0) : Type 0 where
  pub returned : Option ℤ
  pub runtime : WorkerRuntime F
  pub calls : List SystemCall

module _ {F : Type 0} where
  abbrev pub new_connection : WorkerRuntime F → ℕ → ConnectionState
  new_connection runtime fd = record {
    fd = pos fd;
    connection_id = runtime.next_connection_id;
    request_sequence = 0;
    read_buffer = reserve empty_buffer runtime.config.connection_buffer_capacity;
    write_buffer = reserve empty_buffer runtime.config.connection_buffer_capacity;
    has_pending_write = false;
  }

  -- A client that was accepted, with the success of its registration.
  unfoldable pub accept_client : ℕ → Bool → WorkerRuntime F → WorkerRuntime F × List SystemCall
  accept_client fd added runtime =
      let connections = emplace fd (new_connection runtime fd) runtime.connections in
      let emplaced : WorkerRuntime F = record runtime {
        next_connection_id = (runtime.next_connection_id + 1) % 2 ^ 64;
        connections = connections;
      } in
      if added then (emplaced, opens fd ∷ register (pos fd) true ∷ []) else (
        record emplaced { connections = erase fd connections },
        opens fd ∷ register (pos fd) false ∷ close (pos fd) ∷ [],
      )

  unfoldable pub accept_loop :
      List AcceptResult → WorkerRuntime F → WorkerRuntime F × List SystemCall
  accept_loop [] runtime = (runtime, [])
  accept_loop (accepted fd added ∷ results) runtime =
      let (one, calls) = accept_client fd added runtime in
      let (all, more) = accept_loop results one in (all, calls ++ more)
  accept_loop (would_block ∷ results) runtime = (runtime, [])
  accept_loop (accept_error ∷ results) runtime = (runtime, [])

  abbrev pub goes_on : WorkerRuntime F × List SystemCall → Looped F
  goes_on (runtime, calls) = record { returned = none; runtime = runtime; calls = calls }

  -- What is left to do, unless the loop has returned.
  abbrev pub and_then : Looped F → (WorkerRuntime F → Looped F) → Looped F
  and_then first next =
      let rest = next first.runtime in
      elim first.returned [
        | some value ↦ first
        | none ↦ record rest { calls = first.calls ++ rest.calls }
      ]

  -- What follows the handling of a client.
  unfoldable pub finish_client : ℕ → Served F → Looped F
  finish_client fd served =
      let kept : WorkerRuntime F = record served.runtime {
        connections = assign fd served.connection served.runtime.connections;
      } in
      let (closed, calls) = close_connection kept (pos fd) in
      if served.should_close
      then goes_on (closed, served.calls ++ calls)
      else goes_on (kept, served.calls)

-- `store` is the snapshot that `campaign_store` points to.
module _ {F : Type 0} ⦃d : Double F⦄ (proto : Protobuf F) (store : CampaignStoreSnapshot F) where
  unfoldable pub handle_client : PollEvent → WorkerRuntime F → Looped F
  handle_client event runtime = elim (find event.fd runtime.connections) [
    | none ↦ goes_on (runtime, [])
    | some connection ↦
        finish_client event.fd (serve_client proto store event.bits event.input runtime connection)
  ]

  unfoldable pub handle_event : PollEvent → WorkerRuntime F → Looped F
  handle_event event runtime =
      if is_fd runtime.config.shutdown_fd event.fd
      then record { returned = some (pos 0); runtime = runtime; calls = [] }
      else if is_fd runtime.listen_fd event.fd
      then goes_on (accept_loop event.accepts runtime)
      else handle_client event runtime

  unfoldable pub handle_events : List PollEvent → WorkerRuntime F → Looped F
  handle_events [] runtime = goes_on (runtime, [])
  handle_events (event ∷ events) runtime =
      and_then (handle_event event runtime) (λ r. handle_events events r)

  unfoldable pub run_worker_loop : List WaitResult → WorkerRuntime F → Looped F
  run_worker_loop [] runtime = goes_on (runtime, [])
  run_worker_loop (ready events ∷ waits) runtime =
      and_then (handle_events events runtime) (λ r. run_worker_loop waits r)
  run_worker_loop (interrupted ∷ waits) runtime = run_worker_loop waits runtime
  run_worker_loop (wait_error ∷ waits) runtime = run_worker_loop waits runtime
