-- ===== src/Worker/Invariant.antt =====
-- What holds of a worker between two events of `run_worker_loop` (src/worker_runtime.cc).
use rtb_engine.Base.{
  ℕ, ◌-◌, ◌^◌, ◌<◌, ◌≡◌, refl, sym, ap, ◌∙◌, subst, inl, inr, Bool, true, false, List, [], ◌∷◌,
  arith, All, Bool-cases, Option-cases,
}
use rtb_engine.Types.{CampaignStoreSnapshot}
use rtb_engine.Numbers.{pos}
use rtb_engine.Double.{Double}
use rtb_engine.Protobuf.{Protobuf, SerializesExactly}
use rtb_engine.Buffer.{need_more_data, empty_buffer, reserve, readable_bytes, try_extract_frame}
use rtb_engine.Buffer.Inv.{IsValid, reserve-IsValid}
use rtb_engine.Worker.{
  ConnectionState, WorkerConfig, WorkerRuntime, erase, find, assign, close_connection,
}
use rtb_engine.Worker.Client.{Served}
use rtb_engine.Worker.Loop.{
  AcceptResult, accepted, would_block, accept_error, PollEvent, WaitResult, ready, interrupted,
  wait_error, is_fd, Looped, new_connection, accept_client, accept_loop, finish_client,
  handle_client, handle_event, and_then, handle_events, run_worker_loop,
}
use rtb_engine.Worker.Flush.{IsCount}
use rtb_engine.Worker.Serving.{Stays, Serves}
use rtb_engine.Worker.Event.{serve_client-Serves}
use rtb_engine.Worker.Connections.{
  IsDistinct, erase-IsDistinct, assign-IsDistinct, emplace-IsDistinct, erase-All, assign-All,
  emplace-All, find-All, erase-assign,
}

-- An entry of the connection map: it stands under its own descriptor, its buffers are in order, and
-- it has a response to write or no whole frame to answer.
abbrev pub IsEntry : ℕ → ℕ × ConnectionState → Type 0
IsEntry max (key, c) = (c.fd ≡ pos key) × Stays max c false

pub record IsWorker {F : Type 0} (r : WorkerRuntime F) : Type 0 where
  pub small : r.config.max_frame_size < 2 ^ 32 - 4
  pub capacity : r.config.connection_buffer_capacity < 2 ^ 63
  pub distinct : IsDistinct r.connections
  pub entries : All (IsEntry r.config.max_frame_size) r.connections

-- The counts that `write` returns are in range.
abbrev pub IsEvent : PollEvent → Type 0
IsEvent event = All IsCount event.input.writes

abbrev pub IsWait : WaitResult → Type 0
IsWait (ready events) = All IsEvent events
IsWait interrupted = Unit
IsWait wait_error = Unit

reserved_quiet : (n : ℕ) → readable_bytes (reserve empty_buffer n) ≡ 0
unfolding reserve readable_bytes
reserved_quiet n = ground arith

reserved_waits : (n max : ℕ) → (try_extract_frame (reserve empty_buffer n) max).0 ≡ need_more_data
unfolding try_extract_frame
reserved_waits n max = ground (arith, reserved_quiet n)

empty-IsValid : IsValid empty_buffer
empty-IsValid = omega arith

module _ {F : Type 0} where
  with_connections :
      (r r' : WorkerRuntime F)
      → IsWorker r
      → r'.config ≡ r.config
      → IsDistinct r'.connections
      → All (IsEntry r.config.max_frame_size) r'.connections
      → IsWorker r'
  with_connections r r' w same d e = record {
    small = subst (λ (k : WorkerConfig). k.max_frame_size < 2 ^ 32 - 4) (sym same) w.small;
    capacity =
        subst (λ (k : WorkerConfig). k.connection_buffer_capacity < 2 ^ 63) (sym same) w.capacity;
    distinct = d;
    entries =
        subst (λ (k : WorkerConfig). All (IsEntry k.max_frame_size) r'.connections) (sym same) e;
  }

  new_connection-IsEntry :
      (r : WorkerRuntime F) (fd : ℕ)
      → IsWorker r
      → IsEntry r.config.max_frame_size (fd, new_connection r fd)
  new_connection-IsEntry r fd w = (
    refl,
    (
      record {
        read_valid =
            reserve-IsValid empty_buffer r.config.connection_buffer_capacity empty-IsValid
              w.capacity;
        write_valid =
            reserve-IsValid empty_buffer r.config.connection_buffer_capacity empty-IsValid
              w.capacity;
        pending = ground (arith, reserved_quiet r.config.connection_buffer_capacity);
      },
      inr (reserved_waits r.config.connection_buffer_capacity r.config.max_frame_size),
    ),
  )

  pub accept_client-IsWorker :
      (fd : ℕ) (added : Bool) (r : WorkerRuntime F)
      → IsWorker r
      → IsWorker (accept_client fd added r).0
  unfolding accept_client
  accept_client-IsWorker fd true r w =
      with_connections r _ w refl (emplace-IsDistinct fd _ r.connections w.distinct) (
        emplace-All (IsEntry r.config.max_frame_size) fd (new_connection r fd) r.connections
          (new_connection-IsEntry r fd w) w.entries)
  accept_client-IsWorker fd false r w =
      with_connections r _ w refl
        (erase-IsDistinct fd _ (emplace-IsDistinct fd _ r.connections w.distinct))
        (erase-All (IsEntry r.config.max_frame_size) fd _ (
          emplace-All (IsEntry r.config.max_frame_size) fd (new_connection r fd) r.connections
            (new_connection-IsEntry r fd w) w.entries))

  accept_loop-IsWorker :
      (results : List AcceptResult) (r : WorkerRuntime F)
      → IsWorker r
      → IsWorker (accept_loop results r).0
  unfolding accept_loop
  accept_loop-IsWorker [] r w = w
  accept_loop-IsWorker (accepted fd added ∷ results) r w =
      accept_loop-IsWorker results (accept_client fd added r).0
        (accept_client-IsWorker fd added r w)
  accept_loop-IsWorker (would_block ∷ results) r w = w
  accept_loop-IsWorker (accept_error ∷ results) r w = w

module _ {F : Type 0} ⦃d : Double F⦄ (proto : Protobuf F) (store : CampaignStoreSnapshot F)
    (laws : SerializesExactly F proto) where
  pub finish_client-IsWorker :
      (r : WorkerRuntime F) (c : ConnectionState) (fd : ℕ) (s : Served F)
      → IsWorker r
      → c.fd ≡ pos fd
      → Serves proto store r c s
      → IsWorker (finish_client fd s).runtime
  unfolding finish_client close_connection
  finish_client-IsWorker r c fd s w same_fd e = elim (Bool-cases s.should_close) [
    | inl gone ↦ rw gone (
        with_connections r _ w e.keeps.same_config
          (subst IsDistinct (sym erased) (erase-IsDistinct fd r.connections w.distinct))
          (subst (All (IsEntry r.config.max_frame_size)) (sym erased)
            (erase-All (IsEntry r.config.max_frame_size) fd r.connections w.entries)))
    | inr kept ↦ rw kept (
        with_connections r _ w e.keeps.same_config
          (assign-IsDistinct fd s.connection s.runtime.connections
            (subst IsDistinct (sym e.keeps.same_connections) w.distinct))
          (assign-All (IsEntry r.config.max_frame_size) fd s.connection s.runtime.connections
            (e.same_fd ∙ same_fd, subst (Stays r.config.max_frame_size s.connection) kept e.outcome)
            (subst (All (IsEntry r.config.max_frame_size)) (sym e.keeps.same_connections)
              w.entries)))
  ]
    where
      erased : erase fd (assign fd s.connection s.runtime.connections) ≡ erase fd r.connections
      erased =
          erase-assign fd s.connection s.runtime.connections
          ∙ ap (erase fd) e.keeps.same_connections

  handle_client-IsWorker :
      (event : PollEvent) (r : WorkerRuntime F)
      → IsWorker r
      → IsEvent event
      → IsWorker (handle_client proto store event r).runtime
  unfolding handle_client
  handle_client-IsWorker event r w counts = elim (Option-cases (find event.fd r.connections)) [
    | inl e ↦ rw (e, handle_client) w
    | inr (c, e) ↦
        let entry =
          find-All (IsEntry r.config.max_frame_size) event.fd c r.connections w.entries e in
        rw (e, handle_client)
          (finish_client-IsWorker r c event.fd _ w entry.0 (
            serve_client-Serves proto store laws r c entry.1.0 w.small event.input event.bits
              counts))
  ]

  pub handle_event-IsWorker :
      (event : PollEvent) (r : WorkerRuntime F)
      → IsWorker r
      → IsEvent event
      → IsWorker (handle_event proto store event r).runtime
  unfolding handle_event
  handle_event-IsWorker event r w counts = elim (Bool-cases (is_fd r.config.shutdown_fd event.fd)) [
    | inl e ↦ rw e w
    | inr e ↦ elim (Bool-cases (is_fd r.listen_fd event.fd)) [
      | inl l ↦ rw (e, l) (accept_loop-IsWorker event.accepts r w)
      | inr l ↦ rw (e, l) (handle_client-IsWorker event r w counts)
    ]
  ]

  and_then-IsWorker :
      (first : Looped F) (next : WorkerRuntime F → Looped F)
      → IsWorker first.runtime
      → (IsWorker first.runtime → IsWorker (next first.runtime).runtime)
      → IsWorker (and_then first next).runtime
  and_then-IsWorker first next w on = elim (Option-cases first.returned) [
    | inl e ↦ rw e (on w)
    | inr (value, e) ↦ rw e w
  ]

  pub handle_events-IsWorker :
      (events : List PollEvent) (r : WorkerRuntime F)
      → IsWorker r
      → All IsEvent events
      → IsWorker (handle_events proto store events r).runtime
  unfolding handle_events
  handle_events-IsWorker [] r w h = w
  handle_events-IsWorker (event ∷ events) r w h =
      and_then-IsWorker (handle_event proto store event r) (λ x. handle_events proto store events x)
        (handle_event-IsWorker event r w h.0)
        (λ v. handle_events-IsWorker events (handle_event proto store event r).runtime v h.1)

  -- With a serializer that fills an array of the announced size and counts of `write` that fit an
  -- `ssize_t`, any events keep the invariant of a worker: at most one entry for a descriptor, each
  -- under its own descriptor, with valid buffers, a pending flag that agrees with the write
  -- buffer, and a response to write or no whole frame to answer.
  pub run_worker_loop-IsWorker :
      (waits : List WaitResult) (r : WorkerRuntime F)
      → IsWorker r
      → All IsWait waits
      → IsWorker (run_worker_loop proto store waits r).runtime
  unfolding run_worker_loop
  run_worker_loop-IsWorker [] r w h = w
  run_worker_loop-IsWorker (ready events ∷ waits) r w h =
      and_then-IsWorker (handle_events proto store events r)
        (λ x. run_worker_loop proto store waits x) (handle_events-IsWorker events r w h.0)
        (λ v. run_worker_loop-IsWorker waits (handle_events proto store events r).runtime v h.1)
  run_worker_loop-IsWorker (interrupted ∷ waits) r w h = run_worker_loop-IsWorker waits r w h.1
  run_worker_loop-IsWorker (wait_error ∷ waits) r w h = run_worker_loop-IsWorker waits r w h.1
