-- ===== src/Worker/Descriptors.antt =====
-- The descriptors that a worker (src/worker_runtime.cc) has open.
use rtb_engine.Base.{
  ℕ, ◌≡◌, refl, sym, ap, ◌∙◌, subst, inl, inr, Bool, true, false, not, ◌&&◌, ◌||◌, List, [], ◌∷◌,
  ◌++◌, arith, if◌then◌else◌, ◌==◌, All, Bool-cases, Option-cases,
}
use rtb_engine.Types.{CampaignStoreSnapshot}
use rtb_engine.Numbers.{ℤ}
use rtb_engine.Double.{Double}
use rtb_engine.Protobuf.{Protobuf, SerializesExactly}
use rtb_engine.Worker.{
  ConnectionState, ConnectionMap, WorkerRuntime, SystemCall, erase, find, assign, emplace,
  close_connection,
}
use rtb_engine.Worker.Client.{Served}
use rtb_engine.Worker.Loop.{
  AcceptResult, accepted, would_block, accept_error, PollEvent, WaitResult, ready, interrupted,
  wait_error, is_fd, Looped, new_connection, accept_client, accept_loop, and_then, finish_client,
  handle_client, handle_event, handle_events, run_worker_loop,
}
use rtb_engine.Worker.Calls.{open_after, open_after-append}
use rtb_engine.Worker.Serving.{Serves}
use rtb_engine.Worker.Event.{serve_client-Serves}
use rtb_engine.Worker.Connections.{
  has, has-erase, has-assign, has-emplace, erase-All, assign-All, emplace-All, find-All,
  erase-assign,
}
use rtb_engine.Worker.Invariant.{
  IsEntry, IsWorker, IsEvent, IsWait, handle_event-IsWorker, handle_events-IsWorker,
}

module _ (listen_fd epoll_fd : ℤ) where
  -- Whether the descriptor is the listener's, the epoll instance's or that of a connection.
  abbrev pub owned : ConnectionMap → ℕ → Bool
  owned m fd = is_fd listen_fd fd || (is_fd epoll_fd fd || has fd m)

  -- A descriptor that is not the listener's nor the epoll instance's, as the kernel gives them out.
  abbrev pub IsOther : ℕ → Type 0
  IsOther fd = (is_fd listen_fd fd ≡ false) × (is_fd epoll_fd fd ≡ false)

  abbrev pub IsFresh : AcceptResult → Type 0
  IsFresh (accepted fd added) = IsOther fd
  IsFresh would_block = Unit
  IsFresh accept_error = Unit

  abbrev pub IsFreshWait : WaitResult → Type 0
  IsFreshWait (ready events) = All (λ (e : PollEvent). All IsFresh e.accepts) events
  IsFreshWait interrupted = Unit
  IsFreshWait wait_error = Unit

  pub record HasFds {F : Type 0} (r : WorkerRuntime F) : Type 0 where
    pub listens : r.listen_fd ≡ listen_fd
    pub polls : r.epoll_fd ≡ epoll_fd
    pub apart : All (λ (x : ℕ × ConnectionState). IsOther x.0) r.connections

  -- The calls lead from the descriptors of one runtime to those of the other.
  pub record Accounts {F : Type 0} (r r' : WorkerRuntime F) (calls : List SystemCall) : Type 0 where
    pub has_fds : HasFds r'
    pub balance : (fd : ℕ) → open_after fd (owned r.connections fd) calls ≡ owned r'.connections fd

  IsOther-at : (fd k : ℕ) → (fd == k) ≡ true → IsOther fd → IsOther k
  IsOther-at fd k e o = let same : fd ≡ k = ground (arith, e) in subst IsOther same o

  module _ {F : Type 0} where
    Accounts-refl : (r : WorkerRuntime F) → HasFds r → Accounts r r []
    Accounts-refl r h = record { has_fds = h; balance = λ fd. refl }

    Accounts-append :
        (a b c : WorkerRuntime F) (k l : List SystemCall)
        → Accounts a b k
        → Accounts b c l
        → Accounts a c (k ++ l)
    Accounts-append a b c k l p q = record {
      has_fds = q.has_fds;
      balance = λ fd.
          open_after-append fd _ k l ∙ ap (λ o. open_after fd o l) (p.balance fd) ∙ q.balance fd;
    }

    accept_client-Accounts :
        (n : ℕ) (added : Bool) (r : WorkerRuntime F)
        → HasFds r
        → IsOther n
        → Accounts r (accept_client n added r).0 (accept_client n added r).1
    unfolding accept_client
    accept_client-Accounts n true r h o = record {
      has_fds = record {
        listens = h.listens;
        polls = h.polls;
        apart = emplace-All (λ x. IsOther x.0) n (new_connection r n) r.connections o h.apart;
      };
      balance = λ fd. ground (arith, has-emplace fd n (new_connection r n) r.connections);
    }
    accept_client-Accounts n false r h o = record {
      has_fds = record {
        listens = h.listens;
        polls = h.polls;
        apart =
            erase-All (λ x. IsOther x.0) n _
              (emplace-All (λ x. IsOther x.0) n (new_connection r n) r.connections o h.apart);
      };
      balance = λ fd. ground (
        arith,
        has-emplace fd n (new_connection r n) r.connections,
        has-erase fd n (emplace n (new_connection r n) r.connections),
        IsOther-at n fd,
        o,
      );
    }

    accept_loop-Accounts :
        (results : List AcceptResult) (r : WorkerRuntime F)
        → HasFds r
        → All IsFresh results
        → Accounts r (accept_loop results r).0 (accept_loop results r).1
    unfolding accept_loop
    accept_loop-Accounts [] r h o = Accounts-refl r h
    accept_loop-Accounts (accepted n added ∷ results) r h o =
        let one = accept_client-Accounts n added r h o.0 in
        Accounts-append r (accept_client n added r).0 _ (accept_client n added r).1 _ one
          (accept_loop-Accounts results (accept_client n added r).0 one.has_fds o.1)
    accept_loop-Accounts (would_block ∷ results) r h o = Accounts-refl r h
    accept_loop-Accounts (accept_error ∷ results) r h o = Accounts-refl r h

    and_then-Accounts :
        (r : WorkerRuntime F) (first : Looped F) (next : WorkerRuntime F → Looped F)
        → Accounts r first.runtime first.calls
        → (HasFds first.runtime
            → Accounts first.runtime (next first.runtime).runtime (next first.runtime).calls)
        → Accounts r (and_then first next).runtime (and_then first next).calls
    and_then-Accounts r first next a on = elim (Option-cases first.returned) [
      | inl e ↦ rw e (Accounts-append r first.runtime _ first.calls _ a (on a.has_fds))
      | inr (value, e) ↦ rw e a
    ]

module _ (listen_fd epoll_fd : ℤ) {F : Type 0} ⦃d : Double F⦄ (proto : Protobuf F)
    (store : CampaignStoreSnapshot F) (laws : SerializesExactly F proto) where
  finish_client-Accounts :
      (r : WorkerRuntime F) (c : ConnectionState) (n : ℕ) (s : Served F)
      → HasFds listen_fd epoll_fd r
      → IsOther listen_fd epoll_fd n
      → Serves proto store r c s
      → Accounts listen_fd epoll_fd r (finish_client n s).runtime (finish_client n s).calls
  unfolding finish_client close_connection
  finish_client-Accounts r c n s h o e = elim (Bool-cases s.should_close) [
    | inl gone ↦ rw gone (record {
      has_fds = record {
        listens = e.keeps.same_listen_fd ∙ h.listens;
        polls = e.keeps.same_epoll_fd ∙ h.polls;
        apart = erase-All (λ x. IsOther listen_fd epoll_fd x.0) n _ assigned;
      };
      balance = λ fd.
          open_after-append fd _ s.calls _
          ∙ ap (λ b. if n == fd then false else b) (e.talk.still fd _)
          ∙ ground (arith, removed fd, IsOther-at listen_fd epoll_fd n fd, o);
    })
    | inr kept ↦ rw kept (record {
      has_fds = record {
        listens = e.keeps.same_listen_fd ∙ h.listens;
        polls = e.keeps.same_epoll_fd ∙ h.polls;
        apart = assigned;
      };
      balance = λ fd.
          e.talk.still fd _
          ∙ ap (λ b. is_fd listen_fd fd || (is_fd epoll_fd fd || b))
              (ap (has fd) (sym e.keeps.same_connections)
                ∙ sym (has-assign fd n s.connection s.runtime.connections));
    })
  ]
    where
      assigned :
          All
            (λ (x : ℕ × ConnectionState). IsOther listen_fd epoll_fd x.0)
            (assign n s.connection s.runtime.connections)
      assigned =
          assign-All (λ x. IsOther listen_fd epoll_fd x.0) n s.connection s.runtime.connections o
            (subst (All (λ (x : ℕ × ConnectionState). IsOther listen_fd epoll_fd x.0))
              (sym e.keeps.same_connections) h.apart)

      removed :
          (fd : ℕ)
          → has fd (erase n (assign n s.connection s.runtime.connections))
            ≡ (has fd r.connections && not (n == fd))
      removed fd =
          ap (has fd) (
            erase-assign n s.connection s.runtime.connections
            ∙ ap (erase n) e.keeps.same_connections)
          ∙ has-erase fd n r.connections

  handle_client-Accounts :
      (event : PollEvent) (r : WorkerRuntime F)
      → HasFds listen_fd epoll_fd r
      → IsWorker r
      → IsEvent event
      → Accounts listen_fd epoll_fd r
          (handle_client proto store event r).runtime
          (handle_client proto store event r).calls
  unfolding handle_client
  handle_client-Accounts event r h w counts = elim (Option-cases (find event.fd r.connections)) [
    | inl e ↦ rw (e, handle_client) (Accounts-refl listen_fd epoll_fd r h)
    | inr (c, e) ↦
        let entry =
          find-All (IsEntry r.config.max_frame_size) event.fd c r.connections w.entries e in
        let other =
          find-All (λ x. IsOther listen_fd epoll_fd x.0) event.fd c r.connections h.apart e in
        rw (e, handle_client)
          (finish_client-Accounts r c event.fd _ h other (
            serve_client-Serves proto store laws r c entry.1.0 w.small event.input event.bits
              counts))
  ]

  handle_event-Accounts :
      (event : PollEvent) (r : WorkerRuntime F)
      → HasFds listen_fd epoll_fd r
      → IsWorker r
      → IsEvent event
      → All (IsFresh listen_fd epoll_fd) event.accepts
      → Accounts listen_fd epoll_fd r
          (handle_event proto store event r).runtime
          (handle_event proto store event r).calls
  unfolding handle_event
  handle_event-Accounts event r h w counts fresh =
      elim (Bool-cases (is_fd r.config.shutdown_fd event.fd)) [
        | inl e ↦ rw e (Accounts-refl listen_fd epoll_fd r h)
        | inr e ↦ elim (Bool-cases (is_fd r.listen_fd event.fd)) [
          | inl l ↦ rw (e, l) (accept_loop-Accounts listen_fd epoll_fd event.accepts r h fresh)
          | inr l ↦ rw (e, l) (handle_client-Accounts event r h w counts)
        ]
      ]

  handle_events-Accounts :
      (events : List PollEvent) (r : WorkerRuntime F)
      → HasFds listen_fd epoll_fd r
      → IsWorker r
      → All IsEvent events
      → All (λ (e : PollEvent). All (IsFresh listen_fd epoll_fd) e.accepts) events
      → Accounts listen_fd epoll_fd r
          (handle_events proto store events r).runtime
          (handle_events proto store events r).calls
  unfolding handle_events
  handle_events-Accounts [] r h w counts fresh = Accounts-refl listen_fd epoll_fd r h
  handle_events-Accounts (event ∷ events) r h w counts fresh =
      and_then-Accounts listen_fd epoll_fd r (handle_event proto store event r)
        (λ x. handle_events proto store events x)
        (handle_event-Accounts event r h w counts.0 fresh.0)
        (λ h'.
          handle_events-Accounts events (handle_event proto store event r).runtime h'
            (handle_event-IsWorker proto store laws event r w counts.0) counts.1 fresh.1)

  -- The calls of the loop lead from the descriptors that the worker has before to those after.
  pub run_worker_loop-Accounts :
      (waits : List WaitResult) (r : WorkerRuntime F)
      → HasFds listen_fd epoll_fd r
      → IsWorker r
      → All IsWait waits
      → All (IsFreshWait listen_fd epoll_fd) waits
      → Accounts listen_fd epoll_fd r
          (run_worker_loop proto store waits r).runtime
          (run_worker_loop proto store waits r).calls
  unfolding run_worker_loop
  run_worker_loop-Accounts [] r h w counts fresh = Accounts-refl listen_fd epoll_fd r h
  run_worker_loop-Accounts (ready events ∷ waits) r h w counts fresh =
      and_then-Accounts listen_fd epoll_fd r (handle_events proto store events r)
        (λ x. run_worker_loop proto store waits x)
        (handle_events-Accounts events r h w counts.0 fresh.0)
        (λ h'.
          run_worker_loop-Accounts waits (handle_events proto store events r).runtime h'
            (handle_events-IsWorker proto store laws events r w counts.0) counts.1 fresh.1)
  run_worker_loop-Accounts (interrupted ∷ waits) r h w counts fresh =
      run_worker_loop-Accounts waits r h w counts.1 fresh.1
  run_worker_loop-Accounts (wait_error ∷ waits) r h w counts fresh =
      run_worker_loop-Accounts waits r h w counts.1 fresh.1
