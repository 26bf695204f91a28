-- ===== src/Worker/Start.antt =====
-- The start of a worker (src/worker_runtime.cc): what is open after it.
use rtb_engine.Base.{
  ℕ, ◌≡◌, ◌⊎◌, refl, sym, ap, ◌∙◌, subst, inl, inr, Bool, true, false, not, ◌&&◌, List, [], ◌∷◌,
  ◌++◌, Option, arith, if◌then◌else◌, ◌==◌, All, Option-cases,
}
use mathlib.Core.Bool.{false≢true}
use rtb_engine.Types.{CampaignStoreSnapshot}
use rtb_engine.Numbers.{ℤ, pos, negsuc}
use rtb_engine.Double.{Double}
use rtb_engine.Worker.{
  ConnectionState, ConnectionMap, WorkerConfig, WorkerRuntime, SystemCall, register, opens,
}
use rtb_engine.Benchmark.{BenchmarkRecorder}
use rtb_engine.Worker.Lifetime.{
  StartInput, snapshot_for, new_runtime, Started, close_fd, closed_fd, close_all,
  shutdown_worker_runtime, abandon, starts, register_shutdown, create_epoll, open_listener,
  initialize_worker_runtime,
}
use rtb_engine.Worker.Loop.{is_fd}
use rtb_engine.Worker.Calls.{open_after, open_after-append}
use rtb_engine.Worker.Connections.{has}
use rtb_engine.Worker.Descriptors.{owned}

close_fd-open_after :
    (z : ℤ) (fd : ℕ) (b : Bool) → open_after fd b (close_fd z) ≡ (b && not (is_fd z fd))
close_fd-open_after (pos n) fd b = ground arith
close_fd-open_after (negsuc n) fd b = ground arith

-- Every connection stands under its own descriptor.
abbrev pub IsOwn : ℕ × ConnectionState → Type 0
IsOwn (key, c) = c.fd ≡ pos key

close_all-open_after :
    (m : ConnectionMap) (fd : ℕ) (b : Bool)
    → All IsOwn m
    → open_after fd b (close_all m) ≡ (b && not (has fd m))
unfolding close_all
close_all-open_after [] fd b h = ground arith
close_all-open_after ((key, c) ∷ m) fd b h =
    open_after-append fd b (close_fd c.fd) (close_all m)
    ∙ close_all-open_after m fd _ h.1
    ∙ ap (λ o. o && not (has fd m)) (close_fd-open_after c.fd fd b)
    ∙ ap (λ z. (b && not (is_fd z fd)) && not (has fd m)) h.0
    ∙ ground arith

module _ {F : Type 0} where
  -- After a shutdown nothing is open that the worker owned.
  pub shutdown-open_after :
      (r : WorkerRuntime F) (fd : ℕ) (b : Bool)
      → All IsOwn r.connections
      → open_after fd b (shutdown_worker_runtime r).1
        ≡ (b && not (owned r.listen_fd r.epoll_fd r.connections fd))
  unfolding shutdown_worker_runtime
  shutdown-open_after r fd b h =
      open_after-append fd b (close_all r.connections) _
      ∙ open_after-append fd _ (close_fd r.listen_fd) _
      ∙ close_fd-open_after r.epoll_fd fd _
      ∙ ap (λ o. o && not (is_fd r.epoll_fd fd)) (close_fd-open_after r.listen_fd fd _)
      ∙ ap (λ o. (o && not (is_fd r.listen_fd fd)) && not (is_fd r.epoll_fd fd))
          (close_all-open_after r.connections fd b h)
      ∙ ground arith

closed_fd-is_fd : (z : ℤ) (fd : ℕ) → is_fd (closed_fd z) fd ≡ false
closed_fd-is_fd (pos n) fd = refl
closed_fd-is_fd (negsuc n) fd = refl

sign_cases : (z : ℤ) → ((n : ℕ) × (z ≡ pos n)) ⊎ ((n : ℕ) × (z ≡ negsuc n))
sign_cases (pos n) = inl (n, refl)
sign_cases (negsuc n) = inr (n, refl)

module _ {F : Type 0} where
  abbrev pub owns : WorkerRuntime F → ℕ → Bool
  owns r fd = owned r.listen_fd r.epoll_fd r.connections fd

  -- What is open after a start is what the worker owns, which is nothing when it fails.
  pub record Opens (config : WorkerConfig) (s : Started F) : Type 0 where
    pub balance : (fd : ℕ) → open_after fd false s.calls ≡ owns s.runtime fd
    pub no_connections : s.runtime.connections ≡ []
    pub same_config : s.runtime.config ≡ config
    pub failed : s.initialized ≡ false → (fd : ℕ) → owns s.runtime fd ≡ false

  -- A test whose branches are both in order.
  either :
      (config : WorkerConfig) (b : Bool) (s t : Started F)
      → Opens config s
      → Opens config t
      → Opens config (if b then s else t)
  either config true s t p q = p
  either config false s t p q = q

  starts-Opens :
      (r r' : WorkerRuntime F) (calls : List SystemCall)
      → r'.config ≡ r.config
      → r'.connections ≡ []
      → ((fd : ℕ) → open_after fd false calls ≡ owns r' fd)
      → Opens r.config (starts r' calls)
  starts-Opens r r' calls c e h = record {
    balance = h;
    no_connections = e;
    same_config = c;
    failed = λ k. absurd (false≢true (sym k));
  }

  abandon-Opens :
      (r r' : WorkerRuntime F) (calls : List SystemCall)
      → r'.config ≡ r.config
      → All IsOwn r'.connections
      → ((fd : ℕ) → open_after fd false calls ≡ owns r' fd)
      → Opens r.config (abandon r' calls)
  unfolding abandon shutdown_worker_runtime
  abandon-Opens r r' calls c o h = record {
    balance = λ fd.
        open_after-append fd false calls _
        ∙ shutdown-open_after r' fd _ o
        ∙ ap (λ b. b && not (owns r' fd)) (h fd)
        ∙ ground (arith, nothing fd);
    no_connections = refl;
    same_config = c;
    failed = λ k fd. nothing fd;
  }
    where
      nothing : (fd : ℕ) → owned (closed_fd r'.listen_fd) (closed_fd r'.epoll_fd) [] fd ≡ false
      nothing fd = ground (arith, closed_fd-is_fd r'.listen_fd fd, closed_fd-is_fd r'.epoll_fd fd)

  register_shutdown-Opens :
      (input : StartInput) (r r' : WorkerRuntime F) (calls : List SystemCall)
      → r'.config ≡ r.config
      → r'.connections ≡ []
      → ((fd : ℕ) → open_after fd false calls ≡ owns r' fd)
      → Opens r.config (register_shutdown input r' calls)
  unfolding register_shutdown
  register_shutdown-Opens input r r' calls c e h = elim (sign_cases r'.config.shutdown_fd) [
    | inr (n, z) ↦ rw (z, register_shutdown) (starts-Opens r r' calls c e h)
    | inl (n, z) ↦
        rw (z, register_shutdown)
          (either r.config _ _ _ (abandon-Opens r r' _ c none_own (more n input.shutdown_added))
            (starts-Opens r r' _ c e (more n input.shutdown_added)))
  ]
    where
      none_own : All IsOwn r'.connections
      none_own = subst (All IsOwn) (sym e) tt

      more :
          (n : ℕ) (b : Bool) (fd : ℕ)
          → open_after fd false (calls ++ register (pos n) b ∷ []) ≡ owns r' fd
      more n b fd = open_after-append fd false calls _ ∙ h fd

  create_epoll-Opens :
      (input : StartInput) (r r' : WorkerRuntime F) (calls : List SystemCall)
      → r'.config ≡ r.config
      → r'.connections ≡ []
      → r'.epoll_fd ≡ negsuc 0
      → ((fd : ℕ) → open_after fd false calls ≡ owns r' fd)
      → Opens r.config (create_epoll input r' calls)
  unfolding create_epoll
  create_epoll-Opens input r r' calls c e p h = elim (Option-cases input.epoll_fd) [
    | inl z ↦
        rw (z, create_epoll)
          (abandon-Opens r _ calls c none_own
            (λ fd. h fd ∙ ap (λ x. owned r'.listen_fd x r'.connections fd) p))
    | inr (n, z) ↦
        rw (z, create_epoll)
          (either r.config _ _ _ (abandon-Opens r _ _ c none_own (more n input.listen_added))
            (register_shutdown-Opens input r _ _ c e (more n input.listen_added)))
  ]
    where
      none_own : All IsOwn r'.connections
      none_own = subst (All IsOwn) (sym e) tt

      more :
          (n : ℕ) (b : Bool) (fd : ℕ)
          → open_after fd false (calls ++ opens n ∷ register r'.listen_fd b ∷ [])
            ≡ owned r'.listen_fd (pos n) r'.connections fd
      more n b fd =
          open_after-append fd false calls _
          ∙ ap (λ o. if n == fd then true else o)
              (h fd ∙ ap (λ x. owned r'.listen_fd x r'.connections fd) p)
          ∙ ground arith

module _ {F : Type 0} ⦃d : Double F⦄ where
  open_listener-Opens :
      (input : StartInput) (r : WorkerRuntime F)
      → r.connections ≡ []
      → r.listen_fd ≡ negsuc 0
      → r.epoll_fd ≡ negsuc 0
      → Opens r.config (open_listener input r)
  unfolding open_listener
  open_listener-Opens input r e l p = elim (Option-cases input.socket_fd) [
    | inl z ↦
        rw (z, open_listener)
          (record {
            balance = λ fd. sym (unowned fd);
            no_connections = e;
            same_config = refl;
            failed = λ k fd. unowned fd;
          })
    | inr (n, z) ↦
        rw (z, open_listener)
          (either r.config (not input.reuse_address) _ _
            (abandon-Opens r (opened n) (opens n ∷ []) refl (subst (All IsOwn) (sym e) tt)
              (early n))
            (either r.config (not input.reuse_port) _ _
              (abandon-Opens r (opened n) (opens n ∷ []) refl (subst (All IsOwn) (sym e) tt)
                (early n))
              (either r.config (not input.bound) _ _
                (abandon-Opens r (cleared n) (opens n ∷ []) refl tt (late n))
                (either r.config (not input.listening) _ _
                  (abandon-Opens r (cleared n) (opens n ∷ []) refl tt (late n))
                  (create_epoll-Opens input r (cleared n) (opens n ∷ []) refl refl p (late n))))))
  ]
    where
      opened : ℕ → WorkerRuntime F
      opened n = record r { listen_fd = pos n }

      cleared : ℕ → WorkerRuntime F
      cleared n = record r { listen_fd = pos n; next_connection_id = 1; connections = [] }

      unowned : (fd : ℕ) → owned (negsuc 0) r.epoll_fd r.connections fd ≡ false
      unowned fd = ap (λ z. owned (negsuc 0) z r.connections fd) p ∙ ap (λ m. has fd m) e

      late : (n fd : ℕ) → open_after fd false (opens n ∷ []) ≡ owned (pos n) r.epoll_fd [] fd
      late n fd = ground arith ∙ ap (λ z. owned (pos n) z [] fd) (sym p)

      early :
          (n fd : ℕ)
          → open_after fd false (opens n ∷ []) ≡ owned (pos n) r.epoll_fd r.connections fd
      early n fd = late n fd ∙ ap (λ m. owned (pos n) r.epoll_fd m fd) (sym e)

  -- A new worker that is initialized has no connection and its configuration, and the descriptors
  -- that the calls leave open are exactly its listener and its epoll instance; on each failing
  -- branch there are none.
  pub initialize_worker_runtime-Opens :
      (input : StartInput) (config : WorkerConfig) (recorder : Option BenchmarkRecorder)
      (store : Option (CampaignStoreSnapshot F))
      → Opens config (initialize_worker_runtime input (new_runtime config recorder store))
  unfolding initialize_worker_runtime
  initialize_worker_runtime-Opens input config recorder store =
      elim (Option-cases (snapshot_for input store)) [
        | inl e ↦
            rw (e, initialize_worker_runtime)
              (record {
                balance = λ fd. refl;
                no_connections = refl;
                same_config = refl;
                failed = λ k fd. refl;
              })
        | inr (s, e) ↦
            rw (e, initialize_worker_runtime) (open_listener-Opens input _ refl refl refl)
      ]
