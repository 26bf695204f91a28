-- ===== src/Worker/Lifetime.antt =====
-- `initialize_worker_runtime` and `shutdown_worker_runtime` of src/worker_runtime.cc. What the
-- operating system answers, the readings of the clock and the campaign file are arguments.
use rtb_engine.Base.{
  ℕ, ◌+◌, ◌-◌, ◌%◌, ◌^◌, Bool, true, false, not, List, [], ◌∷◌, ◌++◌, Option, none, some,
  if◌then◌else◌, bit_xor,
}
use rtb_engine.Types.{CampaignStoreSnapshot, default_rng_seed}
use rtb_engine.Numbers.{ℤ, pos, negsuc}
use rtb_engine.Double.{Double}
use rtb_engine.Rng.{seed}
use rtb_engine.Protobuf.{BidRequest, V1AuctionType}
use rtb_engine.Benchmark.{BenchmarkRecorder}
use rtb_engine.Store.{load_campaign_store_snapshot}
use rtb_engine.Worker.{
  ConnectionMap, WorkerConfig, WorkerRuntime, SystemCall, register, close, opens,
}

-- `socket` and `epoll_create1` return a descriptor or -1, the other calls succeed or fail.
pub record StartInput : Type 0 where
  pub now : ℕ
  pub campaign_file : Option (List ℕ)
  pub socket_fd : Option ℕ
  pub reuse_address : Bool
  pub reuse_port : Bool
  pub bound : Bool
  pub listening : Bool
  pub epoll_fd : Option ℕ
  pub listen_added : Bool
  pub shutdown_added : Bool

pub record Started (F : Type 0) : Type 0 where
  pub initialized : Bool
  pub runtime : WorkerRuntime F
  pub calls : List SystemCall

-- A descriptor that is not negative is closed, and -1 takes its place.
abbrev pub close_fd : ℤ → List SystemCall
close_fd (pos fd) = close (pos fd) ∷ []
close_fd (negsuc n) = []

abbrev pub closed_fd : ℤ → ℤ
closed_fd (pos fd) = negsuc 0
closed_fd (negsuc n) = negsuc n

unfoldable pub close_all : ConnectionMap → List SystemCall
close_all [] = []
close_all ((key, connection) ∷ m) = close_fd connection.fd ++ close_all m

-- `static_cast<std::uint64_t>(worker_id + 1)`, where the sum is in the range of `int`.
abbrev pub worker_number : ℤ → ℕ
worker_number (pos n) = n + 1
worker_number (negsuc n) = (2 ^ 64 - n) % 2 ^ 64

abbrev pub no_request : BidRequest
no_request = record {
  request_id = [];
  tmax_ms = 0;
  country = [];
  device_type = [];
  ad_slot = [];
  auction_type = V1AuctionType.auction_type_unspecified;
}

module _ {F : Type 0} where
  -- A new `WorkerRuntime`, with the fields that `run_server` assigns.
  abbrev pub new_runtime :
      WorkerConfig → Option BenchmarkRecorder → Option (CampaignStoreSnapshot F) → WorkerRuntime F
  new_runtime config recorder store = record {
    config = config;
    epoll_fd = negsuc 0;
    listen_fd = negsuc 0;
    next_connection_id = 1;
    parse_scratch = no_request;
    rng = record { state = 1 };
    benchmark_recorder = recorder;
    campaign_store = store;
    connections = [];
  }

  unfoldable pub shutdown_worker_runtime : WorkerRuntime F → WorkerRuntime F × List SystemCall
  shutdown_worker_runtime runtime = (
    record runtime {
      connections = [];
      listen_fd = closed_fd runtime.listen_fd;
      epoll_fd = closed_fd runtime.epoll_fd;
    },
    close_all runtime.connections ++ (close_fd runtime.listen_fd ++ close_fd runtime.epoll_fd),
  )

  -- The branches that end in a shutdown, behind `calls`.
  unfoldable pub abandon : WorkerRuntime F → List SystemCall → Started F
  abandon runtime calls =
      let (closed, closes) = shutdown_worker_runtime runtime in
      record { initialized = false; runtime = closed; calls = calls ++ closes }

  abbrev pub starts : WorkerRuntime F → List SystemCall → Started F
  starts runtime calls = record { initialized = true; runtime = runtime; calls = calls }

  unfoldable pub register_shutdown : StartInput → WorkerRuntime F → List SystemCall → Started F
  register_shutdown input runtime calls = elim runtime.config.shutdown_fd [
    | negsuc n ↦ starts runtime calls
    | pos fd ↦
        let registered = calls ++ register (pos fd) input.shutdown_added ∷ [] in
        if not input.shutdown_added then abandon runtime registered else starts runtime registered
  ]

  -- From `epoll_create1` on.
  unfoldable pub create_epoll : StartInput → WorkerRuntime F → List SystemCall → Started F
  create_epoll input runtime calls = elim input.epoll_fd [
    | none ↦ abandon (record runtime { epoll_fd = negsuc 0 }) calls
    | some fd ↦
        let created : WorkerRuntime F = record runtime { epoll_fd = pos fd } in
        let registered = calls ++ opens fd ∷ register runtime.listen_fd input.listen_added ∷ [] in
        if not input.listen_added
        then abandon created registered
        else register_shutdown input created registered
  ]

  unfoldable pub open_listener : StartInput → WorkerRuntime F → Started F
  open_listener input runtime = elim input.socket_fd [
    | none ↦ record {
      initialized = false;
      runtime = record runtime { listen_fd = negsuc 0 };
      calls = [];
    }
    | some fd ↦
        let opened : WorkerRuntime F = record runtime { listen_fd = pos fd } in
        let cleared : WorkerRuntime F = record opened {
          next_connection_id = 1;
          connections = [];
        } in
        let calls = opens fd ∷ [] in
        if not input.reuse_address
        then abandon opened calls
        else if not input.reuse_port
        then abandon opened calls
        else if not input.bound
        then abandon cleared calls
        else if not input.listening
        then abandon cleared calls
        else create_epoll input cleared calls
  ]

module _ {F : Type 0} ⦃d : Double F⦄ where
  -- The snapshot that is there, or else the one that is loaded.
  abbrev pub snapshot_for :
      StartInput → Option (CampaignStoreSnapshot F) → Option (CampaignStoreSnapshot F)
  snapshot_for input (some store) = some store
  snapshot_for input none = load_campaign_store_snapshot input.campaign_file

  unfoldable pub initialize_worker_runtime : StartInput → WorkerRuntime F → Started F
  initialize_worker_runtime input runtime =
      let seeded : WorkerRuntime F = record runtime {
        rng =
            seed (
              bit_xor (bit_xor (worker_number runtime.config.worker_id) input.now)
                default_rng_seed);
        campaign_store = snapshot_for input runtime.campaign_store;
      } in
      elim seeded.campaign_store [
        | none ↦ record { initialized = false; runtime = seeded; calls = [] }
        | some store ↦ open_listener input seeded
      ]
