-- ===== src/Worker/Examples.antt =====
-- The worker (src/worker_runtime.cc) run on the sample store, with a stand-in for the generated code.
use rtb_engine.Base.{
  ℕ, ◌+◌, ◌*◌, ◌≡◌, ◌⊎◌, refl, true, false, List, [], ◌∷◌, ◌++◌, Option, none, some, arith, codes,
  replicate, All,
}
use rtb_engine.Numbers.{pos}
use rtb_engine.Double.Fixed.{Fixed, fixed_double}
use rtb_engine.Protobuf.Sample.{sample_proto, sample-SerializesExactly}
use rtb_engine.Store.Sample.{sample_store}
use rtb_engine.Benchmark.{BenchmarkRecorder, new_recorder}
use rtb_engine.Types.{is_eligible, is_connected_tv}
use rtb_engine.Base.{text_eq}
use rtb_engine.Buffer.{
  need_more_data, readable_bytes, try_extract_frame, writable_region, commit_write, fill, compact,
  consume_frame, network_length, ready_frame, reserve,
}
use rtb_engine.Buffer.Bytes.{overwrite, be_value, be_bytes}
use rtb_engine.Parse.{parse_bid_request}
use rtb_engine.Framing.{stage_response_frame}
use rtb_engine.Rng.{xorshift, next_u64, next_unit_double, uniform_index}
use rtb_engine.Normalize.{
  normalize_country_key, normalize_device_type_key, normalize_ad_slot_key, compute_deadline_ns,
  initial_context, build_request_context,
}
use rtb_engine.Store.{find_bucket}
use rtb_engine.Retrieve.{
  campaign_creatives, matches_request, choose_seed_bucket, collect, retrieve_candidates,
}
use rtb_engine.Decision.{
  choose_random_creative, generate_bid_price, consider_bid, consider_campaign, consider_candidate,
  choose_best, make_bid_decision,
}
use rtb_engine.Request.{result_status, validate_request_context, handle_in, handle_request}
use rtb_engine.Response.{build_bid_response}
use rtb_engine.Worker.Frames.{
  process_ready_frames, handle_frame, stage_frame, finish_frame, frame_times, handle_message,
}
use rtb_engine.Worker.Client.{serve_frames, serve_flushed, proceed, read_loop, make_room, receive}
use rtb_engine.Worker.{ConnectionState, WorkerConfig, WorkerRuntime, wrote}
use rtb_engine.Worker.Client.{EventBits, ClientInput, arrived, serve_client}
use rtb_engine.Worker.Loop.{PollEvent, WaitResult, ready, accepted, run_worker_loop}
use rtb_engine.Worker.Lifetime.{
  StartInput, new_runtime, initialize_worker_runtime, shutdown_worker_runtime, open_listener,
  create_epoll, register_shutdown,
}
use rtb_engine.Worker.Calls.{watched, open_after}
use rtb_engine.Worker.Exchange.{IsLive}
use rtb_engine.Worker.Serving.{Serves}
use rtb_engine.Worker.Event.{serve_client-Serves, serve_client-waits}
use rtb_engine.Worker.Invariant.{IsEvent, IsWait, IsWorker, run_worker_loop-IsWorker}
use rtb_engine.Worker.Descriptors.{IsFreshWait}
use rtb_engine.Worker.Times.{IsSteady, phase_sum, phase_sum-frame_times}
use rtb_engine.Types.{ParsedMessage, default_parsed_message}
use rtb_engine.Base.{min, ◌≤◌}
use rtb_engine.Worker.Start.{Opens, initialize_worker_runtime-Opens}
use rtb_engine.Worker.Leak.{worker_closes}

abbrev config : WorkerConfig
config = record {
  worker_id = pos 0;
  port = 8080;
  epoll_max_events = pos 256;
  connection_buffer_capacity = 64;
  max_frame_size = 64;
  shutdown_fd = pos 9;
  campaign_data_path = [];
}

abbrev start : StartInput
start = record {
  now = 5;
  campaign_file = none;
  socket_fd = some 3;
  reuse_address = true;
  reuse_port = true;
  bound = true;
  listening = true;
  epoll_fd = some 4;
  listen_added = true;
  shutdown_added = true;
}

abbrev recorder : Option BenchmarkRecorder
recorder = some (new_recorder 1)

abbrev worker : WorkerRuntime Fixed
worker = record (new_runtime config recorder (some sample_store)) {
  listen_fd = pos 3;
  epoll_fd = pos 4;
}

abbrev idle : ConnectionState
idle = record {
  fd = pos 5;
  connection_id = 1;
  request_sequence = 0;
  read_buffer = record { storage = replicate 64 0; read_offset = 0; write_offset = 0 };
  write_buffer = record { storage = replicate 64 0; read_offset = 0; write_offset = 0 };
  has_pending_write = false;
}

idle-IsLive : IsLive idle
unfolding readable_bytes
idle-IsLive = record {
  read_valid = record { ordered = omega arith; inside = omega arith; small = omega arith };
  write_valid = record { ordered = omega arith; inside = omega arith; small = omega arith };
  pending = refl;
}

abbrev no_bits : EventBits
no_bits = record { is_error = false; is_hangup = false; is_read_hangup = false; is_writable = true }

-- A frame with the payload "r1", in two parts.
abbrev frame_input : ClientInput
frame_input = record {
  now = λ i. 100 + 7 * i;
  writes = wrote 4 ∷ wrote 2 ∷ [];
  flush_updated = true;
  reads = arrived 0 (0 ∷ 0 ∷ []) ∷ arrived 2 (codes "r1") ∷ [];
  frame_updated = true;
}

serve_client-Serves_example :
    Serves sample_proto sample_store worker idle
      (serve_client sample_proto sample_store no_bits frame_input worker idle)
serve_client-Serves_example =
    serve_client-Serves sample_proto sample_store sample-SerializesExactly worker idle idle-IsLive
      (omega arith) frame_input no_bits (omega arith, (omega arith, tt))

abbrev event : ℕ → PollEvent
event fd = record { fd = fd; bits = no_bits; input = frame_input; accepts = accepted 5 true ∷ [] }

abbrev waits : List WaitResult
waits = ready (event 3 ∷ event 5 ∷ []) ∷ ready (event 5 ∷ event 9 ∷ []) ∷ []

worker-IsWorker : IsWorker worker
worker-IsWorker = record {
  small = omega arith;
  capacity = omega arith;
  distinct = tt;
  entries = tt;
}

few : IsEvent (event 5)
few = (omega arith, (omega arith, tt))

counts : All IsWait waits
counts = ((few, (few, tt)), ((few, (few, tt)), tt))

run_worker_loop-IsWorker_example :
    IsWorker (run_worker_loop sample_proto sample_store waits worker).runtime
run_worker_loop-IsWorker_example =
    run_worker_loop-IsWorker sample_proto sample_store sample-SerializesExactly waits worker
      worker-IsWorker counts

initialize_worker_runtime-Opens_example :
    Opens config (initialize_worker_runtime start (new_runtime config recorder (some sample_store)))
initialize_worker_runtime-Opens_example =
    initialize_worker_runtime-Opens start config recorder (some sample_store)

fresh :
    (let started =
        initialize_worker_runtime start (new_runtime config recorder (some sample_store)) in
      All (IsFreshWait started.runtime.listen_fd started.runtime.epoll_fd) waits)
unfolding initialize_worker_runtime open_listener create_epoll register_shutdown
fresh = (
  (((refl, refl), tt), (((refl, refl), tt), tt)),
  ((((refl, refl), tt), (((refl, refl), tt), tt)), tt),
)

worker_closes_example :
    (let started =
        initialize_worker_runtime start (new_runtime config recorder (some sample_store)) in
      let looped = run_worker_loop sample_proto sample_store waits started.runtime in
      let (ended, closes) = shutdown_worker_runtime looped.runtime in
      open_after 5 false (started.calls ++ (looped.calls ++ closes)) ≡ false)
worker_closes_example =
    worker_closes sample_proto sample_store sample-SerializesExactly start waits config recorder
      (omega arith) (omega arith) counts fresh 5

-- The frame is answered, and the connection waits to be written.
answers :
    (serve_client sample_proto sample_store no_bits frame_input worker idle).should_close ≡ false
unfolding serve_client serve_frames serve_flushed proceed read_loop make_room receive
    process_ready_frames handle_frame stage_frame finish_frame frame_times writable_region
    commit_write fill compact consume_frame overwrite try_extract_frame readable_bytes
    network_length ready_frame be_value parse_bid_request stage_response_frame reserve be_bytes
    handle_request handle_in validate_request_context build_request_context initial_context
    compute_deadline_ns normalize_country_key normalize_device_type_key normalize_ad_slot_key
    text_eq is_connected_tv is_eligible retrieve_candidates collect choose_seed_bucket find_bucket
    matches_request campaign_creatives make_bid_decision choose_best consider_candidate
    consider_campaign consider_bid choose_random_creative generate_bid_price uniform_index
    next_unit_double next_u64 xorshift result_status build_bid_response
answers = refl

serve_client-waits_example :
    (let served = serve_client sample_proto sample_store no_bits frame_input worker idle in
      ((served.connection.has_pending_write ≡ true)
        ⊎ ((try_extract_frame served.connection.read_buffer 64).0 ≡ need_more_data))
      × (watched false served.calls ≡ served.connection.has_pending_write))
serve_client-waits_example =
    serve_client-waits sample_proto sample_store sample-SerializesExactly worker idle idle-IsLive
      (omega arith) frame_input no_bits (omega arith, (omega arith, tt)) answers

abbrev clock : ℕ → ℕ
clock i = 100 + min i 50

clock-IsSteady : IsSteady clock
clock-IsSteady = record { forward = λ i. omega arith; before_end = λ i. omega arith }

abbrev message : ParsedMessage
message = record default_parsed_message {
  request_id = codes "r1";
  tmax_ms = 100;
  country = codes "US";
  device_type = codes "mobile";
  ad_slot = codes "top";
}

phase_sum-frame_times_example :
    (let t = frame_times clock (handle_message sample_proto sample_store clock worker message) in
      phase_sum t ≤ t.total_internal_ns)
phase_sum-frame_times_example =
    phase_sum-frame_times clock clock-IsSteady sample_proto sample_store worker message
