-- ===== src/Worker/Frames.antt =====
-- `process_ready_frames` of src/worker_runtime.cc: at most one frame is taken from the read buffer,
-- since every path through the loop's body returns.
use rtb_engine.Base.{
  ℕ, ◌+◌, Bool, true, false, not, List, [], ◌∷◌, Option, none, some, if◌then◌else◌,
}
use rtb_engine.Types.{is_eligible, CampaignStoreSnapshot, ParsedMessage, default_parsed_message}
use rtb_engine.Double.{Double}
use rtb_engine.Protobuf.{Protobuf}
use rtb_engine.Buffer.{
  need_more_data, frame_ready, invalid_length, FrameView, try_extract_frame, consume_frame,
}
use rtb_engine.Parse.{ParseStatus, parse_bid_request}
use rtb_engine.Framing.{stage_response_frame}
use rtb_engine.Request.{
  HandleRequestStatus, HandleRequestTimingBreakdown, HandleRequestResult, Handled, elapsed,
  handle_request,
}
use rtb_engine.Benchmark.{RequestTimingBreakdown, BenchmarkRecorder, record_request}
use rtb_engine.Worker.{ConnectionState, WorkerRuntime, SystemCall, update_client_events}

pub data ProcessFramesOutcome : Type 0 where
  keep_on pause_for_write close_connection : ProcessFramesOutcome

pub record Processed (F : Type 0) : Type 0 where
  pub outcome : ProcessFramesOutcome
  pub runtime : WorkerRuntime F
  pub connection : ConnectionState
  pub calls : List SystemCall

abbrev pub is_ok : ParseStatus → Bool
is_ok ParseStatus.ok = true
is_ok ParseStatus.malformed_proto = false
is_ok ParseStatus.missing_request_id = false
is_ok ParseStatus.missing_country = false
is_ok ParseStatus.missing_device_type = false
is_ok ParseStatus.missing_ad_slot = false
is_ok ParseStatus.invalid_auction_type = false

abbrev pub drops : HandleRequestStatus → Bool
drops HandleRequestStatus.response_ready = false
drops HandleRequestStatus.drop_connection = true

abbrev pub no_times : HandleRequestTimingBreakdown
no_times = record {
  normalize_validate_ns = 0;
  retrieve_ns = 0;
  decide_ns = 0;
  response_build_ns = 0;
}

-- The record that `handle_request` filled in.
abbrev pub times_of : Option HandleRequestTimingBreakdown → HandleRequestTimingBreakdown
times_of none = no_times
times_of (some t) = t

abbrev pub record_times :
    RequestTimingBreakdown → Option BenchmarkRecorder → Option BenchmarkRecorder
record_times timing none = none
record_times timing (some recorder) = some (record_request timing recorder)

module _ {F : Type 0} where
  abbrev pub gives_up : WorkerRuntime F → ConnectionState → Processed F
  gives_up runtime connection = record {
    outcome = close_connection;
    runtime = runtime;
    connection = connection;
    calls = [];
  }

  -- How often `handle_request` reads the clock.
  abbrev pub clock_reads : HandleRequestResult F → ℕ
  clock_reads result = if is_eligible result.context then 8 else 4

  -- The readings are 0 at the start, 1 and 2 around the parser, 3 at the arrival, then those of
  -- `handle_request`, then two around the staging.
  unfoldable pub frame_times : (ℕ → ℕ) → Handled F → RequestTimingBreakdown
  frame_times now handled =
      let t = times_of handled.timing in
      let reads = clock_reads handled.result in
      record {
        parse_ns = elapsed (now 1) (now 2);
        normalize_validate_ns = t.normalize_validate_ns;
        retrieve_ns = t.retrieve_ns;
        decide_ns = t.decide_ns;
        response_build_ns = t.response_build_ns;
        response_stage_ns = elapsed (now (4 + reads)) (now (5 + reads));
        total_internal_ns = elapsed (now 0) (now (5 + reads));
      }

module _ {F : Type 0} ⦃d : Double F⦄ (proto : Protobuf F) (store : CampaignStoreSnapshot F) where
  -- The end, with a staged response: the frame is consumed, and the connection waits to be written.
  unfoldable pub finish_frame :
      (ℕ → ℕ) → Bool → FrameView → WorkerRuntime F → ConnectionState → Handled F → Processed F
  finish_frame now updated frame runtime connection handled = record {
    outcome = if updated then pause_for_write else close_connection;
    runtime = record runtime {
      benchmark_recorder = record_times (frame_times now handled) runtime.benchmark_recorder;
    };
    connection = record connection {
      read_buffer = consume_frame connection.read_buffer frame.total_frame_bytes;
      has_pending_write = true;
    };
    calls = update_client_events connection.fd true updated ∷ [];
  }

  -- From the handled request on.
  unfoldable pub stage_frame :
      (ℕ → ℕ) → Bool → FrameView → WorkerRuntime F → ConnectionState → Handled F → Processed F
  stage_frame now updated frame runtime connection handled =
      let (staged, write_buffer) =
        stage_response_frame proto handled.result.response connection.write_buffer in
      let written : ConnectionState = record connection { write_buffer = write_buffer } in
      let kept : WorkerRuntime F = record runtime { rng = handled.rng } in
      if drops handled.result.status
      then gives_up kept connection
      else if not staged
      then gives_up kept written
      else finish_frame now updated frame kept written handled

  -- The request, from the parsed message on; the snapshot is the one that `campaign_store` points to.
  abbrev pub handle_message : (ℕ → ℕ) → WorkerRuntime F → ParsedMessage → Handled F
  handle_message now runtime parsed_message =
      handle_request (λ i. now (4 + i)) parsed_message (now 3) store runtime.rng (some no_times)

  unfoldable pub handle_frame :
      (ℕ → ℕ) → Bool → FrameView → WorkerRuntime F → ConnectionState → Processed F
  handle_frame now updated frame runtime connection =
      let parsed =
        parse_bid_request proto frame.payload runtime.parse_scratch default_parsed_message in
      let kept : WorkerRuntime F = record runtime { parse_scratch = parsed.scratch } in
      if not (is_ok parsed.status)
      then gives_up kept connection
      else stage_frame now updated frame kept connection (handle_message now kept parsed.out)

  unfoldable pub process_ready_frames :
      (ℕ → ℕ) → Bool → WorkerRuntime F → ConnectionState → Processed F
  process_ready_frames now updated runtime connection =
      let (status, frame) =
        try_extract_frame connection.read_buffer runtime.config.max_frame_size in
      elim status [
        | need_more_data ↦ record {
          outcome = keep_on;
          runtime = runtime;
          connection = connection;
          calls = [];
        }
        | invalid_length ↦ gives_up runtime connection
        | frame_ready ↦ handle_frame now updated frame runtime connection
      ]
