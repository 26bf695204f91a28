-- ===== src/Worker/Client.antt =====
-- One event of a client in `run_worker_loop` of src/worker_runtime.cc: the pending write, the frame
-- that is buffered already, then reads until one would block.
use rtb_engine.Base.{
  ℕ, Bool, true, false, not, ◌||◌, List, [], ◌∷◌, ◌++◌, if◌then◌else◌, ◌==◌, length, take,
}
use rtb_engine.Types.{CampaignStoreSnapshot}
use rtb_engine.Double.{Double}
use rtb_engine.Protobuf.{Protobuf}
use rtb_engine.Buffer.{ReusableBuffer, writable_region, commit_write, fill, compact}
use rtb_engine.Worker.{
  ConnectionState, WorkerRuntime, SystemCall, receives, WriteResult, FlushResult,
  flush_pending_write,
}
use rtb_engine.Worker.Frames.{
  keep_on, pause_for_write, close_connection, Processed, process_ready_frames,
}

-- The bits of `events` that the loop tests.
pub record EventBits : Type 0 where
  pub is_error : Bool
  pub is_hangup : Bool
  pub is_read_hangup : Bool
  pub is_writable : Bool

-- The bytes that arrived, at least one, of which a call takes no more than it has room for; 0; or -1
-- with `EINTR`, with `EAGAIN`, or with another `errno`.
pub data ReadResult : Type 0 where
  arrived : ℕ → List ℕ → ReadResult
  end_of_file interrupted would_block read_error : ReadResult

-- What the operating system answers while the event is handled. The clock is read for at most one
-- frame, and `epoll_ctl` is called at most once by `flush_pending_write` and once for a frame.
pub record ClientInput : Type 0 where
  pub now : ℕ → ℕ
  pub writes : List WriteResult
  pub flush_updated : Bool
  pub reads : List ReadResult
  pub frame_updated : Bool

-- What the event comes to: the connection is closed afterwards, or stays.
pub record Served (F : Type 0) : Type 0 where
  pub should_close : Bool
  pub runtime : WorkerRuntime F
  pub connection : ConnectionState
  pub calls : List SystemCall

-- The buffer is compacted when there is no room behind its bytes.
unfoldable pub make_room : ReusableBuffer → ReusableBuffer
make_room b = if (writable_region b).1 == 0 then compact b else b

-- The bytes that a `read` into the buffer takes, and the buffer after `commit_write`.
abbrev pub taken : ReusableBuffer → List ℕ → List ℕ
taken b bytes = take (writable_region b).1 bytes

unfoldable pub receive : ReusableBuffer → List ℕ → ReusableBuffer
receive b bytes = commit_write (fill b (taken b bytes)) (length (taken b bytes))

module _ {F : Type 0} where
  abbrev pub stays : WorkerRuntime F → ConnectionState → List SystemCall → Served F
  stays runtime connection calls = record {
    should_close = false;
    runtime = runtime;
    connection = connection;
    calls = calls;
  }

  abbrev pub leaves : WorkerRuntime F → ConnectionState → List SystemCall → Served F
  leaves runtime connection calls = record {
    should_close = true;
    runtime = runtime;
    connection = connection;
    calls = calls;
  }

  -- Calls that were made before.
  abbrev pub after : List SystemCall → Served F → Served F
  after calls served = record served { calls = calls ++ served.calls }

module _ {F : Type 0} where
  -- What follows `process_ready_frames`, with what happens when the loop goes on.
  unfoldable pub proceed : List SystemCall → Processed F → Served F → Served F
  proceed calls p rest = elim p.outcome [
    | keep_on ↦ after (calls ++ p.calls) rest
    | pause_for_write ↦ stays p.runtime p.connection (calls ++ p.calls)
    | close_connection ↦ leaves p.runtime p.connection (calls ++ p.calls)
  ]

module _ {F : Type 0} ⦃d : Double F⦄ (proto : Protobuf F) (store : CampaignStoreSnapshot F)
    (now : ℕ → ℕ) (frame_updated : Bool) where
  -- The loop over the reads.
  unfoldable pub read_loop : List ReadResult → WorkerRuntime F → ConnectionState → Served F
  read_loop [] runtime connection =
      let roomy : ConnectionState = record connection {
        read_buffer = make_room connection.read_buffer;
      } in
      if (writable_region roomy.read_buffer).1 == 0
      then leaves runtime roomy []
      else stays runtime roomy []
  read_loop (result ∷ results) runtime connection =
      let roomy : ConnectionState = record connection {
        read_buffer = make_room connection.read_buffer;
      } in
      let read_on = λ (p : Processed F). read_loop results p.runtime p.connection in
      let again = λ (c : ConnectionState). read_loop results runtime c in
      if (writable_region roomy.read_buffer).1 == 0 then leaves runtime roomy [] else elim result [
        | arrived byte bytes ↦
            let filled : ConnectionState = record roomy {
              read_buffer = receive roomy.read_buffer (byte ∷ bytes);
            } in
            let got = receives roomy.fd (taken roomy.read_buffer (byte ∷ bytes)) ∷ [] in
            let p = process_ready_frames proto store now frame_updated runtime filled in
            proceed got p (read_on p)
        | end_of_file ↦ leaves runtime roomy []
        | interrupted ↦ again roomy
        | would_block ↦ stays runtime roomy []
        | read_error ↦ leaves runtime roomy []
      ]

  -- The frame that is buffered already, then the reads.
  unfoldable pub serve_frames : List ReadResult → WorkerRuntime F → ConnectionState → Served F
  serve_frames reads runtime connection =
      let p = process_ready_frames proto store now frame_updated runtime connection in
      proceed [] p (read_loop reads p.runtime p.connection)

module _ {F : Type 0} ⦃d : Double F⦄ (proto : Protobuf F) (store : CampaignStoreSnapshot F) where
  -- Behind a flush that returned true.
  unfoldable pub serve_flushed : ClientInput → WorkerRuntime F → FlushResult → Served F
  serve_flushed input runtime flushed =
      if flushed.connection.has_pending_write
      then stays runtime flushed.connection flushed.calls
      else after flushed.calls (
          serve_frames proto store input.now input.frame_updated input.reads runtime
            flushed.connection)

  unfoldable pub serve_client :
      EventBits → ClientInput → WorkerRuntime F → ConnectionState → Served F
  serve_client bits input runtime connection =
      let flushed = flush_pending_write input.writes input.flush_updated runtime connection in
      if bits.is_error || bits.is_hangup || bits.is_read_hangup
      then leaves runtime connection []
      else if not connection.has_pending_write
      then serve_frames proto store input.now input.frame_updated input.reads runtime connection
      else if not bits.is_writable
      then stays runtime connection []
      else if not flushed.returned
      then leaves runtime flushed.connection flushed.calls
      else serve_flushed input runtime flushed
