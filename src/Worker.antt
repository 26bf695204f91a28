-- ===== src/Worker.antt =====
-- The worker of src/worker_runtime.cc, with the types of include/rtb/worker_runtime.h and
-- `ConnectionState` of include/rtb/runtime_types.h. What the operating system answers is an
-- argument, and the calls that are made of it are part of the result. The readings of the clock in
-- one call are a function; the results of `write`, `read` and `accept4` are lists, the next one
-- first, and a call behind the end of its list would block.
pub mod Frames
pub mod Client
pub mod Loop
pub mod Lifetime
mod Examples
pub mod Flush
pub mod Times
pub mod Calls
pub mod Conversation
pub mod Exchange
pub mod Answer
pub mod Serving
pub mod Session
pub mod Event
pub mod Connections
pub mod Invariant
pub mod Descriptors
pub mod Start
pub mod Leak
use rtb_engine.Base.{
  ℕ, Bool, true, false, not, ◌&&◌, List, [], ◌∷◌, ◌++◌, Option, none, some, if◌then◌else◌, ◌==◌,
  take, drop,
}
use rtb_engine.Types.{CampaignStoreSnapshot}
use rtb_engine.Numbers.{ℤ, pos, negsuc}
use rtb_engine.Rng.{WorkerRng}
use rtb_engine.Protobuf.{BidRequest}
use rtb_engine.Benchmark.{BenchmarkRecorder, request_limit_reached}
use rtb_engine.Buffer.{ReusableBuffer, readable_bytes, consume_frame}

pub record ConnectionState : Type 0 where
  pub fd : ℤ
  pub connection_id : ℕ
  pub request_sequence : ℕ
  pub read_buffer : ReusableBuffer
  pub write_buffer : ReusableBuffer
  pub has_pending_write : Bool

pub record WorkerConfig : Type 0 where
  pub worker_id : ℤ
  pub port : ℕ
  pub epoll_max_events : ℤ
  pub connection_buffer_capacity : ℕ
  pub max_frame_size : ℕ
  pub shutdown_fd : ℤ
  pub campaign_data_path : List ℕ

-- The connections by their descriptor, at most one for each.
abbrev pub ConnectionMap : Type 0
ConnectionMap = List (ℕ × ConnectionState)

pub record WorkerRuntime (F : Type 0) : Type 0 where
  pub config : WorkerConfig
  pub epoll_fd : ℤ
  pub listen_fd : ℤ
  pub next_connection_id : ℕ
  pub parse_scratch : BidRequest
  pub rng : WorkerRng
  pub benchmark_recorder : Option BenchmarkRecorder
  pub campaign_store : Option (CampaignStoreSnapshot F)
  pub connections : ConnectionMap

-- The calls of the operating system, with the bytes that they move and, where the program asks, with
-- their success; `opens` is a call that returns a new descriptor. The interest of a client in `EPOLLOUT` is the Boolean of `watch`.
pub data SystemCall : Type 0 where
  sends : ℤ → List ℕ → SystemCall
  receives : ℤ → List ℕ → SystemCall
  watch : ℤ → Bool → Bool → SystemCall
  register : ℤ → Bool → SystemCall
  unregister : ℤ → SystemCall
  close : ℤ → SystemCall
  wake : ℤ → SystemCall
  opens : ℕ → SystemCall

-- `erase`.
unfoldable pub erase : ℕ → ConnectionMap → ConnectionMap
erase fd [] = []
erase fd ((key, connection) ∷ m) =
    let rest = erase fd m in if key == fd then rest else (key, connection) ∷ rest

-- `find`.
unfoldable pub find : ℕ → ConnectionMap → Option ConnectionState
find fd [] = none
find fd ((key, connection) ∷ m) =
    let rest = find fd m in if key == fd then some connection else rest

-- An assignment through the reference that `find` gave.
unfoldable pub assign : ℕ → ConnectionState → ConnectionMap → ConnectionMap
assign fd changed [] = []
assign fd changed ((key, connection) ∷ m) =
    let rest = assign fd changed m in
    if key == fd then (key, changed) ∷ rest else (key, connection) ∷ rest

-- `emplace` keeps an entry that is there.
unfoldable pub emplace : ℕ → ConnectionState → ConnectionMap → ConnectionMap
unfolding find
emplace fd connection m = elim (find fd m) [ none ↦ m ++ (fd, connection) ∷ [] | some old ↦ m ]

module _ {F : Type 0} where
  unfoldable pub close_connection : WorkerRuntime F → ℤ → WorkerRuntime F × List SystemCall
  close_connection runtime (negsuc n) = (runtime, [])
  close_connection runtime (pos fd) = (
    record runtime { connections = erase fd runtime.connections },
    unregister (pos fd) ∷ close (pos fd) ∷ [],
  )

unfoldable pub signal_shutdown_fd : ℤ → List SystemCall
signal_shutdown_fd (negsuc n) = []
signal_shutdown_fd (pos fd) = wake (pos fd) ∷ []

-- The Boolean says whether `epoll_ctl` succeeds; it is also what the function returns.
abbrev pub update_client_events : ℤ → Bool → Bool → SystemCall
update_client_events client_fd enable_write updated = watch client_fd enable_write updated

-- A positive count, 0, or -1 with `EINTR`, with `EAGAIN`, or with another `errno`.
pub data WriteResult : Type 0 where
  wrote : ℕ → WriteResult
  wrote_nothing interrupted would_block write_error : WriteResult

-- How the loop ends, the buffer, and the bytes that were handed to the kernel.
pub record Flushed : Type 0 where
  pub connected : Bool
  pub write_buffer : ReusableBuffer
  pub sent : List ℕ

-- The span that is passed to `write`.
unfoldable pub readable : ReusableBuffer → List ℕ
readable b = take (readable_bytes b) (drop b.read_offset b.storage)

unfoldable pub flush_loop : List WriteResult → ReusableBuffer → List ℕ → Flushed
flush_loop [] b sent = record { connected = true; write_buffer = b; sent = sent }
flush_loop (result ∷ results) b sent =
    let next = λ (n : ℕ). flush_loop results (consume_frame b n) (sent ++ take n (readable b)) in
    let again = λ (s : List ℕ). flush_loop results b s in
    let stay : Flushed = record { connected = true; write_buffer = b; sent = sent } in
    let fail : Flushed = record { connected = false; write_buffer = b; sent = sent } in
    if readable_bytes b == 0 then stay else elim result [
      | wrote n ↦ next n
      | wrote_nothing ↦ fail
      | interrupted ↦ again sent
      | would_block ↦ stay
      | write_error ↦ fail
    ]

-- What the call returns, the connection after it, and the calls, where the bytes of the `write`
-- calls are joined.
pub record FlushResult : Type 0 where
  pub returned : Bool
  pub connection : ConnectionState
  pub calls : List SystemCall

abbrev pub limit_reached : Option BenchmarkRecorder → Bool
limit_reached none = false
limit_reached (some recorder) = request_limit_reached recorder

module _ {F : Type 0} where
  -- What follows the loop.
  unfoldable pub finish_flush : Bool → WorkerRuntime F → ConnectionState → Flushed → FlushResult
  finish_flush updated runtime connection flushed =
      let pending = not (readable_bytes flushed.write_buffer == 0) in
      let written : ConnectionState = record connection { write_buffer = flushed.write_buffer } in
      let signals =
        if updated && not pending && limit_reached runtime.benchmark_recorder
        then signal_shutdown_fd runtime.config.shutdown_fd
        else [] in
      if not flushed.connected
      then record {
        returned = false;
        connection = written;
        calls = sends connection.fd flushed.sent ∷ [];
      }
      else record {
        returned = updated;
        connection = record written { has_pending_write = pending };
        calls =
            sends connection.fd flushed.sent
            ∷ update_client_events connection.fd pending updated
            ∷ signals;
      }

  unfoldable pub flush_pending_write :
      List WriteResult → Bool → WorkerRuntime F → ConnectionState → FlushResult
  flush_pending_write results updated runtime connection =
      finish_flush updated runtime connection (flush_loop results connection.write_buffer [])
