-- ===== src/Worker/Exchange.antt =====
-- One call of `process_ready_frames` (src/worker_runtime.cc), on all its branches.
use rtb_engine.Base.{
  ℕ, ◌+◌, ◌-◌, ◌^◌, ◌≤◌, ◌<◌, ◌≡◌, refl, sym, ap, ◌∙◌, Bool, true, false, not, List, [], ◌∷◌, ◌++◌,
  arith, if◌then◌else◌, ◌==◌, length, take, drop, take-append-drop, take-take_le, length-take,
  length-append, drop-take,
}
use mathlib.Core.List.{append-nil}
use rtb_engine.Types.{CampaignStoreSnapshot}
use rtb_engine.Double.{Double}
use rtb_engine.Protobuf.{Protobuf, SerializesExactly}
use rtb_engine.Buffer.{
  ReusableBuffer, need_more_data, frame_ready, FrameView, readable_bytes, network_length,
  ready_frame, try_extract_frame, consume_frame,
}
use rtb_engine.Buffer.Bytes.{be_value, be_bytes, length-be_bytes}
use rtb_engine.Buffer.Inv.{IsValid, readable_bytes_lem, consume_frame-IsValid}
use rtb_engine.Buffer.Stream.{unread, length-unread, unread-consume_frame}
use rtb_engine.Buffer.Extract.{
  announced, frame_at, announced-unread, frame_at-unread, frame_ready_inv,
}
use rtb_engine.Parse.{ParseStatus}
use rtb_engine.Framing.RoundTrip.{Holds}
use rtb_engine.Request.{HandleRequestStatus, Handled}
use rtb_engine.Worker.{ConnectionState, WorkerRuntime, SystemCall, watch}
use rtb_engine.Worker.Frames.{
  ProcessFramesOutcome, keep_on, pause_for_write, close_connection, Processed, is_ok, drops,
  gives_up, finish_frame,
}
use rtb_engine.Worker.Calls.{watched}
use rtb_engine.Worker.Conversation.{IsExchange, Conversation, Conversation-quiet}

-- A connection between two events: its buffers are valid, and a write is pending exactly when bytes
-- are left to be written.
pub record IsLive (c : ConnectionState) : Type 0 where
  pub read_valid : IsValid c.read_buffer
  pub write_valid : IsValid c.write_buffer
  pub pending : c.has_pending_write ≡ not (readable_bytes c.write_buffer == 0)

pub is_ok-ok : (s : ParseStatus) → is_ok s ≡ true → s ≡ ParseStatus.ok
is_ok-ok s h = ground arith

pub drops-ready :
    (s : HandleRequestStatus) → drops s ≡ false → s ≡ HandleRequestStatus.response_ready
drops-ready s h = ground arith

-- The bytes of the first frame.
abbrev pub first_frame : ReusableBuffer → List ℕ
first_frame b = take (4 + network_length b) (unread b)

module _ (b : ReusableBuffer) (max : ℕ) (v : IsValid b) (small : max < 2 ^ 32 - 4)
    (ready : (try_extract_frame b max).0 ≡ frame_ready) where
  found :
      (0 < network_length b)
      × (network_length b ≤ max)
      × (4 + network_length b ≤ readable_bytes b)
      × ((try_extract_frame b max).1 ≡ ready_frame b (network_length b))
  found = frame_ready_inv b max ready

  extracted : (try_extract_frame b max).1 ≡ frame_at (unread b)
  extracted =
      found.3
      ∙ frame_at-unread b (omega (arith, found, readable_bytes_lem b v)) (omega (arith, found))

  read_length : announced (unread b) ≡ network_length b
  read_length = announced-unread b (omega (arith, found, readable_bytes_lem b v))

  pub length-first_frame : length (first_frame b) ≡ 4 + network_length b
  length-first_frame =
      omega (arith, found, length-unread b v, length-take (4 + network_length b) (unread b))

  pub first_payload : (try_extract_frame b max).1.payload ≡ drop 4 (first_frame b)
  first_payload =
      ap (λ f. f.payload) extracted
      ∙ ap (λ n. take n (drop 4 (unread b))) (omega (arith, read_length))
      ∙ sym (drop-take 4 (4 + network_length b) (unread b))

  first_total : (try_extract_frame b max).1.total_frame_bytes ≡ 4 + network_length b
  first_total = omega (arith, ap (λ f. f.total_frame_bytes) extracted, read_length)

  pub announced-first_frame : announced (first_frame b) ≡ network_length b
  announced-first_frame =
      ap be_value (take-take_le 4 (4 + network_length b) (unread b) (omega arith)) ∙ read_length

  rest_unread : first_frame b ++ unread (consume_frame b (4 + network_length b)) ≡ unread b
  rest_unread =
      ap (λ u. first_frame b ++ u)
        (unread-consume_frame b (4 + network_length b) v (omega (arith, v, found)))
      ∙ take-append-drop (4 + network_length b) (unread b)

no_unread : (b : ReusableBuffer) → IsValid b → readable_bytes b ≡ 0 → unread b ≡ []
no_unread b v empty =
    ap (λ n. take n (drop b.read_offset b.storage)) (sym (readable_bytes_lem b v) ∙ empty)

-- What the worker keeps over an event of a client.
pub record Keeps {F : Type 0} (r r' : WorkerRuntime F) : Type 0 where
  pub same_config : r'.config ≡ r.config
  pub same_epoll_fd : r'.epoll_fd ≡ r.epoll_fd
  pub same_listen_fd : r'.listen_fd ≡ r.listen_fd
  pub same_next_connection_id : r'.next_connection_id ≡ r.next_connection_id
  pub same_campaign_store : r'.campaign_store ≡ r.campaign_store
  pub same_connections : r'.connections ≡ r.connections

pub Keeps-refl : {F : Type 0} (r : WorkerRuntime F) → Keeps r r
Keeps-refl r = record {
  same_config = refl;
  same_epoll_fd = refl;
  same_listen_fd = refl;
  same_next_connection_id = refl;
  same_campaign_store = refl;
  same_connections = refl;
}

-- A connection that goes on is as it was and has no whole frame; one that pauses has a response to
-- write.
abbrev pub Settled : ℕ → ConnectionState → ConnectionState → ProcessFramesOutcome → Type 0
Settled max c c' keep_on = (c' ≡ c) × ((try_extract_frame c.read_buffer max).0 ≡ need_more_data)
Settled max c c' pause_for_write = IsLive c' × (c'.has_pending_write ≡ true)
Settled max c c' close_connection = Unit

-- Unless the connection is closed, the kernel watches it for writing exactly when a write is pending.
abbrev pub Watches :
    ConnectionState → ConnectionState → List SystemCall → ProcessFramesOutcome → Type 0
Watches c c' calls keep_on = watched c.has_pending_write calls ≡ c'.has_pending_write
Watches c c' calls pause_for_write = watched c.has_pending_write calls ≡ c'.has_pending_write
Watches c c' calls close_connection = Unit

module _ {F : Type 0} ⦃d : Double F⦄ (proto : Protobuf F) (store : CampaignStoreSnapshot F) where
  pub record FrameStep (r : WorkerRuntime F) (c : ConnectionState) (p : Processed F) : Type 0 where
    pub talk : Conversation proto store c p.connection p.calls
    pub settled : Settled r.config.max_frame_size c p.connection p.outcome
    pub interest : Watches c p.connection p.calls p.outcome
    pub keeps : Keeps r p.runtime
    pub same_fd : p.connection.fd ≡ c.fd

  pub gives_up-FrameStep :
      (r : WorkerRuntime F) (c c' : ConnectionState)
      → c'.fd ≡ c.fd
      → unread c'.read_buffer ≡ unread c.read_buffer
      → unread c'.write_buffer ≡ unread c.write_buffer
      → (r' : WorkerRuntime F) → Keeps r r'
      → FrameStep r c (gives_up r' c')
  gives_up-FrameStep r c c' same_fd same_in same_out r' k = record {
    talk = Conversation-quiet proto store c c' same_in same_out;
    settled = tt;
    interest = tt;
    keeps = k;
    same_fd = same_fd;
  }

  module _ (laws : SerializesExactly F proto) (r : WorkerRuntime F) (c : ConnectionState)
      (v : IsValid c.read_buffer) (w : IsValid c.write_buffer)
      (empty : readable_bytes c.write_buffer ≡ 0) (small : r.config.max_frame_size < 2 ^ 32 - 4)
      (ready : (try_extract_frame c.read_buffer r.config.max_frame_size).0 ≡ frame_ready) where
    abbrev pub frame : FrameView
    frame = (try_extract_frame c.read_buffer r.config.max_frame_size).1

    pub finish_frame-FrameStep :
        (now : ℕ → ℕ) (updated : Bool) (r' : WorkerRuntime F) (handled : Handled F) (bytes : List ℕ)
        (write_buffer : ReusableBuffer)
        → Keeps r r'
        → Holds bytes write_buffer
        → IsExchange proto store (first_frame c.read_buffer, be_bytes (length bytes) ++ bytes)
        → FrameStep r c (
            finish_frame proto store now updated frame r'
              (record c { write_buffer = write_buffer })
              handled)
    unfolding finish_frame
    finish_frame-FrameStep now updated r' handled bytes write_buffer k h e = record {
      talk = record {
        exchanges = (first_frame c.read_buffer, be_bytes (length bytes) ++ bytes) ∷ [];
        genuine = (e, tt);
        incoming =
            append-nil (unread c.read_buffer)
            ∙ sym (rest_unread c.read_buffer r.config.max_frame_size v small ready)
            ∙ ap (λ n. first_frame c.read_buffer ++ unread (consume_frame c.read_buffer n))
                (sym total)
            ∙ ap (λ u. u ++ unread (consume_frame c.read_buffer frame.total_frame_bytes))
                (sym (append-nil (first_frame c.read_buffer)));
        outgoing =
            ap (λ u. u ++ ((be_bytes (length bytes) ++ bytes) ++ []))
              (no_unread c.write_buffer w empty)
            ∙ append-nil (be_bytes (length bytes) ++ bytes)
            ∙ sym h.stream;
        still = λ fd was_open. refl;
      };
      settled = settles updated;
      interest = watches updated;
      keeps = record {
        same_config = k.same_config;
        same_epoll_fd = k.same_epoll_fd;
        same_listen_fd = k.same_listen_fd;
        same_next_connection_id = k.same_next_connection_id;
        same_campaign_store = k.same_campaign_store;
        same_connections = k.same_connections;
      };
      same_fd = refl;
    }
      where
        total : frame.total_frame_bytes ≡ 4 + network_length c.read_buffer
        total = first_total c.read_buffer r.config.max_frame_size v small ready

        whole :
            (0 < network_length c.read_buffer)
            × (network_length c.read_buffer ≤ r.config.max_frame_size)
            × (4 + network_length c.read_buffer ≤ readable_bytes c.read_buffer)
            × (frame ≡ ready_frame c.read_buffer (network_length c.read_buffer))
        whole = found c.read_buffer r.config.max_frame_size v small ready

        settled_connection : ConnectionState
        settled_connection = record c {
          read_buffer = consume_frame c.read_buffer frame.total_frame_bytes;
          write_buffer = write_buffer;
          has_pending_write = true;
        }

        lives : IsLive settled_connection
        lives = record {
          read_valid = consume_frame-IsValid c.read_buffer _ v (omega (arith, v, total, whole));
          write_valid = h.is_valid;
          pending = ground (
            arith,
            length-unread write_buffer h.is_valid,
            ap length h.stream,
            length-append (be_bytes (length bytes)) bytes,
            length-be_bytes (length bytes),
          );
        }

        settles :
            (b : Bool)
            → Settled r.config.max_frame_size c settled_connection
                (if b then pause_for_write else close_connection)
        settles true = (lives, refl)
        settles false = tt

        watches :
            (b : Bool)
            → Watches c settled_connection
                (watch c.fd true b ∷ [])
                (if b then pause_for_write else close_connection)
        watches true = refl
        watches false = tt
