-- ===== src/Worker/Serving.antt =====
-- `serve_client` of Worker/Client.antt, the handling of one event in `run_worker_loop`
-- (src/worker_runtime.cc), as a conversation that leaves the connection in order.
use rtb_engine.Base.{
  ℕ, ◌+◌, ◌≤◌, ◌≡◌, ◌⊎◌, refl, sym, ap, ◌∙◌, subst, inl, inr, Bool, true, false, ◌||◌, List, [],
  ◌∷◌, ◌++◌, arith, if◌then◌else◌, ltb, ◌==◌, length, length-take, Bool-cases,
}
use mathlib.Core.List.{append-nil}
use rtb_engine.Types.{CampaignStoreSnapshot}
use rtb_engine.Double.{Double}
use rtb_engine.Protobuf.{Protobuf}
use rtb_engine.Buffer.{
  ReusableBuffer, FrameStatus, need_more_data, frame_ready, invalid_length, writable_region, fill,
  try_extract_frame,
}
use rtb_engine.Buffer.Inv.{
  IsValid, readable_bytes_lem, commit_write-IsValid, fill-IsValid, compact-IsValid,
}
use rtb_engine.Buffer.Stream.{unread, length-unread, unread-compact, unread-commit_write-fill}
use rtb_engine.Buffer.Extract.{announced, announced-unread}
use rtb_engine.Worker.{ConnectionState, WorkerRuntime, SystemCall, receives}
use rtb_engine.Worker.Client.{Served, make_room, taken, receive, stays, leaves, after}
use rtb_engine.Worker.Calls.{watched, watched-append}
use rtb_engine.Worker.Conversation.{Conversation, Conversation-append, Conversation-quiet}
use rtb_engine.Worker.Exchange.{IsLive, Keeps}

make_room-IsValid : (b : ReusableBuffer) → IsValid b → IsValid (make_room b)
unfolding make_room
make_room-IsValid b v = ground (arith, compact-IsValid b v)

pub unread-make_room : (b : ReusableBuffer) → IsValid b → unread (make_room b) ≡ unread b
unfolding make_room
unread-make_room b v = elim (Bool-cases ((writable_region b).1 == 0)) [
  | inl e ↦ rw e (unread-compact b v)
  | inr e ↦ rw e refl
]

module _ (b : ReusableBuffer) (v : IsValid b) (bytes : List ℕ) where
  fits : length (taken b bytes) ≤ (writable_region b).1
  fits = omega (arith, length-take (writable_region b).1 bytes)

  room : b.write_offset + (writable_region b).1 ≤ length b.storage
  unfolding writable_region
  room = ground (arith, v)

  receive-IsValid : IsValid (receive b bytes)
  unfolding receive fill
  receive-IsValid =
      commit_write-IsValid (fill b (taken b bytes)) (length (taken b bytes))
        (fill-IsValid b (taken b bytes) v fits) (omega (arith, fits, room, v))

  unread-receive : unread (receive b bytes) ≡ unread b ++ taken b bytes
  unfolding receive
  unread-receive = unread-commit_write-fill b (taken b bytes) v fits

-- The status as a function of the unread bytes.
abbrev stream_status : ℕ → List ℕ → FrameStatus
stream_status max s =
    if ltb (length s) 4
    then need_more_data
    else if announced s == 0 || ltb max (announced s)
    then invalid_length
    else if ltb (length s) (4 + announced s)
    then need_more_data
    else frame_ready

status-unread :
    (b : ReusableBuffer) (max : ℕ)
    → IsValid b
    → (try_extract_frame b max).0 ≡ stream_status max (unread b)
unfolding try_extract_frame
status-unread b max v =
    ground (arith, length-unread b v, readable_bytes_lem b v, announced-unread b)

pub same_status :
    (b b' : ReusableBuffer) (max : ℕ)
    → IsValid b
    → IsValid b'
    → unread b' ≡ unread b
    → (try_extract_frame b' max).0 ≡ (try_extract_frame b max).0
same_status b b' max v v' e =
    status-unread b' max v' ∙ ap (stream_status max) e ∙ sym (status-unread b max v)

-- What an event leaves behind when the connection stays: buffers in order, and a response to write
-- or no whole frame to answer.
abbrev pub Stays : ℕ → ConnectionState → Bool → Type 0
Stays max c true = Unit
Stays max c false =
    IsLive c
    × ((c.has_pending_write ≡ true) ⊎ ((try_extract_frame c.read_buffer max).0 ≡ need_more_data))

-- The kernel watches a connection that stays for writing exactly when a write is pending.
abbrev pub Heeds : ConnectionState → ConnectionState → List SystemCall → Bool → Type 0
Heeds c c' calls true = Unit
Heeds c c' calls false = watched c.has_pending_write calls ≡ c'.has_pending_write

Heeds-after :
    (c c' c'' : ConnectionState) (k l : List SystemCall) (should_close : Bool)
    → watched c.has_pending_write k ≡ c'.has_pending_write
    → Heeds c' c'' l should_close
    → Heeds c c'' (k ++ l) should_close
Heeds-after c c' c'' k l true h e = tt
Heeds-after c c' c'' k l false h e =
    watched-append c.has_pending_write k l ∙ ap (λ b. watched b l) h ∙ e

-- The connection with room in its read buffer.
abbrev pub roomy : ConnectionState → ConnectionState
roomy c = record c { read_buffer = make_room c.read_buffer }

abbrev pub filled : ConnectionState → List ℕ → ConnectionState
filled c bytes = record c { read_buffer = receive (make_room c.read_buffer) bytes }

module _ {F : Type 0} ⦃d : Double F⦄ (proto : Protobuf F) (store : CampaignStoreSnapshot F) where
  pub record Serves (r : WorkerRuntime F) (c : ConnectionState) (s : Served F) : Type 0 where
    pub talk : Conversation proto store c s.connection s.calls
    pub outcome : Stays r.config.max_frame_size s.connection s.should_close
    pub interest : Heeds c s.connection s.calls s.should_close
    pub keeps : Keeps r s.runtime
    pub same_fd : s.connection.fd ≡ c.fd

  -- An event goes on behind calls that were made before.
  pub Serves-after :
      (r r' : WorkerRuntime F) (c c' : ConnectionState) (calls : List SystemCall) (s : Served F)
      → Conversation proto store c c' calls
      → watched c.has_pending_write calls ≡ c'.has_pending_write
      → Keeps r r'
      → c'.fd ≡ c.fd
      → Serves r' c' s
      → Serves r c (after calls s)
  Serves-after r r' c c' calls s talk h k same_fd e = record {
    talk = Conversation-append proto store c c' s.connection calls s.calls talk e.talk;
    outcome =
        subst (λ (n : ℕ). Stays n s.connection s.should_close)
          (ap (λ x. x.max_frame_size) k.same_config) e.outcome;
    interest = Heeds-after c c' s.connection calls s.calls s.should_close h e.interest;
    keeps = record {
      same_config = e.keeps.same_config ∙ k.same_config;
      same_epoll_fd = e.keeps.same_epoll_fd ∙ k.same_epoll_fd;
      same_listen_fd = e.keeps.same_listen_fd ∙ k.same_listen_fd;
      same_next_connection_id = e.keeps.same_next_connection_id ∙ k.same_next_connection_id;
      same_campaign_store = e.keeps.same_campaign_store ∙ k.same_campaign_store;
      same_connections = e.keeps.same_connections ∙ k.same_connections;
    };
    same_fd = e.same_fd ∙ same_fd;
  }

  pub Serves-leaves :
      (r r' : WorkerRuntime F) (c c' : ConnectionState) (calls : List SystemCall)
      → Conversation proto store c c' calls
      → Keeps r r'
      → c'.fd ≡ c.fd
      → Serves r c (leaves r' c' calls)
  Serves-leaves r r' c c' calls talk k same_fd = record {
    talk = talk;
    outcome = tt;
    interest = tt;
    keeps = k;
    same_fd = same_fd;
  }

  pub Serves-stays :
      (r r' : WorkerRuntime F) (c c' : ConnectionState) (calls : List SystemCall)
      → Conversation proto store c c' calls
      → watched c.has_pending_write calls ≡ c'.has_pending_write
      → Keeps r r'
      → c'.fd ≡ c.fd
      → Stays r.config.max_frame_size c' false
      → Serves r c (stays r' c' calls)
  Serves-stays r r' c c' calls talk h k same_fd o = record {
    talk = talk;
    outcome = o;
    interest = h;
    keeps = k;
    same_fd = same_fd;
  }

  module _ (c : ConnectionState) (l : IsLive c) where
    pub roomy-IsLive : IsLive (roomy c)
    roomy-IsLive = record {
      read_valid = make_room-IsValid c.read_buffer l.read_valid;
      write_valid = l.write_valid;
      pending = l.pending;
    }

    pub roomy_talk : Conversation proto store c (roomy c) []
    roomy_talk =
        Conversation-quiet proto store c (roomy c) (unread-make_room c.read_buffer l.read_valid)
          refl

    pub filled-IsLive : (bytes : List ℕ) → IsLive (filled c bytes)
    filled-IsLive bytes = record {
      read_valid = receive-IsValid (make_room c.read_buffer) roomy-IsLive.read_valid bytes;
      write_valid = l.write_valid;
      pending = l.pending;
    }

    pub filled_talk :
        (bytes : List ℕ)
        → Conversation proto store c
            (filled c bytes)
            (receives c.fd (taken (make_room c.read_buffer) bytes) ∷ [])
    filled_talk bytes = record {
      exchanges = [];
      genuine = tt;
      incoming =
          ap (λ u. u ++ (taken (make_room c.read_buffer) bytes ++ []))
            (sym (unread-make_room c.read_buffer l.read_valid))
          ∙ ap (λ u. unread (make_room c.read_buffer) ++ u)
              (append-nil (taken (make_room c.read_buffer) bytes))
          ∙ sym (unread-receive (make_room c.read_buffer) roomy-IsLive.read_valid bytes);
      outgoing = append-nil (unread c.write_buffer);
      still = λ fd was_open. refl;
    }
