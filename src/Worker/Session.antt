-- ===== src/Worker/Session.antt =====
-- The reads and frames of one event in `run_worker_loop` (src/worker_runtime.cc): `read_loop`,
-- `serve_frames` and `serve_client` of Worker/Client.antt, on all their branches.
use rtb_engine.Base.{
  ℕ, ◌-◌, ◌^◌, ◌<◌, ◌≡◌, ◌⊎◌, refl, sym, ap, ◌∙◌, subst, inl, inr, Bool, false, List, [], ◌∷◌, ◌++◌,
  arith, if◌then◌else◌, ◌==◌, Bool-cases,
}
use rtb_engine.Types.{CampaignStoreSnapshot}
use rtb_engine.Double.{Double}
use rtb_engine.Protobuf.{Protobuf, SerializesExactly}
use rtb_engine.Buffer.{need_more_data, writable_region, try_extract_frame}
use rtb_engine.Worker.{ConnectionState, WorkerConfig, WorkerRuntime, SystemCall, receives}
use rtb_engine.Worker.Frames.{
  ProcessFramesOutcome, keep_on, pause_for_write, close_connection, Processed, process_ready_frames,
}
use rtb_engine.Worker.Client.{
  ReadResult, arrived, end_of_file, interrupted, would_block, read_error, Served, stays, leaves,
  make_room, taken, proceed, read_loop, serve_frames,
}
use rtb_engine.Worker.Calls.{watched, watched-append}
use rtb_engine.Worker.Conversation.{Conversation, Conversation-append, Conversation-quiet}
use rtb_engine.Worker.Exchange.{IsLive, Keeps-refl, Settled, Watches, FrameStep}
use rtb_engine.Worker.Answer.{process_ready_frames-FrameStep}
use rtb_engine.Worker.Serving.{
  same_status, unread-make_room, Serves, Serves-after, Serves-leaves, Serves-stays, roomy,
  roomy-IsLive, roomy_talk, filled, filled-IsLive, filled_talk,
}

-- A connection that may be read from.
pub record IsIdle {F : Type 0} (r : WorkerRuntime F) (c : ConnectionState) : Type 0 where
  pub small : r.config.max_frame_size < 2 ^ 32 - 4
  pub live : IsLive c
  pub not_pending : c.has_pending_write ≡ false

-- One in which no whole frame is buffered.
pub record IsDrained {F : Type 0} (r : WorkerRuntime F) (c : ConnectionState) : Type 0 where
  pub idle : IsIdle r c
  pub waiting : (try_extract_frame c.read_buffer r.config.max_frame_size).0 ≡ need_more_data

outcome-cases :
    (o : ProcessFramesOutcome) → (o ≡ keep_on) ⊎ ((o ≡ pause_for_write) ⊎ (o ≡ close_connection))
outcome-cases keep_on = inl refl
outcome-cases pause_for_write = inr (inl refl)
outcome-cases close_connection = inr (inr refl)

module _ {F : Type 0} ⦃d : Double F⦄ (proto : Protobuf F) (store : CampaignStoreSnapshot F)
    (laws : SerializesExactly F proto) (now : ℕ → ℕ) (updated : Bool) where
  step :
      (r : WorkerRuntime F) (c : ConnectionState)
      → IsIdle r c
      → FrameStep proto store r c (process_ready_frames proto store now updated r c)
  step r c i =
      process_ready_frames-FrameStep proto store r c now updated laws i.live.read_valid
        i.live.write_valid (ground (arith, i.live.pending, i.not_pending)) i.small

  proceed-Serves :
      (r : WorkerRuntime F) (c c' : ConnectionState) (calls : List SystemCall) (p : Processed F)
      (rest : Served F)
      → Conversation proto store c c' calls
      → watched c.has_pending_write calls ≡ c'.has_pending_write
      → c'.fd ≡ c.fd
      → IsIdle r c'
      → FrameStep proto store r c' p
      → (IsDrained p.runtime p.connection → Serves proto store p.runtime p.connection rest)
      → Serves proto store r c (proceed calls p rest)
  unfolding proceed
  proceed-Serves r c c' calls p rest talk heard same_fd i s on = elim (outcome-cases p.outcome) [
    | inl e ↦ rw e (
        Serves-after proto store r p.runtime c p.connection (calls ++ p.calls) rest joined
          (hears (subst (Watches c' p.connection p.calls) e s.interest)) s.keeps fd
          (on (drained e)))
    | inr (inl e) ↦ rw e (
        Serves-stays proto store r p.runtime c p.connection (calls ++ p.calls) joined
          (hears (subst (Watches c' p.connection p.calls) e s.interest)) s.keeps fd
          (let (l, pending) = subst (Settled r.config.max_frame_size c' p.connection) e s.settled in
            (l, inl pending)))
    | inr (inr e) ↦
        rw e (
          Serves-leaves proto store r p.runtime c p.connection (calls ++ p.calls) joined s.keeps fd)
  ]
    where
      joined : Conversation proto store c p.connection (calls ++ p.calls)
      joined = Conversation-append proto store c c' p.connection calls p.calls talk s.talk

      hears :
          watched c'.has_pending_write p.calls ≡ p.connection.has_pending_write
          → watched c.has_pending_write (calls ++ p.calls) ≡ p.connection.has_pending_write
      hears h =
          watched-append c.has_pending_write calls p.calls ∙ ap (λ b. watched b p.calls) heard ∙ h

      fd : p.connection.fd ≡ c.fd
      fd = s.same_fd ∙ same_fd

      drained : p.outcome ≡ keep_on → IsDrained p.runtime p.connection
      drained e =
          let (same, waiting) =
            subst (Settled r.config.max_frame_size c' p.connection) e s.settled in
          let config = sym s.keeps.same_config in
          subst (IsDrained p.runtime) (sym same) (record {
            idle = record {
              small = subst (λ (k : WorkerConfig). k.max_frame_size < 2 ^ 32 - 4) config i.small;
              live = i.live;
              not_pending = i.not_pending;
            };
            waiting =
                subst
                  (λ (k : WorkerConfig).
                    (try_extract_frame c'.read_buffer k.max_frame_size).0 ≡ need_more_data)
                  config waiting;
          })

  module _ (r : WorkerRuntime F) (c : ConnectionState) (i : IsDrained r c) where
    roomy-IsDrained : IsDrained r (roomy c)
    roomy-IsDrained = record {
      idle = record {
        small = i.idle.small;
        live = roomy-IsLive proto store c i.idle.live;
        not_pending = i.idle.not_pending;
      };
      waiting =
          same_status c.read_buffer (make_room c.read_buffer) r.config.max_frame_size
            i.idle.live.read_valid (roomy-IsLive proto store c i.idle.live).read_valid
            (unread-make_room c.read_buffer i.idle.live.read_valid)
          ∙ i.waiting;
    }

    blocks : Serves proto store r c (stays r (roomy c) [])
    blocks =
        Serves-stays proto store r r c (roomy c) [] (roomy_talk proto store c i.idle.live) refl
          (Keeps-refl r) refl ((roomy-IsDrained).idle.live, inr (roomy-IsDrained).waiting)

    ends : Serves proto store r c (leaves r (roomy c) [])
    ends =
        Serves-leaves proto store r r c (roomy c) [] (roomy_talk proto store c i.idle.live)
          (Keeps-refl r) refl

    -- The loop ends when there is no room.
    unless_full :
        (s : Served F)
        → Serves proto store r c s
        → Serves proto store r c (
            if (writable_region (make_room c.read_buffer)).1 == 0 then leaves r (roomy c) [] else s)
    unless_full s e = elim (Bool-cases ((writable_region (make_room c.read_buffer)).1 == 0)) [
      | inl full ↦ rw full ends
      | inr room ↦ rw room e
    ]

    filled-IsIdle : (bytes : List ℕ) → IsIdle r (filled c bytes)
    filled-IsIdle bytes = record {
      small = i.idle.small;
      live = filled-IsLive proto store c i.idle.live bytes;
      not_pending = i.idle.not_pending;
    }

    reads :
        (bytes : List ℕ) (rest : Served F)
        → (let p = process_ready_frames proto store now updated r (filled c bytes) in
            IsDrained p.runtime p.connection → Serves proto store p.runtime p.connection rest)
        → Serves proto store r c (
            proceed
              (receives c.fd (taken (make_room c.read_buffer) bytes) ∷ [])
              (process_ready_frames proto store now updated r (filled c bytes))
              rest)
    reads bytes rest on =
        proceed-Serves r c (filled c bytes) _ _ rest (filled_talk proto store c i.idle.live bytes)
          refl refl (filled-IsIdle bytes) (step r (filled c bytes) (filled-IsIdle bytes)) on

  read_loop-Serves :
      (results : List ReadResult) (r : WorkerRuntime F) (c : ConnectionState)
      → IsDrained r c
      → Serves proto store r c (read_loop proto store now updated results r c)
  unfolding read_loop
  read_loop-Serves [] r c i = unless_full r c i _ (blocks r c i)
  read_loop-Serves (arrived byte bytes ∷ results) r c i =
      unless_full r c i _
        (reads r c i (byte ∷ bytes) _ (λ drained. read_loop-Serves results _ _ drained))
  read_loop-Serves (end_of_file ∷ results) r c i = unless_full r c i _ (ends r c i)
  read_loop-Serves (interrupted ∷ results) r c i = unless_full r c i _ (
      Serves-after proto store r r c (roomy c) [] _ (roomy_talk proto store c i.idle.live) refl
        (Keeps-refl r) refl (read_loop-Serves results r (roomy c) (roomy-IsDrained r c i)))
  read_loop-Serves (would_block ∷ results) r c i = unless_full r c i _ (blocks r c i)
  read_loop-Serves (read_error ∷ results) r c i = unless_full r c i _ (ends r c i)

  pub serve_frames-Serves :
      (results : List ReadResult) (r : WorkerRuntime F) (c : ConnectionState)
      → IsIdle r c
      → Serves proto store r c (serve_frames proto store now updated results r c)
  unfolding serve_frames
  serve_frames-Serves results r c i =
      proceed-Serves r c c [] _ _ (Conversation-quiet proto store c c refl refl) refl refl i
        (step r c i) (λ drained. read_loop-Serves results _ _ drained)
