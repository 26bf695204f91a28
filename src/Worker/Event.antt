-- ===== src/Worker/Event.antt =====
-- `serve_client` of Worker/Client.antt: one event of a client in `run_worker_loop`
-- (src/worker_runtime.cc), the pending write included.
use rtb_engine.Base.{
  ℕ, ◌^◌, ◌-◌, ◌<◌, ◌≡◌, ◌⊎◌, refl, sym, ap, ◌∙◌, subst, inl, inr, Bool, true, false, not, ◌||◌,
  List, [], ◌∷◌, ◌++◌, arith, if◌then◌else◌, ◌==◌, All, Bool-cases,
}
use mathlib.Core.List.{append-nil}
use mathlib.Core.Bool.{false≢true}
use rtb_engine.Types.{CampaignStoreSnapshot}
use rtb_engine.Numbers.{ℤ, pos, negsuc}
use rtb_engine.Double.{Double}
use rtb_engine.Protobuf.{Protobuf, SerializesExactly}
use rtb_engine.Buffer.{need_more_data, readable_bytes, try_extract_frame}
use rtb_engine.Buffer.Stream.{unread}
use rtb_engine.Worker.{
  ConnectionState, WorkerRuntime, SystemCall, sends, watch, WriteResult, Flushed, FlushResult,
  signal_shutdown_fd, finish_flush, flush_pending_write,
}
use rtb_engine.Worker.Flush.{IsCount, Flushes, flush_loop-Flushes}
use rtb_engine.Worker.Client.{EventBits, ClientInput, Served, leaves, serve_flushed, serve_client}
use rtb_engine.Worker.Calls.{sent_bytes, received_bytes, open_after, watched}
use rtb_engine.Worker.Conversation.{Conversation, Conversation-quiet}
use rtb_engine.Worker.Exchange.{IsLive, Keeps-refl}
use rtb_engine.Worker.Serving.{Stays, Heeds, Serves, Serves-after, Serves-leaves, Serves-stays}
use rtb_engine.Worker.Session.{serve_frames-Serves}

signal_shutdown_fd-quiet :
    (fd : ℤ)
    → (sent_bytes (signal_shutdown_fd fd) ≡ []) × (received_bytes (signal_shutdown_fd fd) ≡ [])
unfolding signal_shutdown_fd
signal_shutdown_fd-quiet (pos n) = (refl, refl)
signal_shutdown_fd-quiet (negsuc n) = (refl, refl)

signals-quiet :
    (b : Bool) (fd : ℤ)
    → (sent_bytes (if b then signal_shutdown_fd fd else []) ≡ [])
      × (received_bytes (if b then signal_shutdown_fd fd else []) ≡ [])
signals-quiet true fd = signal_shutdown_fd-quiet fd
signals-quiet false fd = (refl, refl)

signals-still :
    (b : Bool) (shutdown_fd : ℤ) (fd : ℕ) (was_open : Bool)
    → open_after fd was_open (if b then signal_shutdown_fd shutdown_fd else []) ≡ was_open
unfolding signal_shutdown_fd
signals-still true (pos n) fd was_open = refl
signals-still true (negsuc n) fd was_open = refl
signals-still false shutdown_fd fd was_open = refl

watched-signals :
    (write b : Bool) (fd : ℤ) → watched write (if b then signal_shutdown_fd fd else []) ≡ write
unfolding signal_shutdown_fd
watched-signals write true (pos n) = refl
watched-signals write true (negsuc n) = refl
watched-signals write false fd = refl

watch_signals :
    (old write updated b : Bool) (fd shutdown_fd : ℤ)
    → updated ≡ true
    → watched old (watch fd write updated ∷ (if b then signal_shutdown_fd shutdown_fd else []))
      ≡ write
watch_signals old write true b fd shutdown_fd h = watched-signals write b shutdown_fd
watch_signals old write false b fd shutdown_fd h = absurd (false≢true h)

module _ {F : Type 0} ⦃d : Double F⦄ (proto : Protobuf F) (store : CampaignStoreSnapshot F) where
  record FlushStep (c : ConnectionState) (f : FlushResult) : Type 0 where
    talk : Conversation proto store c f.connection f.calls
    lives : f.returned ≡ true → IsLive f.connection
    interest :
        f.returned ≡ true → watched c.has_pending_write f.calls ≡ f.connection.has_pending_write
    same_fd : f.connection.fd ≡ c.fd

  module _ (r : WorkerRuntime F) (c : ConnectionState) (l : IsLive c) (fl : Flushed)
      (e : Flushes c.write_buffer [] fl) where
    flush_talk :
        (pending : Bool) (tail : List SystemCall)
        → sent_bytes tail ≡ []
        → received_bytes tail ≡ []
        → ((fd : ℕ) (was_open : Bool) → open_after fd was_open tail ≡ was_open)
        → Conversation proto store c
            (record c { write_buffer = fl.write_buffer; has_pending_write = pending })
            (sends c.fd fl.sent ∷ tail)
    flush_talk pending tail no_sends no_reads no_close = record {
      exchanges = [];
      genuine = tt;
      incoming = ap (λ u. unread c.read_buffer ++ u) no_reads ∙ append-nil (unread c.read_buffer);
      outgoing =
          append-nil (unread c.write_buffer)
          ∙ sym e.stream
          ∙ ap (λ u. u ++ unread fl.write_buffer)
              (sym (append-nil fl.sent) ∙ ap (λ u. fl.sent ++ u) (sym no_sends));
      still = no_close;
    }

    finish_flush-FlushStep : (updated : Bool) → FlushStep c (finish_flush updated r c fl)
    unfolding finish_flush
    finish_flush-FlushStep updated = elim (Bool-cases fl.connected) [
      | inr broken ↦ rw broken (record {
        talk = flush_talk c.has_pending_write [] refl refl (λ fd was_open. refl);
        lives = λ h. absurd (false≢true h);
        interest = λ h. absurd (false≢true h);
        same_fd = refl;
      })
      | inl connected ↦ rw connected (record {
        talk =
            flush_talk pending _ (signals-quiet _ r.config.shutdown_fd).0
              (signals-quiet _ r.config.shutdown_fd).1 (signals-still _ r.config.shutdown_fd);
        lives = λ h. record { read_valid = l.read_valid; write_valid = e.is_valid; pending = refl };
        interest =
            λ h. watch_signals c.has_pending_write pending updated _ c.fd r.config.shutdown_fd h;
        same_fd = refl;
      })
    ]
      where
        pending : Bool
        pending = not (readable_bytes fl.write_buffer == 0)

  flush_pending_write-FlushStep :
      (results : List WriteResult) (updated : Bool) (r : WorkerRuntime F) (c : ConnectionState)
      → IsLive c
      → All IsCount results
      → FlushStep c (flush_pending_write results updated r c)
  unfolding flush_pending_write
  flush_pending_write-FlushStep results updated r c l counts =
      finish_flush-FlushStep r c l _
        (flush_loop-Flushes results c.write_buffer [] l.write_valid counts) updated

  -- A test, with what it says in each branch.
  tested :
      (r : WorkerRuntime F) (c : ConnectionState) (b : Bool) (s t : Served F)
      → (b ≡ true → Serves proto store r c s)
      → (b ≡ false → Serves proto store r c t)
      → Serves proto store r c (if b then s else t)
  tested r c true s t yes_case no_case = yes_case refl
  tested r c false s t yes_case no_case = no_case refl

  module _ (laws : SerializesExactly F proto) (r : WorkerRuntime F) (c : ConnectionState)
      (l : IsLive c) (small : r.config.max_frame_size < 2 ^ 32 - 4) (input : ClientInput) where
    serve_flushed-Serves :
        (f : FlushResult)
        → FlushStep c f
        → f.returned ≡ true
        → Serves proto store r c (serve_flushed proto store input r f)
    unfolding serve_flushed
    serve_flushed-Serves f e returned =
        tested r c f.connection.has_pending_write _ _
          (λ pending.
            Serves-stays proto store r r c f.connection f.calls e.talk (e.interest returned)
              (Keeps-refl r) e.same_fd (e.lives returned, inl pending))
          (λ done.
            Serves-after proto store r r c f.connection f.calls _ e.talk (e.interest returned)
              (Keeps-refl r) e.same_fd
              (serve_frames-Serves proto store laws input.now input.frame_updated input.reads r
                f.connection
                (record { small = small; live = e.lives returned; not_pending = done })))

    nothing : Conversation proto store c c []
    nothing = Conversation-quiet proto store c c refl refl

    -- With a serializer that fills an array of the announced size, a maximum frame size below 2 ^
    -- 32 - 4, counts of `write` that fit an `ssize_t`, and a connection whose buffers are valid
    -- and whose pending flag agrees with its write buffer, one event is a conversation: the bytes
    -- read, behind those that were unread, are whole frames, each accepted by the parser, and the
    -- bytes still unread; the bytes written are the bytes that were pending and the framed answers
    -- of `handle_request` to these frames, in order, up to what is still to be written. The event
    -- opens and closes no descriptor, a connection that stays is in order again, and of the
    -- runtime only the scratch message, the generator and the recorder change.
    pub serve_client-Serves :
        (bits : EventBits)
        → All IsCount input.writes
        → Serves proto store r c (serve_client proto store bits input r c)
    unfolding serve_client
    serve_client-Serves bits counts =
        tested r c (bits.is_error || bits.is_hangup || bits.is_read_hangup) _ _
          (λ gone. Serves-leaves proto store r r c c [] nothing (Keeps-refl r) refl)
          (λ here.
            tested r c (not c.has_pending_write) _ _
              (λ idle.
                serve_frames-Serves proto store laws input.now input.frame_updated input.reads r c
                  (record { small = small; live = l; not_pending = ground (arith, idle) }))
              (λ pending.
                tested r c (not bits.is_writable) _ _
                  (λ blocked.
                    Serves-stays proto store r r c c [] nothing refl (Keeps-refl r) refl
                      (l, inl (ground (arith, pending))))
                  (λ writable. flushes)))
      where
        flushed : FlushResult
        flushed = flush_pending_write input.writes input.flush_updated r c

        flush : FlushStep c flushed
        flush = flush_pending_write-FlushStep input.writes input.flush_updated r c l counts

        flushes : Serves proto store r c (
            if not flushed.returned
            then leaves r flushed.connection flushed.calls
            else serve_flushed proto store input r flushed)
        flushes =
            tested r c (not flushed.returned) _ _
              (λ failed.
                Serves-leaves proto store r r c flushed.connection flushed.calls flush.talk
                  (Keeps-refl r) flush.same_fd)
              (λ returned. serve_flushed-Serves flushed flush (ground (arith, returned)))

    -- Under the same conditions, a connection that stays either has a response to write or has no
    -- whole frame in its read buffer, so that no request waits unanswered for more bytes; and if
    -- the kernel watched it for writing exactly when a write was pending, it does so again.
    pub serve_client-waits :
        (bits : EventBits)
        → All IsCount input.writes
        → (let served = serve_client proto store bits input r c in
            served.should_close ≡ false
            → ((served.connection.has_pending_write ≡ true)
                ⊎ ((try_extract_frame served.connection.read_buffer r.config.max_frame_size).0
                    ≡ need_more_data))
              × (watched c.has_pending_write served.calls ≡ served.connection.has_pending_write))
    serve_client-waits bits counts stayed =
        let e = serve_client-Serves bits counts in
        let served = serve_client proto store bits input r c in
        (
          (subst (Stays r.config.max_frame_size served.connection) stayed e.outcome).1,
          subst (Heeds c served.connection served.calls) stayed e.interest,
        )
