-- ===== src/Worker/Flush.antt =====
-- `flush_pending_write` of src/worker_runtime.cc: the bytes that it sends, and the ones it keeps.
use rtb_engine.Base.{
  ℕ, ◌^◌, ◌<◌, ◌≡◌, refl, ap, ◌∙◌, inl, inr, Bool, true, false, List, [], ◌∷◌, ◌++◌, arith, ◌==◌,
  take, drop, All, take-append-drop, Bool-cases,
}
use mathlib.Core.List.{append_assoc}
use rtb_engine.Buffer.{ReusableBuffer, readable_bytes, consume_frame}
use rtb_engine.Buffer.Inv.{IsValid, readable_bytes_lem, consume_frame-IsValid}
use rtb_engine.Buffer.Stream.{unread, unread-consume_frame}
use rtb_engine.Worker.{
  WriteResult, wrote, wrote_nothing, interrupted, would_block, write_error, Flushed, readable,
  flush_loop,
}

-- A count that `write` returns is an `ssize_t`.
abbrev pub IsCount : WriteResult → Type 0
IsCount (wrote n) = n < 2 ^ 63
IsCount wrote_nothing = Unit
IsCount interrupted = Unit
IsCount would_block = Unit
IsCount write_error = Unit

readable_lem : (b : ReusableBuffer) → IsValid b → readable b ≡ unread b
unfolding readable
readable_lem b v = ap (λ n. take n (drop b.read_offset b.storage)) (readable_bytes_lem b v)

consumed :
    (b : ReusableBuffer) (sent : List ℕ) (n : ℕ)
    → IsValid b
    → n < 2 ^ 63
    → (sent ++ take n (readable b)) ++ unread (consume_frame b n) ≡ sent ++ unread b
consumed b sent n v h =
    ap (λ u. (sent ++ take n u) ++ unread (consume_frame b n)) (readable_lem b v)
    ∙ ap (λ u. (sent ++ take n (unread b)) ++ u) (unread-consume_frame b n v (omega (arith, v)))
    ∙ append_assoc sent (take n (unread b)) (drop n (unread b))
    ∙ ap (λ u. sent ++ u) (take-append-drop n (unread b))

-- What the loop sent and what is left are what was to be sent.
pub record Flushes (b : ReusableBuffer) (sent : List ℕ) (f : Flushed) : Type 0 where
  pub is_valid : IsValid f.write_buffer
  pub stream : f.sent ++ unread f.write_buffer ≡ sent ++ unread b

stops :
    (b : ReusableBuffer) (sent : List ℕ) (connected : Bool)
    → IsValid b
    → Flushes b sent (record { connected = connected; write_buffer = b; sent = sent })
stops b sent connected v = record { is_valid = v; stream = refl }

goes_on :
    (b : ReusableBuffer) (sent : List ℕ) (n : ℕ) (f : Flushed)
    → IsValid b
    → n < 2 ^ 63
    → Flushes (consume_frame b n) (sent ++ take n (readable b)) f
    → Flushes b sent f
goes_on b sent n f v h e = record {
  is_valid = e.is_valid;
  stream = e.stream ∙ consumed b sent n v h;
}

pub flush_loop-Flushes :
    (results : List WriteResult) (b : ReusableBuffer) (sent : List ℕ)
    → IsValid b
    → All IsCount results
    → Flushes b sent (flush_loop results b sent)
unfolding flush_loop
flush_loop-Flushes [] b sent v counts = stops b sent true v
flush_loop-Flushes (wrote n ∷ results) b sent v counts = elim (Bool-cases (readable_bytes b == 0)) [
  | inl e ↦ rw e (stops b sent true v)
  | inr e ↦ rw e (
      goes_on b sent n _ v counts.0 (
        flush_loop-Flushes results (consume_frame b n) (sent ++ take n (readable b))
          (consume_frame-IsValid b n v (omega (arith, v, counts.0))) counts.1))
]
flush_loop-Flushes (wrote_nothing ∷ results) b sent v counts =
    elim (Bool-cases (readable_bytes b == 0)) [
      | inl e ↦ rw e (stops b sent true v)
      | inr e ↦ rw e (stops b sent false v)
    ]
flush_loop-Flushes (interrupted ∷ results) b sent v counts =
    elim (Bool-cases (readable_bytes b == 0)) [
      | inl e ↦ rw e (stops b sent true v)
      | inr e ↦ rw e (flush_loop-Flushes results b sent v counts.1)
    ]
flush_loop-Flushes (would_block ∷ results) b sent v counts =
    elim (Bool-cases (readable_bytes b == 0)) [
      | inl e ↦ rw e (stops b sent true v)
      | inr e ↦ rw e (stops b sent true v)
    ]
flush_loop-Flushes (write_error ∷ results) b sent v counts =
    elim (Bool-cases (readable_bytes b == 0)) [
      | inl e ↦ rw e (stops b sent true v)
      | inr e ↦ rw e (stops b sent false v)
    ]
