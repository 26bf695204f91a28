-- ===== src/Buffer/Frames.antt =====
-- Frames in a stream of bytes: `try_extract_frame` and `consume_frame` of src/frame.cc.
use rtb_engine.Base.{
  ℕ, ◌+◌, ◌-◌, ◌^◌, ◌≤◌, ◌<◌, ◌≡◌, ◌≢◌, refl, sym, ap, ◌∙◌, List, ◌++◌, arith, length, take, drop,
  length-append, length-drop, drop-append_le, drop-drop, take-append_le, take-length, drop-length,
}
use rtb_engine.Buffer.{
  ReusableBuffer, frame_ready, readable_bytes, network_length, ready_frame, try_extract_frame,
  consume_frame,
}
use rtb_engine.Buffer.Bytes.{be_value, be_bytes, length-be_bytes, be_value-be_bytes}
use rtb_engine.Buffer.Inv.{IsValid, readable_bytes_lem}
use rtb_engine.Buffer.Stream.{unread, length-unread, unread-consume_frame}
use rtb_engine.Buffer.Extract.{
  announced, frame_at, announced-unread, frame_at-unread, extract_whole, frame_ready_inv,
}

announced-framed :
    (payload rest : List ℕ)
    → length payload < 2 ^ 32
    → announced (be_bytes (length payload) ++ (payload ++ rest)) ≡ length payload
unfolding be_bytes
announced-framed payload rest h = be_value-be_bytes (length payload) h

payload-framed :
    (payload rest : List ℕ)
    → drop 4 (be_bytes (length payload) ++ (payload ++ rest)) ≡ payload ++ rest
unfolding be_bytes
payload-framed payload rest = refl

frame_at-framed :
    (payload rest : List ℕ)
    → length payload < 2 ^ 32
    → frame_at (be_bytes (length payload) ++ (payload ++ rest)) ≡ record {
      payload = payload;
      payload_length = length payload;
      total_frame_bytes = 4 + length payload;
    }
frame_at-framed payload rest h = ground (
  arith,
  announced-framed payload rest h,
  ap (take (length payload)) (payload-framed payload rest),
  take-length payload rest,
)

-- In a valid buffer, and with a maximum below 2 ^ 32 - 4, when the unread bytes start with the
-- frame of a payload of a permitted length, that payload is extracted, whatever follows.
pub extract_framed :
    (b : ReusableBuffer) (max : ℕ) (payload rest : List ℕ)
    → IsValid b
    → max < 2 ^ 32 - 4
    → 0 < length payload
    → length payload ≤ max
    → unread b ≡ be_bytes (length payload) ++ (payload ++ rest)
    → try_extract_frame b max ≡ (
      frame_ready,
      record {
        payload = payload;
        payload_length = length payload;
        total_frame_bytes = 4 + length payload;
      },
    )
extract_framed b max payload rest v small positive fits stream =
    extract_whole b max (omega (arith, size)) (omega (arith, size))
      (omega (arith, size, room, readable_bytes_lem b v))
    ∙ ap (λ f. (frame_ready, f))
        (frame_at-unread b (omega (arith, size, room)) (omega (arith, size))
          ∙ ap frame_at stream
          ∙ frame_at-framed payload rest (omega arith))
  where
    room : 4 + length payload ≤ b.write_offset - b.read_offset
    room = omega (
      arith,
      length-unread b v,
      readable_bytes_lem b v,
      ap length stream,
      length-append (be_bytes (length payload)) (payload ++ rest),
      length-append payload rest,
      length-be_bytes (length payload),
    )

    size : network_length b ≡ length payload
    size =
        sym (announced-unread b (omega (arith, room)))
        ∙ ap announced stream
        ∙ announced-framed payload rest (omega arith)

-- In a valid buffer, consuming a frame of fewer than 2 ^ 32 bytes at the start of the unread bytes
-- leaves exactly what followed it.
pub unread-consume-framed :
    (b : ReusableBuffer) (payload rest : List ℕ)
    → IsValid b
    → length payload < 2 ^ 32 - 4
    → unread b ≡ be_bytes (length payload) ++ (payload ++ rest)
    → unread (consume_frame b (4 + length payload)) ≡ rest
unread-consume-framed b payload rest v small stream =
    unread-consume_frame b (4 + length payload) v (omega (arith, v))
    ∙ ap (drop (4 + length payload)) stream
    ∙ sym (drop-drop 4 (length payload) _)
    ∙ ap (drop (length payload)) (payload-framed payload rest)
    ∙ drop-length payload rest

announced-append : (s more : List ℕ) → 4 ≤ length s → announced (s ++ more) ≡ announced s
announced-append s more h = ap be_value (take-append_le 4 s more h)

frame_at-append : (s more : List ℕ) → 4 + announced s ≤ length s → frame_at (s ++ more) ≡ frame_at s
frame_at-append s more h = ground (arith, announced-append s more, payload)
  where
    payload : take (announced s) (drop 4 (s ++ more)) ≡ take (announced s) (drop 4 s)
    payload =
        ap (take (announced s)) (drop-append_le 4 s more (omega arith))
        ∙ take-append_le (announced s) (drop 4 s) more (omega (arith, length-drop 4 s))

-- In valid buffers, and with a maximum below 2 ^ 32 - 4, a frame that was extracted stays the
-- first frame when more bytes arrive behind it.
pub extract_more :
    (b b' : ReusableBuffer) (max : ℕ) (more : List ℕ)
    → IsValid b
    → IsValid b'
    → max < 2 ^ 32 - 4
    → unread b' ≡ unread b ++ more
    → (try_extract_frame b max).0 ≡ frame_ready
    → try_extract_frame b' max ≡ try_extract_frame b max
extract_more b b' max more v v' small grown ready =
    extract_whole b' max (omega (arith, size, found)) (omega (arith, size, found))
      (omega (arith, size, found, length-unread b' v', longer, length-unread b v))
    ∙ ap (λ f. (frame_ready, f))
        (frame_at-unread b'
            (omega (
              arith,
              size,
              found,
              longer,
              length-unread b' v',
              length-unread b v,
              readable_bytes_lem b' v',
            ))
            (omega (arith, size, found))
          ∙ ap frame_at grown
          ∙ frame_at-append (unread b) more (omega (arith, read, found, length-unread b v))
          ∙ sym (
              frame_at-unread b (omega (arith, found, readable_bytes_lem b v))
                (omega (arith, found))))
    ∙ sym (extract_whole b max found.0 found.1 found.2)
  where
    found :
        (0 < network_length b)
        × (network_length b ≤ max)
        × (4 + network_length b ≤ readable_bytes b)
        × ((try_extract_frame b max).1 ≡ ready_frame b (network_length b))
    found = frame_ready_inv b max ready

    read : announced (unread b) ≡ network_length b
    read = announced-unread b (omega (arith, found, readable_bytes_lem b v))

    longer : length (unread b') ≡ length (unread b) + length more
    longer = ap length grown ∙ length-append (unread b) more

    size : network_length b' ≡ network_length b
    size =
        sym (
          announced-unread b' (
            omega (
              arith,
              found,
              longer,
              length-unread b' v',
              length-unread b v,
              readable_bytes_lem b' v',
            )))
        ∙ ap announced grown
        ∙ announced-append (unread b) more (omega (arith, found, length-unread b v))
        ∙ read

-- In a valid buffer, a frame that is longer than the storage is never ready, although its length
-- may be permitted.
pub extract_oversized :
    (b : ReusableBuffer) (max : ℕ)
    → IsValid b
    → length b.storage < 4 + network_length b
    → (try_extract_frame b max).0 ≢ frame_ready
extract_oversized b max v h ready =
    absurd (omega (arith, frame_ready_inv b max ready, readable_bytes_lem b v))
