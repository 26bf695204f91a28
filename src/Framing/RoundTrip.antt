-- ===== src/Framing/RoundTrip.antt =====
-- `stage_response_frame` (src/response_framing.cc) and a reader with the same framing.
use rtb_engine.Base.{
  ℕ, ◌+◌, ◌-◌, ◌^◌, ◌≤◌, ◌<◌, ◌≡◌, refl, sym, ap, ◌∙◌, ◌↔◌, ◌≢◌, ◌⊎◌, subst, inl, inr, Bool, true,
  false, List, [], ◌++◌, some, arith, length, take, drop, Option-cases,
}
use rtb_engine.Types.{max_outbound_frame_size}
use rtb_engine.Protobuf.{Protobuf, BidResponse, SerializesExactly}
use rtb_engine.Buffer.{ReusableBuffer, frame_ready, readable_bytes, reserve, try_extract_frame}
use rtb_engine.Buffer.Bytes.{be_bytes, overwrite, length-be_bytes, length-overwrite, take-overwrite}
use rtb_engine.Buffer.Inv.{IsValid, length-reserve, reserve-IsValid, readable_bytes_lem}
use rtb_engine.Buffer.Stream.{unread}
use rtb_engine.Buffer.Frames.{extract_framed}
use rtb_engine.Framing.{write_frame, stage_response_frame}
use mathlib.Core.List.{append_assoc}
use mathlib.Core.Bool.{false≢true}
use native.Mathlib.Decide.{dec_lt, ℕ_discrete}

-- Header and payload, written one behind the other.
abbrev framed_storage : List ℕ → List ℕ → List ℕ
framed_storage xs bytes = overwrite (overwrite xs 0 (be_bytes (length bytes))) 4 bytes

length-header :
    (xs bytes : List ℕ)
    → 4 + length bytes ≤ length xs
    → length (overwrite xs 0 (be_bytes (length bytes))) ≡ length xs
length-header xs bytes h =
    length-overwrite xs 0 (be_bytes (length bytes)) (omega (arith, length-be_bytes (length bytes)))

length-framed_storage :
    (xs bytes : List ℕ)
    → 4 + length bytes ≤ length xs
    → length (framed_storage xs bytes) ≡ length xs
length-framed_storage xs bytes h =
    length-overwrite (overwrite xs 0 (be_bytes (length bytes))) 4 bytes
      (omega (arith, length-header xs bytes h))
    ∙ length-header xs bytes h

take-framed_storage :
    (xs bytes : List ℕ)
    → 4 + length bytes ≤ length xs
    → take (4 + length bytes) (framed_storage xs bytes) ≡ be_bytes (length bytes) ++ bytes
take-framed_storage xs bytes h =
    take-overwrite (overwrite xs 0 (be_bytes (length bytes))) 4 bytes
      (omega (arith, length-header xs bytes h))
    ∙ ap (λ n. take n (overwrite xs 0 (be_bytes (length bytes))) ++ bytes)
        (let e : 4 ≡ 0 + length (be_bytes (length bytes)) =
            omega (arith, length-be_bytes (length bytes)) in
          e)
    ∙ ap (λ l. l ++ bytes) (take-overwrite xs 0 (be_bytes (length bytes)) (omega arith))

-- The buffer that holds exactly the frame of `bytes`.
pub record Holds (bytes : List ℕ) (b : ReusableBuffer) : Type 0 where
  pub is_valid : IsValid b
  pub stream : unread b ≡ be_bytes (length bytes) ++ bytes

Holds-framed_storage :
    (xs bytes : List ℕ)
    → 4 + length bytes ≤ length xs
    → length xs < 2 ^ 63
    → Holds bytes (record {
      storage = framed_storage xs bytes;
      read_offset = 0;
      write_offset = 4 + length bytes;
    })
Holds-framed_storage xs bytes h k = record {
  is_valid = omega (arith, length-framed_storage xs bytes h);
  stream =
      ap (λ n. take n (framed_storage xs bytes)) (omega arith) ∙ take-framed_storage xs bytes h;
}

unread_of_none : (b : ReusableBuffer) → b.write_offset - b.read_offset ≡ 0 → unread b ≡ []
unread_of_none b h = ap (λ n. take n (drop b.read_offset b.storage)) h

module _ {F : Type 0} (proto : Protobuf F) where
  open proto use {byte_size_long, serialize_to_array}

  write_frame-Holds :
      (r : BidResponse F) (b : ReusableBuffer) (bytes : List ℕ)
      → IsValid b
      → 4 + length bytes ≤ length b.storage
      → serialize_to_array r (length bytes) ≡ some bytes
      → ((write_frame proto r (length bytes) b).0 ≡ true)
        × Holds bytes (write_frame proto r (length bytes) b).1
  unfolding write_frame
  write_frame-Holds r b bytes v room e =
      rw (e, write_frame) (refl, Holds-framed_storage b.storage bytes room v.small)

  -- A failed write leaves an empty buffer.
  write_frame_failed :
      (r : BidResponse F) (n : ℕ) (b : ReusableBuffer)
      → (write_frame proto r n b).0 ≡ false
      → unread (write_frame proto r n b).1 ≡ []
  unfolding write_frame
  write_frame_failed r n b h = elim (Option-cases (serialize_to_array r n)) [
    | inl e ↦ rw (e, write_frame) refl
    | inr (bytes, e) ↦ absurd (false≢true (sym h ∙ rw (e, write_frame) refl))
  ]

  module _ (r : BidResponse F) (b : ReusableBuffer) where
    stage_writes :
        0 < byte_size_long r
        → byte_size_long r ≤ max_outbound_frame_size
        → readable_bytes b ≡ 0
        → stage_response_frame proto r b
          ≡ write_frame proto r (byte_size_long r) (reserve b (4 + byte_size_long r))
    unfolding stage_response_frame
    stage_writes h k l = ground (arith, length-reserve b (4 + byte_size_long r))

    stage_refuses :
        (readable_bytes b ≢ 0)
          ⊎ ((byte_size_long r ≡ 0) ⊎ (max_outbound_frame_size < byte_size_long r))
        → stage_response_frame proto r b ≡ (false, b)
    unfolding stage_response_frame
    stage_refuses h = ground arith

    -- With an empty buffer and a response of a permitted size, staging succeeds and the buffer then
    -- holds the length of the serialized response, in network order, and its bytes.
    pub stage_response_frame-Holds :
        SerializesExactly F proto
        → IsValid b
        → readable_bytes b ≡ 0
        → 0 < byte_size_long r
        → byte_size_long r ≤ max_outbound_frame_size
        → (bytes : List ℕ) × (serialize_to_array r (byte_size_long r) ≡ some bytes)
          × (length bytes ≡ byte_size_long r)
          × ((stage_response_frame proto r b).0 ≡ true)
          × Holds bytes (stage_response_frame proto r b).1
    stage_response_frame-Holds laws v empty positive small =
        let (bytes, e, size) = SerializesExactly.fits laws r (omega arith) in
        let written =
          write_frame-Holds r (reserve b (4 + byte_size_long r)) bytes
            (reserve-IsValid b (4 + byte_size_long r) v (omega arith))
            (omega (arith, size, length-reserve b (4 + byte_size_long r)))
            (ap (serialize_to_array r) size ∙ e) in
        let path =
          stage_writes positive small empty
          ∙ ap (λ n. write_frame proto r n (reserve b (4 + byte_size_long r))) (sym size) in
        (
          bytes,
          e,
          size,
          ap (λ p. p.0) path ∙ written.0,
          subst (λ (p : Bool × ReusableBuffer). Holds bytes p.1) (sym path) written.1,
        )

    -- With a serializer that fills an array of the announced size, and a valid buffer, staging
    -- succeeds exactly if the buffer has no unread bytes and the response has 1 to 64 Ki bytes.
    pub stage_response_frame-accepts :
        SerializesExactly F proto
        → IsValid b
        → ((stage_response_frame proto r b).0 ≡ true) ↔ (
            (readable_bytes b ≡ 0)
            × (0 < byte_size_long r)
            × (byte_size_long r ≤ max_outbound_frame_size))
    stage_response_frame-accepts laws v =
        (only, λ h. (stage_response_frame-Holds laws v h.0 h.1 h.2).3)
      where
        only :
            (stage_response_frame proto r b).0 ≡ true
            → (readable_bytes b ≡ 0)
              × (0 < byte_size_long r)
              × (byte_size_long r ≤ max_outbound_frame_size)
        only h = ground (arith, stage_refuses)

    -- A response that is refused leaves the unread bytes of a valid write buffer as they were.
    pub stage_response_frame-keeps :
        IsValid b
        → (stage_response_frame proto r b).0 ≡ false
        → unread (stage_response_frame proto r b).1 ≡ unread b
    stage_response_frame-keeps v failed = elim (ℕ_discrete (readable_bytes b) 0) [
      | no pending ↦ ap (λ p. unread p.1) (stage_refuses (inl pending))
      | yes empty ↦ elim (ℕ_discrete (byte_size_long r) 0) [
        | yes nothing ↦ ap (λ p. unread p.1) (stage_refuses (inr (inl nothing)))
        | no something ↦ elim (dec_lt max_outbound_frame_size (byte_size_long r)) [
          | yes large ↦ ap (λ p. unread p.1) (stage_refuses (inr (inr large)))
          | no small ↦
              let path = stage_writes (omega arith) (omega arith) empty in
              ap (λ p. unread p.1) path
              ∙ write_frame_failed r (byte_size_long r) _ (ap (λ p. p.0) (sym path) ∙ failed)
              ∙ sym (unread_of_none b (omega (arith, readable_bytes_lem b v)))
        ]
      ]
    ]

-- With a serializer that fills an array of the announced size, and valid buffers, a peer whose
-- stream starts with a response that was staged extracts the bytes that were serialized.
pub staged-extracted :
    {F : Type 0} (proto : Protobuf F) (r : BidResponse F) (b c : ReusableBuffer) (rest : List ℕ)
    → SerializesExactly F proto
    → IsValid b
    → IsValid c
    → (stage_response_frame proto r b).0 ≡ true
    → unread c ≡ unread (stage_response_frame proto r b).1 ++ rest
    → (bytes : List ℕ) × (Protobuf.serialize_to_array proto r (Protobuf.byte_size_long proto r)
        ≡ some bytes)
      × (try_extract_frame c max_outbound_frame_size ≡ (
        frame_ready,
        record {
          payload = bytes;
          payload_length = length bytes;
          total_frame_bytes = 4 + length bytes;
        },
      ))
staged-extracted proto r b c rest laws v w staged stream =
    let accepted = (stage_response_frame-accepts proto r b laws v).0 staged in
    let (bytes, e, size, done, held) =
      stage_response_frame-Holds proto r b laws v accepted.0 accepted.1 accepted.2 in
    (
      bytes,
      e,
      extract_framed c max_outbound_frame_size bytes rest w (omega arith) (omega arith)
          (omega arith)
          (stream
            ∙ ap (λ l. l ++ rest) held.stream
            ∙ append_assoc (be_bytes (length bytes)) bytes rest),
    )
