-- ===== src/Buffer/Extract.antt =====
-- `try_extract_frame` against a description of framing on the bytes received, without offsets.
use rtb_engine.Base.{
  ℕ, ◌+◌, ◌-◌, ◌^◌, ◌≤◌, ◌<◌, ◌≡◌, ◌⊎◌, subst, sym, ap, ◌∙◌, inl, inr, List, arith, length, take,
  drop, drop-take, drop-drop, take-take_le,
}
use native.Mathlib.Decide.{dec_lt}
use rtb_engine.Buffer.{
  ReusableBuffer, FrameStatus, need_more_data, frame_ready, invalid_length, FrameView, no_frame,
  readable_bytes, network_length, ready_frame, try_extract_frame,
}
use rtb_engine.Buffer.Bytes.{be_value}
use rtb_engine.Buffer.Inv.{IsValid, readable_bytes_lem}
use rtb_engine.Buffer.Stream.{unread, length-unread}

-- The length that four bytes announce, and the frame that starts a stream with it.
abbrev pub announced : List ℕ → ℕ
announced s = be_value (take 4 s)

abbrev pub frame_at : List ℕ → FrameView
frame_at s = record {
  payload = take (announced s) (drop 4 s);
  payload_length = announced s;
  total_frame_bytes = 4 + announced s;
}

-- The stream starts with less than a frame; with a length that is refused; with a whole frame.
pub data Framing (max : ℕ) (s : List ℕ) : FrameStatus × FrameView → Type 0 where
  short : length s < 4 → Framing max s (need_more_data, no_frame)
  refused :
      4 ≤ length s
      → ((announced s ≡ 0) ⊎ (max < announced s))
      → Framing max s (invalid_length, no_frame)
  partial :
      4 ≤ length s
      → 0 < announced s
      → announced s ≤ max
      → length s < 4 + announced s
      → Framing max s (need_more_data, no_frame)
  whole :
      0 < announced s
      → announced s ≤ max
      → 4 + announced s ≤ length s
      → Framing max s (frame_ready, frame_at s)

pub announced-unread :
    (b : ReusableBuffer)
    → 4 ≤ b.write_offset - b.read_offset
    → announced (unread b) ≡ network_length b
unfolding network_length
announced-unread b h =
    ap be_value (take-take_le 4 (b.write_offset - b.read_offset) (drop b.read_offset b.storage) h)

pub frame_at-unread :
    (b : ReusableBuffer)
    → 4 + network_length b ≤ b.write_offset - b.read_offset
    → network_length b < 2 ^ 32 - 4
    → ready_frame b (network_length b) ≡ frame_at (unread b)
unfolding ready_frame
frame_at-unread b h k = ground (arith, announced-unread b, payload)
  where
    payload :
        take (network_length b) (drop (b.read_offset + 4) b.storage)
        ≡ take (announced (unread b)) (drop 4 (unread b))
    payload =
        ap (take (network_length b)) (sym (drop-drop b.read_offset 4 b.storage))
        ∙ sym (
            take-take_le (network_length b) (b.write_offset - b.read_offset - 4)
              (drop 4 (drop b.read_offset b.storage)) (omega arith))
        ∙ ap (take (network_length b))
            (sym (drop-take 4 (b.write_offset - b.read_offset) (drop b.read_offset b.storage)))
        ∙ ap (λ n. take n (drop 4 (unread b))) (sym (announced-unread b (omega arith)))

module _ (b : ReusableBuffer) (max : ℕ) where
  extract_short : readable_bytes b < 4 → try_extract_frame b max ≡ (need_more_data, no_frame)
  unfolding try_extract_frame
  extract_short h = ground arith

  extract_refused :
      4 ≤ readable_bytes b
      → (network_length b ≡ 0) ⊎ (max < network_length b)
      → try_extract_frame b max ≡ (invalid_length, no_frame)
  unfolding try_extract_frame
  extract_refused h k = ground arith

  extract_partial :
      4 ≤ readable_bytes b
      → 0 < network_length b
      → network_length b ≤ max
      → readable_bytes b < 4 + network_length b
      → try_extract_frame b max ≡ (need_more_data, no_frame)
  unfolding try_extract_frame
  extract_partial h k l m = ground arith

  pub extract_whole :
      0 < network_length b
      → network_length b ≤ max
      → 4 + network_length b ≤ readable_bytes b
      → try_extract_frame b max ≡ (frame_ready, ready_frame b (network_length b))
  unfolding try_extract_frame
  extract_whole k l m = ground arith

-- In a valid buffer, and with a maximum below 2 ^ 32 - 4, `try_extract_frame` reads the framing of
-- the unread bytes as described without offsets, on each of its four branches: less than a header,
-- a length that is refused, a part of a frame, a whole frame.
pub try_extract_frame-Framing :
    (b : ReusableBuffer) (max : ℕ)
    → IsValid b
    → max < 2 ^ 32 - 4
    → Framing max (unread b) (try_extract_frame b max)
try_extract_frame-Framing b max v small = elim (dec_lt (readable_bytes b) 4) [
  | yes few ↦ subst (Framing max (unread b)) (sym (extract_short b max few)) (short (rw size few))
  | no enough ↦
      let read : announced (unread b) ≡ network_length b =
        announced-unread b (omega (arith, readable_bytes_lem b v)) in
      elim (dec_lt 0 (network_length b)) [
        | no zero_length ↦
            subst (Framing max (unread b))
              (sym (extract_refused b max (omega arith) (inl (omega arith))))
              (refused (omega (arith, size)) (inl (omega (arith, read))))
        | yes positive ↦ elim (dec_lt max (network_length b)) [
          | yes too_long ↦
              subst (Framing max (unread b))
                (sym (extract_refused b max (omega arith) (inr too_long)))
                (refused (omega (arith, size)) (inr (omega (arith, read))))
          | no fits ↦ elim (dec_lt (readable_bytes b) (4 + network_length b)) [
            | yes incomplete ↦
                subst (Framing max (unread b))
                  (sym (extract_partial b max (omega arith) positive (omega arith) incomplete))
                  (partial (omega (arith, size)) (omega (arith, read)) (omega (arith, read))
                    (omega (arith, size, read)))
            | no complete ↦
                subst (Framing max (unread b))
                  (sym (
                    extract_whole b max positive (omega arith) (omega arith)
                    ∙ ap (λ f. (frame_ready, f))
                        (frame_at-unread b (omega (arith, readable_bytes_lem b v)) (omega arith))))
                  (whole (omega (arith, read)) (omega (arith, read)) (omega (arith, size, read)))
          ]
        ]
      ]
]
  where
    size : length (unread b) ≡ readable_bytes b
    size = length-unread b v

-- What a ready frame says of the buffer.
pub frame_ready_inv :
    (b : ReusableBuffer) (max : ℕ)
    → (try_extract_frame b max).0 ≡ frame_ready
    → (0 < network_length b)
      × (network_length b ≤ max)
      × (4 + network_length b ≤ readable_bytes b)
      × ((try_extract_frame b max).1 ≡ ready_frame b (network_length b))
unfolding try_extract_frame
frame_ready_inv b max h = ground arith
