-- ===== src/Buffer/Stream.antt =====
-- A buffer as a queue of bytes: what was received and not consumed yet, oldest first.
use rtb_engine.Base.{
  ℕ, ◌+◌, ◌-◌, ◌^◌, ◌≤◌, ◌<◌, ◌≡◌, ◌≢◌, sym, ap, ◌∙◌, inl, inr, List, ◌++◌, arith, length, take,
  drop, Bool-cases, ltb, length-take, length-drop, drop-append_le, drop-take, drop-drop, replicate,
  drop_all, take-append_le,
}
use native.Mathlib.Decide.{dec_lt, ℕ_discrete}
use rtb_engine.Buffer.{
  ReusableBuffer, readable_bytes, reserve, writable_region, commit_write, fill, consume_frame,
  compact,
}
use rtb_engine.Buffer.Bytes.{overwrite, take-overwrite, length-overwrite}
use rtb_engine.Buffer.Inv.{IsValid, readable_bytes_lem, compact-IsValid, length-compact}

abbrev pub unread : ReusableBuffer → List ℕ
unread b = take (b.write_offset - b.read_offset) (drop b.read_offset b.storage)

pub length-unread : (b : ReusableBuffer) → IsValid b → length (unread b) ≡ readable_bytes b
length-unread b v = omega (
  arith,
  readable_bytes_lem b v,
  length-take (b.write_offset - b.read_offset) (drop b.read_offset b.storage),
  length-drop b.read_offset b.storage,
)

compact_front : (b : ReusableBuffer) → b.read_offset ≡ 0 → compact b ≡ b
unfolding compact
compact_front b h = ground arith

-- The bytes up to `write_offset` are what `unread` reads.
unread-take : (b : ReusableBuffer) → unread b ≡ drop b.read_offset (take b.write_offset b.storage)
unread-take b = sym (drop-take b.read_offset b.write_offset b.storage)

writable_room :
    (b : ReusableBuffer) → IsValid b → (writable_region b).1 ≡ length b.storage - b.write_offset
unfolding writable_region
writable_room b v = ground arith

-- In a valid buffer, bytes that are read into the writable region, no more than fit, and committed
-- are appended to the unread bytes.
pub unread-commit_write-fill :
    (b : ReusableBuffer) (bytes : List ℕ)
    → IsValid b
    → length bytes ≤ (writable_region b).1
    → unread (commit_write (fill b bytes) (length bytes)) ≡ unread b ++ bytes
unfolding commit_write fill
unread-commit_write-fill b bytes v h =
    unread-take (commit_write (fill b bytes) (length bytes))
    ∙ ap (λ k. drop b.read_offset (take k (fill b bytes).storage)) moved
    ∙ ap (drop b.read_offset) (take-overwrite b.storage b.write_offset bytes v.inside)
    ∙ drop-append_le b.read_offset (take b.write_offset b.storage) bytes
        (omega (arith, length-take b.write_offset b.storage))
    ∙ ap (λ l. l ++ bytes) (sym (unread-take b))
  where
    moved :
        (commit_write (fill b bytes) (length bytes)).write_offset ≡ b.write_offset + length bytes
    moved = omega (arith, writable_room b v, length-overwrite b.storage b.write_offset bytes)

consume_frame_some :
    (b : ReusableBuffer) (n : ℕ)
    → IsValid b
    → n < b.write_offset - b.read_offset
    → consume_frame b n ≡ record b { read_offset = b.read_offset + n }
unfolding consume_frame
consume_frame_some b n v h = ground arith

consume_frame_all :
    (b : ReusableBuffer) (n : ℕ)
    → IsValid b
    → b.read_offset + n < 2 ^ 64
    → b.write_offset - b.read_offset ≤ n
    → consume_frame b n ≡ record b { read_offset = 0; write_offset = 0 }
unfolding consume_frame
consume_frame_all b n v h k = ground arith

-- In a valid buffer, and where the offset does not wrap, `consume_frame` drops that many bytes
-- from the front of the unread bytes, also where it starts the offsets again at 0.
pub unread-consume_frame :
    (b : ReusableBuffer) (n : ℕ)
    → IsValid b
    → b.read_offset + n < 2 ^ 64
    → unread (consume_frame b n) ≡ drop n (unread b)
unread-consume_frame b n v h = elim (dec_lt n (b.write_offset - b.read_offset)) [
  | yes some_left ↦
      ap unread (consume_frame_some b n v some_left)
      ∙ ap (λ k. take k (drop (b.read_offset + n) b.storage)) (omega arith)
      ∙ ap (take (b.write_offset - b.read_offset - n)) (sym (drop-drop b.read_offset n b.storage))
      ∙ sym (drop-take n (b.write_offset - b.read_offset) (drop b.read_offset b.storage))
  | no none_left ↦
      ap unread (consume_frame_all b n v h (omega arith))
      ∙ sym (drop_all n (unread b) (omega (arith, length-unread b v, readable_bytes_lem b v)))
]

-- `compact` puts the offsets at the front, also when it returns early.
pub compact_offsets :
    (b : ReusableBuffer)
    → IsValid b
    → ((compact b).read_offset ≡ 0) × ((compact b).write_offset ≡ b.write_offset - b.read_offset)
unfolding compact
compact_offsets b v = ground (arith, readable_bytes_lem b v)

compact_moves :
    (b : ReusableBuffer)
    → IsValid b
    → b.read_offset ≢ 0
    → 0 < b.write_offset - b.read_offset
    → (compact b).storage ≡ overwrite b.storage 0 (unread b)
unfolding compact
compact_moves b v h k = ground (arith, readable_bytes_lem b v)

-- In a valid buffer `compact` keeps the unread bytes, also on its early return.
pub unread-compact : (b : ReusableBuffer) → IsValid b → unread (compact b) ≡ unread b
unread-compact b v = elim (ℕ_discrete b.read_offset 0) [
  | yes at_front ↦ ap unread (compact_front b at_front)
  | no behind ↦ elim (dec_lt 0 (b.write_offset - b.read_offset)) [
    | yes some_left ↦
        unread-take (compact b)
        ∙ ap (λ k. drop k (take (compact b).write_offset (compact b).storage))
            (compact_offsets b v).0
        ∙ ap (take (compact b).write_offset) (compact_moves b v behind some_left)
        ∙ ap (λ k. take k (overwrite b.storage 0 (unread b))) (size some_left)
        ∙ take-overwrite b.storage 0 (unread b) (omega arith)
    | no none_left ↦
        ap (λ k. take k (drop (compact b).read_offset (compact b).storage))
          (let e : (compact b).write_offset - (compact b).read_offset ≡ 0 =
              omega (arith, compact_offsets b v) in
            e)
        ∙ ap (λ k. take k (drop b.read_offset b.storage))
            (let e : 0 ≡ b.write_offset - b.read_offset = omega arith in e)
  ]
]
  where
    size : 0 < b.write_offset - b.read_offset → (compact b).write_offset ≡ 0 + length (unread b)
    size h = omega (arith, compact_offsets b v, length-unread b v, readable_bytes_lem b v)

-- After `compact` all but the unread bytes of the storage can be written.
pub writable_region-compact :
    (b : ReusableBuffer)
    → IsValid b
    → (writable_region (compact b)).1 ≡ length b.storage - length (unread b)
writable_region-compact b v = omega (
  arith,
  writable_room (compact b) (compact-IsValid b v),
  length-compact b v,
  compact_offsets b v,
  length-unread b v,
  readable_bytes_lem b v,
)

-- `reserve` keeps the bytes held.
pub unread-reserve :
    (b : ReusableBuffer) (capacity : ℕ) → IsValid b → unread (reserve b capacity) ≡ unread b
unfolding reserve
unread-reserve b capacity v = elim (Bool-cases (ltb (length b.storage) capacity)) [
  | inl grows ↦ rw grows (
      ap (take (b.write_offset - b.read_offset)) (
        drop-append_le b.read_offset b.storage (replicate (capacity - length b.storage) 0)
          (omega arith))
      ∙ take-append_le (b.write_offset - b.read_offset) (drop b.read_offset b.storage) _
          (omega (arith, length-drop b.read_offset b.storage)))
  | inr enough ↦ rw enough
]
