-- ===== src/Buffer/Inv.antt =====
-- The invariant of a buffer (src/frame.cc): its offsets and its storage.
use rtb_engine.Base.{
  ℕ, ◌+◌, ◌-◌, ◌^◌, ◌≤◌, ◌<◌, ◌≡◌, List, arith, length, take, drop, replicate, length-append,
  length-take, length-drop, length-replicate,
}
use rtb_engine.Buffer.{
  ReusableBuffer, readable_bytes, reserve, writable_region, commit_write, fill, consume_frame,
  compact,
}
use rtb_engine.Buffer.Bytes.{length-overwrite}

-- The size of a vector of bytes is at most `PTRDIFF_MAX`.
pub record IsValid (b : ReusableBuffer) : Type 0 where
  pub ordered : b.read_offset ≤ b.write_offset
  pub inside : b.write_offset ≤ length b.storage
  pub small : length b.storage < 2 ^ 63

pub readable_bytes_lem :
    (b : ReusableBuffer) → IsValid b → readable_bytes b ≡ b.write_offset - b.read_offset
unfolding readable_bytes
readable_bytes_lem b v = omega arith

pub reserve-IsValid :
    (b : ReusableBuffer) (capacity : ℕ)
    → IsValid b
    → capacity < 2 ^ 63
    → IsValid (reserve b capacity)
unfolding reserve
reserve-IsValid b capacity v h = ground (
  arith,
  length-append b.storage (replicate (capacity - length b.storage) 0),
  length-replicate {A = ℕ} (capacity - length b.storage) 0,
)

-- `reserve` leaves room for the capacity that it was asked for, and the bytes held.
pub length-reserve :
    (b : ReusableBuffer) (capacity : ℕ) → capacity ≤ length (reserve b capacity).storage
unfolding reserve
length-reserve b capacity = ground (
  arith,
  length-append b.storage (replicate (capacity - length b.storage) 0),
  length-replicate {A = ℕ} (capacity - length b.storage) 0,
)

pub commit_write-IsValid :
    (b : ReusableBuffer) (n : ℕ)
    → IsValid b
    → b.write_offset + n < 2 ^ 64
    → IsValid (commit_write b n)
unfolding commit_write
commit_write-IsValid b n v h = omega arith

pub fill-IsValid :
    (b : ReusableBuffer) (bytes : List ℕ)
    → IsValid b
    → length bytes ≤ (writable_region b).1
    → IsValid (fill b bytes)
unfolding fill writable_region
fill-IsValid b bytes v h = ground (arith, length-overwrite b.storage b.write_offset bytes)

pub consume_frame-IsValid :
    (b : ReusableBuffer) (n : ℕ)
    → IsValid b
    → b.read_offset + n < 2 ^ 64
    → IsValid (consume_frame b n)
unfolding consume_frame
consume_frame-IsValid b n v h = ground arith

pub length-compact :
    (b : ReusableBuffer) → IsValid b → length (compact b).storage ≡ length b.storage
unfolding compact
length-compact b v = ground (
  arith,
  length-overwrite b.storage 0
      (take (b.write_offset - b.read_offset) (drop b.read_offset b.storage)),
  length-take (b.write_offset - b.read_offset) (drop b.read_offset b.storage),
  length-drop b.read_offset b.storage,
)

pub compact-IsValid : (b : ReusableBuffer) → IsValid b → IsValid (compact b)
unfolding compact
compact-IsValid b v = ground (arith, length-compact b v, readable_bytes_lem b v)
