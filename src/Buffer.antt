-- ===== src/Buffer.antt =====
-- `ReusableBuffer` of include/rtb/runtime_types.h and its methods in src/frame.cc, with the
-- frame types of include/rtb/frame.h. A method that changes the buffer returns the new one.
-- `size_t` arithmetic wraps at 2 ^ 64 as written; `storage` is the vector's bytes.
mod Examples
pub mod Bytes
pub mod Inv
pub mod Stream
pub mod Extract
pub mod Frames
use rtb_engine.Base.{
  ℕ, ◌+◌, ◌-◌, ◌*◌, ◌%◌, ◌^◌, min, List, [], ◌++◌, Bool, true, false, ◌||◌, if◌then◌else◌, ltb,
  ◌==◌, length, take, drop, replicate,
}
use Bytes.{be_value, overwrite}

pub record ReusableBuffer : Type 0 where
  pub storage : List ℕ
  pub read_offset : ℕ
  pub write_offset : ℕ

-- The default-constructed buffer.
abbrev pub empty_buffer : ReusableBuffer
empty_buffer = record { storage = []; read_offset = 0; write_offset = 0 }

pub data FrameStatus : Type 0 where
  need_more_data frame_ready invalid_length : FrameStatus

-- `payload` holds the bytes of the span.
pub record FrameView : Type 0 where
  pub payload : List ℕ
  pub payload_length : ℕ
  pub total_frame_bytes : ℕ

abbrev pub no_frame : FrameView
no_frame = record { payload = []; payload_length = 0; total_frame_bytes = 0 }

unfoldable pub readable_bytes : ReusableBuffer → ℕ
readable_bytes b = (b.write_offset + 2 ^ 64 - b.read_offset) % 2 ^ 64

-- `storage.resize` appends zero bytes.
unfoldable pub reserve : ReusableBuffer → ℕ → ReusableBuffer
reserve b capacity =
    if ltb (length b.storage) capacity
    then record b { storage = b.storage ++ replicate (capacity - length b.storage) 0 }
    else b

-- The span as the offset of its first byte and its size.
unfoldable pub writable_region : ReusableBuffer → ℕ × ℕ
writable_region b =
    if ltb (length b.storage) b.write_offset
    then (0, 0)
    else (b.write_offset, length b.storage - b.write_offset)

unfoldable pub commit_write : ReusableBuffer → ℕ → ReusableBuffer
commit_write b bytes_written = record b {
  write_offset = min ((b.write_offset + bytes_written) % 2 ^ 64) (length b.storage);
}

-- Bytes that the kernel's `read` puts at the start of the writable region.
unfoldable pub fill : ReusableBuffer → List ℕ → ReusableBuffer
unfolding overwrite
fill b bytes = record b { storage = overwrite b.storage b.write_offset bytes }

-- What `memcpy` and `ntohl` read: four bytes at `read_offset`, the highest first.
unfoldable pub network_length : ReusableBuffer → ℕ
network_length b = be_value (take 4 (drop b.read_offset b.storage))

unfoldable pub ready_frame : ReusableBuffer → ℕ → FrameView
ready_frame b payload_length = record {
  payload = take payload_length (drop (b.read_offset + 4) b.storage);
  payload_length = payload_length;
  total_frame_bytes = (4 + payload_length) % 2 ^ 32;
}

unfoldable pub try_extract_frame : ReusableBuffer → ℕ → FrameStatus × FrameView
unfolding readable_bytes network_length ready_frame
try_extract_frame b max_frame_size =
    let total_bytes = readable_bytes b in
    let payload_length = network_length b in
    if ltb total_bytes 4
    then (FrameStatus.need_more_data, no_frame)
    else if payload_length == 0 || ltb max_frame_size payload_length
    then (FrameStatus.invalid_length, no_frame)
    else if ltb total_bytes (4 + payload_length)
    then (FrameStatus.need_more_data, no_frame)
    else (FrameStatus.frame_ready, ready_frame b payload_length)

unfoldable pub consume_frame : ReusableBuffer → ℕ → ReusableBuffer
consume_frame b total_frame_bytes =
    let read_offset = min ((b.read_offset + total_frame_bytes) % 2 ^ 64) b.write_offset in
    if read_offset == b.write_offset
    then record b { read_offset = 0; write_offset = 0 }
    else record b { read_offset = read_offset }

-- `std::move` of the unread bytes to the front leaves the bytes behind them as they were.
unfoldable pub compact : ReusableBuffer → ReusableBuffer
unfolding readable_bytes overwrite
compact b =
    let unread_bytes = readable_bytes b in
    let moved =
      if ltb 0 unread_bytes
      then overwrite b.storage 0
          (take (b.write_offset - b.read_offset) (drop b.read_offset b.storage))
      else b.storage in
    if b.read_offset == 0
    then b
    else record { storage = moved; read_offset = 0; write_offset = unread_bytes }
