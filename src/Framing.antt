-- ===== src/Framing.antt =====
-- `stage_response_frame` of src/response_framing.cc: the response, behind its length in network
-- order, replaces the contents of an empty write buffer.
mod Examples
pub mod RoundTrip
use rtb_engine.Base.{
  ℕ, ◌+◌, ◌-◌, ◌^◌, Bool, true, false, ◌||◌, List, Option, none, some, if◌then◌else◌, ltb, ◌==◌,
  length, not,
}
use rtb_engine.Types.{max_outbound_frame_size}
use rtb_engine.Protobuf.{Protobuf, BidResponse}
use rtb_engine.Buffer.{ReusableBuffer, readable_bytes, reserve}
use rtb_engine.Buffer.Bytes.{be_bytes, overwrite}

module _ {F : Type 0} (proto : Protobuf F) where
  open proto use {byte_size_long, serialize_to_array}

  -- The two writes into the reserved storage, header first; a failed write leaves the buffer empty.
  write_frame : BidResponse F → ℕ → ReusableBuffer → Bool × ReusableBuffer
  write_frame response payload_size buffer =
      let started : ReusableBuffer = record {
        storage = overwrite buffer.storage 0 (be_bytes payload_size);
        read_offset = 0;
        write_offset = 0;
      } in
      elim (serialize_to_array response payload_size) [
        | none ↦ (false, started)
        | some bytes ↦ (
          true,
          record started {
            storage = overwrite started.storage 4 bytes;
            write_offset = 4 + payload_size;
          },
        )
      ]

  unfoldable pub stage_response_frame : BidResponse F → ReusableBuffer → Bool × ReusableBuffer
  unfolding write_frame
  stage_response_frame response buffer =
      let payload_size = byte_size_long response in
      let reserved = reserve buffer (4 + payload_size) in
      if payload_size == 0
        || ltb max_outbound_frame_size payload_size
        || ltb (2 ^ 31 - 1) payload_size
      then (false, buffer)
      else if not (readable_bytes buffer == 0)
      then (false, buffer)
      else if ltb (length reserved.storage) (4 + payload_size)
      then (false, reserved)
      else write_frame response payload_size reserved
