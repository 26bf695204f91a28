-- ===== src/Buffer/Examples.antt =====
-- The buffer of src/frame.cc with two frames, one of them half received.
use rtb_engine.Base.{◌≡◌, ◌≢◌, refl, [], ◌∷◌, ◌++◌, arith, drop}
use rtb_engine.Buffer.{
  ReusableBuffer, need_more_data, frame_ready, invalid_length, no_frame, writable_region,
  commit_write, fill, network_length, try_extract_frame, consume_frame, compact,
}
use rtb_engine.Buffer.Bytes.{be_value, be_bytes}
use rtb_engine.Buffer.Inv.{IsValid}
use rtb_engine.Buffer.Stream.{
  unread, unread-commit_write-fill, unread-consume_frame, unread-compact,
}
use rtb_engine.Buffer.Extract.{Framing, try_extract_frame-Framing}
use rtb_engine.Buffer.Frames.{extract_framed, extract_more, extract_oversized}

-- One byte that was consumed, a frame of two bytes, and half a header.
abbrev sample_buffer : ReusableBuffer
sample_buffer = record {
  storage = 9 ∷ 0 ∷ 0 ∷ 0 ∷ 2 ∷ 65 ∷ 66 ∷ 0 ∷ 0 ∷ 1 ∷ 1 ∷ 1 ∷ [];
  read_offset = 1;
  write_offset = 9;
}

sample-IsValid : IsValid sample_buffer
sample-IsValid = record { ordered = omega arith; inside = omega arith; small = omega arith }

extracts :
    try_extract_frame sample_buffer 100
    ≡ (frame_ready, record { payload = 65 ∷ 66 ∷ []; payload_length = 2; total_frame_bytes = 6 })
unfolding try_extract_frame be_value
extracts = refl

refuses_long : try_extract_frame sample_buffer 1 ≡ (invalid_length, no_frame)
unfolding try_extract_frame be_value
refuses_long = refl

waits : try_extract_frame (consume_frame sample_buffer 6) 100 ≡ (need_more_data, no_frame)
unfolding try_extract_frame consume_frame be_value
waits = refl

try_extract_frame-Framing_example :
    Framing 100 (unread sample_buffer) (try_extract_frame sample_buffer 100)
try_extract_frame-Framing_example =
    try_extract_frame-Framing sample_buffer 100 sample-IsValid (omega arith)

stream : unread sample_buffer ≡ be_bytes 2 ++ ((65 ∷ 66 ∷ []) ++ (0 ∷ 0 ∷ []))
unfolding be_bytes
stream = refl

extract_framed_example :
    try_extract_frame sample_buffer 100
    ≡ (frame_ready, record { payload = 65 ∷ 66 ∷ []; payload_length = 2; total_frame_bytes = 6 })
extract_framed_example =
    extract_framed sample_buffer 100 (65 ∷ 66 ∷ []) (0 ∷ 0 ∷ []) sample-IsValid (omega arith)
      (omega arith) (omega arith) stream

abbrev grown_buffer : ReusableBuffer
grown_buffer = record sample_buffer { write_offset = 10 }

grown-IsValid : IsValid grown_buffer
grown-IsValid = record { ordered = omega arith; inside = omega arith; small = omega arith }

ready : (try_extract_frame sample_buffer 100).0 ≡ frame_ready
unfolding try_extract_frame be_value
ready = refl

extract_more_example : try_extract_frame grown_buffer 100 ≡ try_extract_frame sample_buffer 100
extract_more_example =
    extract_more sample_buffer grown_buffer 100 (1 ∷ []) sample-IsValid grown-IsValid (omega arith)
      refl ready

-- A full buffer whose header announces more than the storage holds, far below the largest frame.
abbrev full_buffer : ReusableBuffer
full_buffer = record { storage = 0 ∷ 0 ∷ 4 ∷ 0 ∷ []; read_offset = 0; write_offset = 4 }

announces : network_length full_buffer ≡ 1024
unfolding network_length be_value
announces = refl

extract_oversized_example : (try_extract_frame full_buffer 65536).0 ≢ frame_ready
extract_oversized_example =
    extract_oversized full_buffer 65536
      (record { ordered = omega arith; inside = omega arith; small = omega arith })
      (omega (arith, announces))

room : (writable_region sample_buffer).1 ≡ 3
unfolding writable_region
room = refl

unread-commit_write-fill_example :
    unread (commit_write (fill sample_buffer (3 ∷ 4 ∷ [])) 2) ≡ unread sample_buffer ++ (3 ∷ 4 ∷ [])
unread-commit_write-fill_example =
    unread-commit_write-fill sample_buffer (3 ∷ 4 ∷ []) sample-IsValid (omega (arith, room))

unread-consume_frame_example :
    unread (consume_frame sample_buffer 6) ≡ drop 6 (unread sample_buffer)
unread-consume_frame_example = unread-consume_frame sample_buffer 6 sample-IsValid (omega arith)

unread-compact_example : unread (compact sample_buffer) ≡ unread sample_buffer
unread-compact_example = unread-compact sample_buffer sample-IsValid
