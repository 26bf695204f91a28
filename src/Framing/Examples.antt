-- ===== src/Framing/Examples.antt =====
-- `stage_response_frame` (src/response_framing.cc) with a stand-in for the generated code.
use rtb_engine.Base.{
  ℕ, ◌+◌, ◌<◌, ◌≤◌, ◌≡◌, ◌↔◌, refl, true, false, List, [], ◌∷◌, ◌++◌, some, arith, codes, length,
}
use rtb_engine.Types.{max_outbound_frame_size}
use rtb_engine.Double.Fixed.{Fixed, units}
use rtb_engine.Protobuf.{Protobuf, BidResponse, bid_status_no_bid}
use rtb_engine.Protobuf.Sample.{sample_proto, sample-SerializesExactly}
use rtb_engine.Buffer.{
  ReusableBuffer, empty_buffer, frame_ready, readable_bytes, reserve, try_extract_frame,
}
use rtb_engine.Buffer.Bytes.{overwrite, be_bytes}
use rtb_engine.Buffer.Inv.{IsValid}
use rtb_engine.Buffer.Stream.{unread}
use rtb_engine.Framing.{stage_response_frame}
use rtb_engine.Framing.RoundTrip.{stage_response_frame-accepts, staged-extracted}

abbrev response : BidResponse Fixed
response = record {
  request_id = codes "r1";
  status = bid_status_no_bid;
  campaign_id = [];
  creative_id = [];
  price = units 0;
}

empty-IsValid : IsValid empty_buffer
empty-IsValid = record { ordered = omega arith; inside = omega arith; small = omega arith }

staged :
    stage_response_frame sample_proto response empty_buffer
    ≡ (true, record { storage = 0 ∷ 0 ∷ 0 ∷ 2 ∷ codes "r1"; read_offset = 0; write_offset = 6 })
unfolding stage_response_frame readable_bytes reserve overwrite be_bytes
staged = refl

succeeds : (stage_response_frame sample_proto response empty_buffer).0 ≡ true
unfolding stage_response_frame readable_bytes reserve overwrite be_bytes
succeeds = refl

stage_response_frame-accepts_example :
    ((stage_response_frame sample_proto response empty_buffer).0 ≡ true) ↔ (
      (readable_bytes empty_buffer ≡ 0)
      × (0 < Protobuf.byte_size_long sample_proto response)
      × (Protobuf.byte_size_long sample_proto response ≤ max_outbound_frame_size))
stage_response_frame-accepts_example =
    stage_response_frame-accepts sample_proto response empty_buffer sample-SerializesExactly
      empty-IsValid

-- A buffer with an earlier response.
abbrev pending : ReusableBuffer
pending = record { storage = 0 ∷ 0 ∷ 0 ∷ 1 ∷ 65 ∷ []; read_offset = 1; write_offset = 5 }

fails : (stage_response_frame sample_proto response pending).0 ≡ false
unfolding stage_response_frame readable_bytes reserve overwrite be_bytes
fails = refl

-- The peer's buffer: the staged bytes and one more.
abbrev peer : ReusableBuffer
peer = record { storage = 0 ∷ 0 ∷ 0 ∷ 2 ∷ codes "r1" ++ 0 ∷ []; read_offset = 0; write_offset = 7 }

arrived : unread peer ≡ unread (stage_response_frame sample_proto response empty_buffer).1 ++ 0 ∷ []
unfolding stage_response_frame readable_bytes reserve overwrite be_bytes
arrived = refl

staged-extracted_example :
    (bytes : List ℕ) × (Protobuf.serialize_to_array sample_proto response 2 ≡ some bytes)
    × (try_extract_frame peer max_outbound_frame_size ≡ (
      frame_ready,
      record {
        payload = bytes;
        payload_length = length bytes;
        total_frame_bytes = 4 + length bytes;
      },
    ))
staged-extracted_example =
    staged-extracted sample_proto response empty_buffer peer (0 ∷ []) sample-SerializesExactly
      empty-IsValid (record { ordered = omega arith; inside = omega arith; small = omega arith })
      succeeds arrived
