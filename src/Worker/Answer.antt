-- ===== src/Worker/Answer.antt =====
-- `process_ready_frames` of src/worker_runtime.cc as a step of a conversation.
use rtb_engine.Base.{
  ℕ, ◌+◌, ◌-◌, ◌^◌, ◌<◌, ◌≡◌, ◌⊎◌, refl, sym, ap, ◌∙◌, subst, inl, inr, Bool, true, List, ◌++◌,
  some, length, drop, Bool-cases,
}
use rtb_engine.Types.{CampaignStoreSnapshot, default_parsed_message}
use rtb_engine.Double.{Double}
use rtb_engine.Protobuf.{Protobuf, SerializesExactly}
use rtb_engine.Buffer.{
  FrameStatus, need_more_data, frame_ready, invalid_length, FrameView, network_length,
  readable_bytes, try_extract_frame,
}
use rtb_engine.Buffer.Bytes.{be_bytes}
use rtb_engine.Buffer.Inv.{IsValid}
use rtb_engine.Parse.{ParseStatus, parse_bid_request}
use rtb_engine.Framing.{stage_response_frame}
use rtb_engine.Framing.RoundTrip.{
  stage_response_frame-Holds, stage_response_frame-accepts, stage_response_frame-keeps,
}
use rtb_engine.Request.{HandleRequestStatus, HandleRequestResult, Handled}
use rtb_engine.Worker.{ConnectionState, WorkerRuntime}
use rtb_engine.Worker.Frames.{
  is_ok, drops, no_times, finish_frame, stage_frame, handle_message, handle_frame,
  process_ready_frames,
}
use rtb_engine.Worker.Conversation.{answer, IsExchange, Conversation-quiet}
use rtb_engine.Worker.Exchange.{
  is_ok-ok, drops-ready, first_frame, length-first_frame, first_payload, announced-first_frame,
  Keeps, Keeps-refl, FrameStep, gives_up-FrameStep, finish_frame-FrameStep,
}

status-cases : (s : FrameStatus) → (s ≡ need_more_data) ⊎ ((s ≡ frame_ready) ⊎ (s ≡ invalid_length))
status-cases need_more_data = inl refl
status-cases frame_ready = inr (inl refl)
status-cases invalid_length = inr (inr refl)

module _ {F : Type 0} ⦃d : Double F⦄ (proto : Protobuf F) (store : CampaignStoreSnapshot F)
    (laws : SerializesExactly F proto) (r : WorkerRuntime F) (c : ConnectionState)
    (v : IsValid c.read_buffer) (w : IsValid c.write_buffer)
    (empty : readable_bytes c.write_buffer ≡ 0) (small : r.config.max_frame_size < 2 ^ 32 - 4)
    (ready : (try_extract_frame c.read_buffer r.config.max_frame_size).0 ≡ frame_ready)
    (now : ℕ → ℕ) (updated : Bool) where
  abbrev extracted : FrameView
  extracted = (try_extract_frame c.read_buffer r.config.max_frame_size).1

  abbrev parsed : WorkerRuntime F
  parsed = record r {
    parse_scratch =
        (parse_bid_request proto extracted.payload r.parse_scratch default_parsed_message).scratch;
  }

  abbrev handled : Handled F
  handled =
      handle_message proto store now parsed
        (parse_bid_request proto extracted.payload r.parse_scratch default_parsed_message).out

  abbrev answer_to : List ℕ → HandleRequestResult F
  answer_to payload =
      answer proto store (λ i. now (4 + i)) (now 3) r.rng (some no_times) r.parse_scratch payload

  genuine :
      (bytes : List ℕ)
      → (parse_bid_request proto extracted.payload r.parse_scratch default_parsed_message).status
        ≡ ParseStatus.ok
      → handled.result.status ≡ HandleRequestStatus.response_ready
      → Protobuf.serialize_to_array proto handled.result.response
          (Protobuf.byte_size_long proto handled.result.response)
        ≡ some bytes
      → IsExchange proto store (first_frame c.read_buffer, be_bytes (length bytes) ++ bytes)
  genuine bytes p q s = record {
    whole = size ∙ ap (λ n. 4 + n) (sym (announced-first_frame c.read_buffer _ v small ready));
    scratch = r.parse_scratch;
    now = λ i. now (4 + i);
    received_at_ns = now 3;
    rng = r.rng;
    timing = some no_times;
    parsed =
        subst
          (λ (u : List ℕ).
            (parse_bid_request proto u r.parse_scratch default_parsed_message).status
            ≡ ParseStatus.ok)
          payload p;
    ready =
        subst (λ (u : List ℕ). (answer_to u).status ≡ HandleRequestStatus.response_ready) payload q;
    bytes = bytes;
    serialized =
        subst
          (λ (u : List ℕ).
            Protobuf.serialize_to_array proto (answer_to u).response
              (Protobuf.byte_size_long proto (answer_to u).response)
            ≡ some bytes)
          payload s;
    framed = refl;
  }
    where
      size : length (first_frame c.read_buffer) ≡ 4 + network_length c.read_buffer
      size = length-first_frame c.read_buffer _ v small ready

      payload : extracted.payload ≡ drop 4 (first_frame c.read_buffer)
      payload = first_payload c.read_buffer _ v small ready

  stage_frame-FrameStep :
      (parse_bid_request proto extracted.payload r.parse_scratch default_parsed_message).status
        ≡ ParseStatus.ok
      → FrameStep proto store r c (stage_frame proto store now updated extracted parsed c handled)
  unfolding stage_frame
  stage_frame-FrameStep p = elim (Bool-cases (drops handled.result.status)) [
    | inl e ↦ rw e (gives_up-FrameStep proto store r c c refl refl refl _ keeps)
    | inr e ↦
        elim (Bool-cases (stage_response_frame proto handled.result.response c.write_buffer).0) [
          | inl s ↦ rw (e, s) (sends_back (drops-ready _ e) s)
          | inr s ↦
              rw (e, s)
                (gives_up-FrameStep proto store r c
                  (record c {
                    write_buffer =
                        (stage_response_frame proto handled.result.response c.write_buffer).1;
                  })
                  refl refl
                  (stage_response_frame-keeps proto handled.result.response c.write_buffer w s) _
                  keeps)
        ]
  ]
    where
      keeps : Keeps r (record parsed { rng = handled.rng })
      keeps = record {
        same_config = refl;
        same_epoll_fd = refl;
        same_listen_fd = refl;
        same_next_connection_id = refl;
        same_campaign_store = refl;
        same_connections = refl;
      }

      sends_back :
          handled.result.status ≡ HandleRequestStatus.response_ready
          → (stage_response_frame proto handled.result.response c.write_buffer).0 ≡ true
          → FrameStep proto store r c (
              finish_frame proto store now updated extracted
                (record parsed { rng = handled.rng })
                (record c {
                  write_buffer =
                      (stage_response_frame proto handled.result.response c.write_buffer).1;
                })
                handled)
      sends_back q s =
          let accepted =
            (stage_response_frame-accepts proto handled.result.response c.write_buffer laws w).0
              s in
          let (bytes, e, size, done, held) =
            stage_response_frame-Holds proto handled.result.response c.write_buffer laws w empty
              accepted.1 accepted.2 in
          finish_frame-FrameStep proto store laws r c v w empty small ready now updated _ handled
            bytes _ keeps held (genuine bytes p q e)

  handle_frame-FrameStep :
      FrameStep proto store r c (handle_frame proto store now updated extracted r c)
  unfolding handle_frame
  handle_frame-FrameStep =
      elim (Bool-cases (
        is_ok
          (parse_bid_request proto extracted.payload r.parse_scratch
            default_parsed_message).status)) [
              | inl e ↦ rw e (stage_frame-FrameStep (is_ok-ok _ e))
              | inr e ↦ rw e (
                  gives_up-FrameStep proto store r c c refl refl refl parsed (record {
                    same_config = refl;
                    same_epoll_fd = refl;
                    same_listen_fd = refl;
                    same_next_connection_id = refl;
                    same_campaign_store = refl;
                    same_connections = refl;
                  }))
            ]

-- With a serializer that fills an array of the announced size, valid buffers, nothing left to write
-- and a maximum below 2 ^ 32 - 4, a call takes at most the first frame, and answers it.
pub process_ready_frames-FrameStep :
    {F : Type 0} ⦃d : Double F⦄ (proto : Protobuf F) (store : CampaignStoreSnapshot F)
    (r : WorkerRuntime F) (c : ConnectionState) (now : ℕ → ℕ) (updated : Bool)
    → SerializesExactly F proto
    → IsValid c.read_buffer
    → IsValid c.write_buffer
    → readable_bytes c.write_buffer ≡ 0
    → r.config.max_frame_size < 2 ^ 32 - 4
    → FrameStep proto store r c (process_ready_frames proto store now updated r c)
unfolding process_ready_frames
process_ready_frames-FrameStep proto store r c now updated laws v w empty small =
    elim (status-cases (try_extract_frame c.read_buffer r.config.max_frame_size).0) [
      | inl e ↦
          rw (e, process_ready_frames)
            (record {
              talk = Conversation-quiet proto store c c refl refl;
              settled = (refl, e);
              interest = refl;
              keeps = Keeps-refl r;
              same_fd = refl;
            })
      | inr (inl e) ↦
          rw (e, process_ready_frames)
            (handle_frame-FrameStep proto store laws r c v w empty small e now updated)
      | inr (inr e) ↦
          rw (e, process_ready_frames)
            (gives_up-FrameStep proto store r c c refl refl refl r (Keeps-refl r))
    ]
