-- ===== src/Worker/Conversation.antt =====
-- A stretch of a connection (src/worker_runtime.cc) as a conversation: the bytes that came in are
-- frames and a rest, and the bytes that went out are their responses, in the same order.
use rtb_engine.Base.{
  ℕ, ◌+◌, ◌≡◌, refl, sym, ap, ◌∙◌, Bool, List, [], ◌∷◌, ◌++◌, Option, some, length, drop, All,
  All-append,
}
use mathlib.Core.List.{append-nil, append_assoc}
use rtb_engine.Types.{CampaignStoreSnapshot, default_parsed_message}
use rtb_engine.Double.{Double}
use rtb_engine.Rng.{WorkerRng}
use rtb_engine.Protobuf.{Protobuf, BidRequest}
use rtb_engine.Buffer.Bytes.{be_bytes}
use rtb_engine.Buffer.Stream.{unread}
use rtb_engine.Buffer.Extract.{announced}
use rtb_engine.Parse.{ParseStatus, parse_bid_request}
use rtb_engine.Request.{
  HandleRequestStatus, HandleRequestTimingBreakdown, HandleRequestResult, handle_request,
}
use rtb_engine.Worker.Calls.{
  sent_bytes, received_bytes, sent_bytes-append, received_bytes-append, open_after,
  open_after-append,
}
use rtb_engine.Worker.{ConnectionState, SystemCall}

-- A frame and the bytes that answer it.
abbrev pub Exchange : Type 0
Exchange = List ℕ × List ℕ

abbrev pub frames_of : List Exchange → List ℕ
frames_of [] = []
frames_of ((frame, response) ∷ es) = frame ++ frames_of es

abbrev pub responses_of : List Exchange → List ℕ
responses_of [] = []
responses_of ((frame, response) ∷ es) = response ++ responses_of es

frames_of-append : (k l : List Exchange) → frames_of (k ++ l) ≡ frames_of k ++ frames_of l
frames_of-append [] l = refl
frames_of-append ((frame, response) ∷ k) l =
    ap (λ u. frame ++ u) (frames_of-append k l) ∙ sym (append_assoc frame _ _)

responses_of-append :
    (k l : List Exchange) → responses_of (k ++ l) ≡ responses_of k ++ responses_of l
responses_of-append [] l = refl
responses_of-append ((frame, response) ∷ k) l =
    ap (λ u. response ++ u) (responses_of-append k l) ∙ sym (append_assoc response _ _)

module _ {F : Type 0} ⦃d : Double F⦄ (proto : Protobuf F) (store : CampaignStoreSnapshot F) where
  -- What `handle_request` answers to the message in a payload.
  abbrev pub answer :
      (ℕ → ℕ)
      → ℕ
      → WorkerRng
      → Option HandleRequestTimingBreakdown
      → BidRequest
      → List ℕ
      → HandleRequestResult F
  answer now received_at_ns rng timing scratch payload =
      (handle_request now (parse_bid_request proto payload scratch default_parsed_message).out
        received_at_ns store rng timing).result

  -- The frame is one whole frame whose payload the parser accepts, and the response is the framed
  -- serialization of what `handle_request` answers to it, in some state of the worker.
  pub record IsExchange (e : Exchange) : Type 0 where
    pub whole : length e.0 ≡ 4 + announced e.0
    pub scratch : BidRequest
    pub now : ℕ → ℕ
    pub received_at_ns : ℕ
    pub rng : WorkerRng
    pub timing : Option HandleRequestTimingBreakdown
    pub parsed :
        (parse_bid_request proto (drop 4 e.0) scratch default_parsed_message).status
        ≡ ParseStatus.ok
    pub ready :
        (answer now received_at_ns rng timing scratch (drop 4 e.0)).status
        ≡ HandleRequestStatus.response_ready
    pub bytes : List ℕ
    pub serialized :
        Protobuf.serialize_to_array proto
          (answer now received_at_ns rng timing scratch (drop 4 e.0)).response
          (Protobuf.byte_size_long proto
            (answer now received_at_ns rng timing scratch (drop 4 e.0)).response)
        ≡ some bytes
    pub framed : e.1 ≡ be_bytes (length bytes) ++ bytes

  -- What came in, before and during the stretch, is the frames that were answered and what is still
  -- unread; what was to be sent, with the responses, is what was sent and what is still to be sent.
  pub record Conversation (c c' : ConnectionState) (calls : List SystemCall) : Type 0 where
    pub exchanges : List Exchange
    pub genuine : All IsExchange exchanges
    pub incoming :
        unread c.read_buffer ++ received_bytes calls ≡ frames_of exchanges ++ unread c'.read_buffer
    pub outgoing :
        unread c.write_buffer ++ responses_of exchanges ≡ sent_bytes calls ++ unread c'.write_buffer
    pub still : (fd : ℕ) (was_open : Bool) → open_after fd was_open calls ≡ was_open

chain :
    (a b c r r' f f' : List ℕ)
    → a ++ r ≡ f ++ b
    → b ++ r' ≡ f' ++ c
    → a ++ (r ++ r') ≡ (f ++ f') ++ c
chain a b c r r' f f' h k =
    sym (append_assoc a r r')
    ∙ ap (λ u. u ++ r') h
    ∙ append_assoc f b r'
    ∙ ap (λ u. f ++ u) k
    ∙ sym (append_assoc f f' c)

module _ {F : Type 0} ⦃d : Double F⦄ (proto : Protobuf F) (store : CampaignStoreSnapshot F) where
  pub Conversation-append :
      (a b c : ConnectionState) (k l : List SystemCall)
      → Conversation proto store a b k
      → Conversation proto store b c l
      → Conversation proto store a c (k ++ l)
  Conversation-append a b c k l p q = record {
    exchanges = p.exchanges ++ q.exchanges;
    genuine = All-append (IsExchange proto store) p.exchanges q.exchanges p.genuine q.genuine;
    incoming =
        ap (λ u. unread a.read_buffer ++ u) (received_bytes-append k l)
        ∙ chain _ (unread b.read_buffer) _ (received_bytes k) _ (frames_of p.exchanges) _ p.incoming
            q.incoming
        ∙ ap (λ u. u ++ unread c.read_buffer) (sym (frames_of-append p.exchanges q.exchanges));
    outgoing =
        ap (λ u. unread a.write_buffer ++ u) (responses_of-append p.exchanges q.exchanges)
        ∙ chain _ (unread b.write_buffer) _ (responses_of p.exchanges) _ (sent_bytes k) _ p.outgoing
            q.outgoing
        ∙ ap (λ u. u ++ unread c.write_buffer) (sym (sent_bytes-append k l));
    still = λ fd was_open. open_after-append fd was_open k l ∙ q.still fd _ ∙ p.still fd was_open;
  }

  -- A change of the connection without calls that keeps the bytes of both buffers.
  pub Conversation-quiet :
      (a b : ConnectionState)
      → unread b.read_buffer ≡ unread a.read_buffer
      → unread b.write_buffer ≡ unread a.write_buffer
      → Conversation proto store a b []
  Conversation-quiet a b same_in same_out = record {
    exchanges = [];
    genuine = tt;
    incoming = append-nil (unread a.read_buffer) ∙ sym same_in;
    outgoing = append-nil (unread a.write_buffer) ∙ sym same_out;
    still = λ fd was_open. refl;
  }
