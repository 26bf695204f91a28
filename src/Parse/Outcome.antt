-- ===== src/Parse/Outcome.antt =====
-- Which requests `parse_bid_request` (src/parse.cc) accepts, and what it hands on.
use rtb_engine.Base.{
  ℕ, ◌^◌, ◌<◌, ◌≡◌, ◌≢◌, ◌↔◌, ◌⊎◌, inl, inr, refl, sym, subst, true, false, List, arith, length,
  is_empty,
}
use rtb_engine.Types.{AuctionType, RequestProcessingStatus, ParsedMessage, default_parsed_message}
use rtb_engine.Protobuf.{
  V1AuctionType, auction_type_unspecified, auction_type_first_price, auction_type_second_price,
  auction_type_unrecognized, BidRequest, Protobuf,
}
use rtb_engine.Parse.{
  ParseStatus, map_auction_type, clear, check_fields, parse_bid_request, accepted,
}

-- Every text is there, and the auction type is one of the two that the engine knows.
pub record IsComplete (r : BidRequest) : Type 0 where
  pub request_id : is_empty r.request_id ≡ false
  pub country : is_empty r.country ≡ false
  pub device_type : is_empty r.device_type ≡ false
  pub ad_slot : is_empty r.ad_slot ≡ false
  pub auction :
      (r.auction_type ≡ auction_type_first_price) ⊎ (r.auction_type ≡ auction_type_second_price)

-- The auction types of the protocol and of the engine that stand for the same kind of auction.
pub data SameAuction : V1AuctionType → AuctionType → Type 0 where
  same_first_price : SameAuction auction_type_first_price AuctionType.first_price
  same_second_price : SameAuction auction_type_second_price AuctionType.second_price

-- The message shows what the request holds.
pub record HandsOn (r : BidRequest) (out : ParsedMessage) : Type 0 where
  pub request_id : out.request_id ≡ r.request_id
  pub tmax_ms : out.tmax_ms ≡ r.tmax_ms
  pub country : out.country ≡ r.country
  pub device_type : out.device_type ≡ r.device_type
  pub ad_slot : out.ad_slot ≡ r.ad_slot
  pub auction : SameAuction r.auction_type out.auction_type
  pub processing_status : out.processing_status ≡ RequestProcessingStatus.ok

map_auction_type-SameAuction :
    (v : V1AuctionType)
    → map_auction_type v ≢ AuctionType.unspecified
    → SameAuction v (map_auction_type v)
unfolding map_auction_type
map_auction_type-SameAuction auction_type_unspecified h = absurd (h refl)
map_auction_type-SameAuction auction_type_first_price h = same_first_price
map_auction_type-SameAuction auction_type_second_price h = same_second_price
map_auction_type-SameAuction (auction_type_unrecognized n) h = absurd (h refl)

known-SameAuction :
    (v : V1AuctionType)
    → (v ≡ auction_type_first_price) ⊎ (v ≡ auction_type_second_price)
    → map_auction_type v ≢ AuctionType.unspecified
unfolding map_auction_type
known-SameAuction v (inl e) = λ u. cc
known-SameAuction v (inr e) = λ u. cc

SameAuction-known :
    {v : V1AuctionType} {a : AuctionType}
    → SameAuction v a
    → (v ≡ auction_type_first_price) ⊎ (v ≡ auction_type_second_price)
SameAuction-known same_first_price = inl refl
SameAuction-known same_second_price = inr refl

check_fields-accepts :
    (r : BidRequest) (out : ParsedMessage)
    → IsComplete r
    → check_fields r out ≡ accepted r (map_auction_type r.auction_type) out
unfolding check_fields
check_fields-accepts r out c =
    let known = known-SameAuction r.auction_type c.auction in
    ground (arith, c.request_id, c.country, c.device_type, c.ad_slot)

check_fields-ok :
    (r : BidRequest) (out : ParsedMessage)
    → (check_fields r out).status ≡ ParseStatus.ok
    → IsComplete r
unfolding check_fields
check_fields-ok r out h = record {
  request_id = ground arith;
  country = ground arith;
  device_type = ground arith;
  ad_slot = ground arith;
  auction = SameAuction-known (map_auction_type-SameAuction r.auction_type (ground arith));
}

check_fields-rejected :
    (r : BidRequest) (out : ParsedMessage)
    → (check_fields r out).status ≢ ParseStatus.ok
    → (check_fields r out).out ≡ out
unfolding check_fields
check_fields-rejected r out h = ground arith

accepted-HandsOn :
    (r : BidRequest) (out : ParsedMessage)
    → IsComplete r
    → HandsOn r (accepted r (map_auction_type r.auction_type) out).out
accepted-HandsOn r out c = record {
  request_id = refl;
  tmax_ms = refl;
  country = refl;
  device_type = refl;
  ad_slot = refl;
  auction =
      map_auction_type-SameAuction r.auction_type (known-SameAuction r.auction_type c.auction);
  processing_status = refl;
}

ok-cases : (s : ParseStatus) → (s ≡ ParseStatus.ok) ⊎ (s ≢ ParseStatus.ok)
ok-cases ParseStatus.ok = inl refl
ok-cases s = inr (λ e. cc)

module _ {F : Type 0} (proto : Protobuf F) (frame : List ℕ) (scratch : BidRequest)
    (out : ParsedMessage) where
  open proto use {parse_from_array}

  -- A frame is accepted exactly when it is below 2 GiB, holds a well-formed message, and the
  -- message has all its texts and is for a first-price or a second-price auction.
  pub parse_bid_request-ok :
      ((parse_bid_request proto frame scratch out).status ≡ ParseStatus.ok) ↔ (
        (length frame < 2 ^ 31)
        × ((parse_from_array frame).0 ≡ true)
        × IsComplete (parse_from_array frame).1)
  unfolding parse_bid_request
  parse_bid_request-ok = (forth, back)
    where
      forth :
          (parse_bid_request proto frame scratch out).status ≡ ParseStatus.ok
          → (length frame < 2 ^ 31)
            × ((parse_from_array frame).0 ≡ true)
            × IsComplete (parse_from_array frame).1
      forth h = ground (arith, check_fields-ok (parse_from_array frame).1 (clear out))

      back :
          (length frame < 2 ^ 31)
            × ((parse_from_array frame).0 ≡ true)
            × IsComplete (parse_from_array frame).1
          → (parse_bid_request proto frame scratch out).status ≡ ParseStatus.ok
      back h = ground (arith, check_fields-accepts (parse_from_array frame).1 (clear out) h.2)

  accepted_output :
      (parse_bid_request proto frame scratch out).status ≡ ParseStatus.ok
      → (parse_bid_request proto frame scratch out).out
        ≡ (accepted
            (parse_from_array frame).1
            (map_auction_type (parse_from_array frame).1.auction_type)
            (clear out)).out
  unfolding parse_bid_request
  accepted_output h =
      let c = (parse_bid_request-ok.0 h).2 in
      ground (arith, check_fields-accepts (parse_from_array frame).1 (clear out) c)

  rejected_output :
      (parse_bid_request proto frame scratch out).status ≢ ParseStatus.ok
      → (parse_bid_request proto frame scratch out).out ≡ default_parsed_message
  unfolding parse_bid_request clear
  rejected_output h =
      ground (arith, check_fields-rejected (parse_from_array frame).1 default_parsed_message)

  -- Whatever the output held before, on every status but success it is cleared, and on success its
  -- fields show those of the message, with the auction type that stands for the same kind of
  -- auction.
  pub parse_bid_request-clears :
      (((parse_bid_request proto frame scratch out).status ≡ ParseStatus.ok)
        × HandsOn (parse_from_array frame).1 (parse_bid_request proto frame scratch out).out)
      ⊎ (((parse_bid_request proto frame scratch out).status ≢ ParseStatus.ok)
          × ((parse_bid_request proto frame scratch out).out ≡ default_parsed_message))
  parse_bid_request-clears = elim (ok-cases (parse_bid_request proto frame scratch out).status) [
    | inl h ↦ inl (
      h,
      subst (HandsOn (parse_from_array frame).1) (sym (accepted_output h))
          (accepted-HandsOn (parse_from_array frame).1 (clear out) (parse_bid_request-ok.0 h).2),
    )
    | inr n ↦ inr (n, rejected_output n)
  ]
