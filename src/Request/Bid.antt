-- ===== src/Request/Bid.antt =====
-- What a bid of `handle_request` (src/handle_request.cc) is for, and which requests get one.
use rtb_engine.Base.{
  ℕ, ◌≡◌, ◌↔◌, sym, ap, ◌∙◌, subst, inl, inr, Bool, true, false, [], Option, some, if◌then◌else◌,
  keep, Listed, Listed-All, Bool-cases,
}
use mathlib.Core.Bool.{false≢true}
use rtb_engine.Types.{
  ParsedMessage, RequestContext, is_eligible, CampaignStoreSnapshot, CampaignView, BidDecision,
}
use rtb_engine.Double.{Double, IsIeee}
use rtb_engine.Rng.{WorkerRng}
use rtb_engine.Rng.Range.{IsValid}
use rtb_engine.Store.Index.{HasSpan, IsIndexed}
use rtb_engine.Retrieve.{campaign_creatives, matches_request, view_of, retrieve_candidates}
use rtb_engine.Retrieve.Exact.{matching, retrieve_candidates-exact}
use rtb_engine.Decision.{bid_of, make_bid_decision}
use rtb_engine.Decision.Winner.{Backed}
use rtb_engine.Decision.Highest.{any_can_bid, make_bid_decision-has_bid, make_bid_decision-Backed}
use rtb_engine.Request.{HandleRequestTimingBreakdown, request_context, Handled, handle_request}
use rtb_engine.Request.Outcome.{handle_in_early, handle_in_full, context_eligible, eligible_context}
use rtb_engine.Request.Keys.{lacks_key-same, lacks_key-HasKeys, HasKeys-lacks_key}
use rtb_engine.Request.Match.{context_keys, Matches-Fits, InTime, SomeFits}
use rtb_engine.Request.Winner.{
  Listed-map, Listed-keep, matches_request-Matches, creative_slot, any_matches, any_matches-Listed,
  Listed-any_matches, any_can_bid-matching, Won,
}

module _ {F : Type 0} ⦃d : Double F⦄ (laws : IsIeee F) (m : ParsedMessage) (t : ℕ)
    (store : CampaignStoreSnapshot F) where
  abbrev context : RequestContext
  context = request_context m t

  Backed-Won :
      (decision : BidDecision F)
      → IsIndexed store
      → Backed laws (matching store context) decision
      → Won laws m store decision
  Backed-Won decision v b =
      let keys = context_keys m t in
      let (c, at, view) =
        Listed-map (view_of store) (keep (matches_request context) store.campaigns) b.candidate
          b.listed in
      let (here, hit) = Listed-keep (matches_request context) store.campaigns c at in
      let fits = matches_request-Matches context c hit in
      let same : c ≡ b.campaign =
        let e : some c ≡ some b.campaign =
          ap (λ (w : CampaignView F). w.campaign) view ∙ b.campaign_at in
        cc in
      let from : Listed b.creative (campaign_creatives store c) =
        subst (λ (w : CampaignView F). Listed b.creative w.creatives) (sym view)
          b.creative_listed in
      record {
        campaign = c;
        listed = here;
        active = fits.active;
        country = fits.country ∙ ap (λ k. k.value) keys.0;
        device = fits.device ∙ keys.1;
        slot = fits.slot ∙ ap (λ k. k.value) keys.2;
        creative = b.creative;
        creative_listed = from;
        creative_slot =
            creative_slot store c b.creative
              (Listed-All (HasSpan store.creatives) store.campaigns c v.spans here) from
            ∙ fits.slot
            ∙ ap (λ k. k.value) keys.2;
        shape = subst (λ x. decision ≡ bid_of x b.creative decision.bid_price) (sym same) b.shape;
        price = b.price;
      }

  candidates_matching :
      IsIndexed store
      → is_eligible context ≡ true
      → retrieve_candidates store context ≡ matching store context
  candidates_matching v e =
      retrieve_candidates-exact store context v
      ∙ ap (λ (q : Bool). if q then matching store context else []) e

  module _ (now : ℕ → ℕ) (rng : WorkerRng) (timing : Option HandleRequestTimingBreakdown) where
    abbrev decided : BidDecision F
    decided = (handle_request now m t store rng timing).result.decision

    early_decision : is_eligible context ≡ false → decided.has_bid ≡ false
    unfolding handle_request
    early_decision e =
        ap (λ (h : Handled F). h.result.decision.has_bid)
          (handle_in_early now context store rng timing e)

    full_decision :
        is_eligible context ≡ true
        → decided ≡ (make_bid_decision context (retrieve_candidates store context) rng).0
    unfolding handle_request
    full_decision e =
        ap (λ (h : Handled F). h.result.decision) (handle_in_full now context store rng timing e)

    bid_eligible : decided.has_bid ≡ true → is_eligible context ≡ true
    bid_eligible h = elim (Bool-cases (is_eligible context)) [
      | inl e ↦ e
      | inr e ↦ absurd (false≢true (sym (early_decision e) ∙ h))
    ]

    -- For a `double` with the laws of `IsIeee`, on a store with exact indexes and with a valid
    -- generator, a bid of `handle_request` is for an active campaign of the store whose country
    -- key, device type key and ad slot key (a 32-bit hash) are those of the message, with one of
    -- the creatives of that campaign, whose ad slot key is the same, at a finite price between the
    -- configured bounds.
    pub handle_request-Won :
        IsIndexed store → IsValid rng → decided.has_bid ≡ true → Won laws m store decided
    handle_request-Won v g h =
        let e = bid_eligible h in
        let path = full_decision e in
        let backed =
          make_bid_decision-Backed laws context (retrieve_candidates store context) rng g
            (ap (λ (b : BidDecision F). b.has_bid) (sym path) ∙ h) in
        Backed-Won decided v (
          subst (λ cs. Backed laws cs decided) (candidates_matching v e)
            (subst (Backed laws (retrieve_candidates store context)) (sym path) backed))

    abbrev has_match : Bool
    has_match = any_matches context store.campaigns

    has_match-SomeFits : (has_match ≡ true) ↔ SomeFits m store
    has_match-SomeFits = (
      λ h.
          let (c, listed, matches) = any_matches-Listed context store.campaigns h in
          (c, listed, (Matches-Fits m t c).0 matches),
      λ (c, listed, fits).
          Listed-any_matches context store.campaigns c listed ((Matches-Fits m t c).1 fits),
    )

    eligible_InTime : is_eligible context ≡ true → InTime m t
    eligible_InTime e =
        let p = context_eligible m t e in
        (lacks_key-HasKeys m (sym (lacks_key-same m t) ∙ p.0), p.1, p.2)

    InTime-eligible : InTime m t → is_eligible context ≡ true
    InTime-eligible p = eligible_context m t (lacks_key-same m t ∙ HasKeys-lacks_key m p.0) p.1 p.2

    can_bid_match :
        IsIndexed store
        → is_eligible context ≡ true
        → any_can_bid laws (retrieve_candidates store context) ≡ has_match
    can_bid_match v e =
        ap (any_can_bid laws) (candidates_matching v e)
        ∙ any_can_bid-matching laws store context store.campaigns v.spans

    -- For a `double` with the laws of `IsIeee`, on a store with exact indexes and with a valid
    -- generator, `handle_request` bids exactly when the message was accepted by the parser, none
    -- of its keys is the one for "none" and its auction type is specified, it came in before its
    -- deadline, and the store lists an active campaign whose country key, device type key and ad
    -- slot key (a 32-bit hash) are those of the message.
    pub handle_request-bids :
        IsIndexed store → IsValid rng → (decided.has_bid ≡ true) ↔ (InTime m t × SomeFits m store)
    handle_request-bids v g = (forth, back)
      where
        forth : decided.has_bid ≡ true → InTime m t × SomeFits m store
        forth h =
            let e = bid_eligible h in
            let p =
              (make_bid_decision-has_bid laws context (retrieve_candidates store context) rng g).0
                (ap (λ (b : BidDecision F). b.has_bid) (sym (full_decision e)) ∙ h) in
            (eligible_InTime e, has_match-SomeFits.0 (sym (can_bid_match v e) ∙ p.1))

        back : InTime m t × SomeFits m store → decided.has_bid ≡ true
        back (p, q) =
            let e = InTime-eligible p in
            ap (λ (b : BidDecision F). b.has_bid) (full_decision e)
            ∙ (make_bid_decision-has_bid laws context (retrieve_candidates store context) rng g).1
                (e, can_bid_match v e ∙ has_match-SomeFits.1 q)
