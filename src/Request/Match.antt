-- ===== src/Request/Match.antt =====
-- What `handle_request` (src/handle_request.cc) asks of a message and of a campaign before it bids.
use rtb_engine.Base.{ℕ, ◌<◌, ◌≡◌, ◌↔◌, sym, ap, ◌∙◌, true, arith, Listed}
use rtb_engine.Types.{RequestProcessingStatus, ParsedMessage, CampaignRecord, CampaignStoreSnapshot}
use rtb_engine.Normalize.{
  normalize_country_key, normalize_device_type_key, normalize_ad_slot_key, compute_deadline_ns,
  initial_context, build_request_context,
}
use rtb_engine.Request.{validate_request_context, request_context}
use rtb_engine.Request.Keys.{HasKeys}
use rtb_engine.Request.Winner.{Matches}

pub context_keys :
    (m : ParsedMessage) (t : ℕ)
    → ((request_context m t).country_key ≡ normalize_country_key m.country)
      × ((request_context m t).device_type_key ≡ normalize_device_type_key m.device_type)
      × ((request_context m t).ad_slot_key ≡ normalize_ad_slot_key m.ad_slot)
unfolding validate_request_context build_request_context initial_context
context_keys m t = ground arith

-- An active campaign whose keys are those of the message.
pub record Fits {F : Type 0} (m : ParsedMessage) (c : CampaignRecord F) : Type 0 where
  pub active : c.active ≡ true
  pub country : c.country_key.value ≡ (normalize_country_key m.country).value
  pub device : c.device_type_key ≡ normalize_device_type_key m.device_type
  pub slot : c.ad_slot_key.value ≡ (normalize_ad_slot_key m.ad_slot).value

pub Matches-Fits :
    {F : Type 0} (m : ParsedMessage) (t : ℕ) (c : CampaignRecord F)
    → Matches (request_context m t) c ↔ Fits m c
Matches-Fits m t c =
    let keys = context_keys m t in
    (
      λ h. record {
        active = h.active;
        country = h.country ∙ ap (λ k. k.value) keys.0;
        device = h.device ∙ keys.1;
        slot = h.slot ∙ ap (λ k. k.value) keys.2;
      },
      λ h. record {
        active = h.active;
        country = h.country ∙ sym (ap (λ k. k.value) keys.0);
        device = h.device ∙ sym keys.1;
        slot = h.slot ∙ sym (ap (λ k. k.value) keys.2);
      },
    )

-- The message was accepted by the parser, has its keys, and came in before its deadline.
abbrev pub InTime : ParsedMessage → ℕ → Type 0
InTime m t =
    HasKeys m
    × (m.processing_status ≡ RequestProcessingStatus.ok)
    × (t < compute_deadline_ns t m.tmax_ms)

-- Some campaign of the store fits the message.
abbrev pub SomeFits : {F : Type 0} → ParsedMessage → CampaignStoreSnapshot F → Type 0
SomeFits {F} m store = (c : CampaignRecord F) × Listed c store.campaigns × Fits m c
