-- ===== src/Retrieve/Examples.antt =====
-- `retrieve_candidates` (src/retrieve.cc) on the sample store.
use rtb_engine.Base.{◌≡◌, refl, [], codes, length, if◌then◌else◌}
use rtb_engine.Types.{
  AuctionType, DeviceTypeKey, NoBidReason, RequestProcessingStatus, RequestContext, is_eligible,
}
use rtb_engine.Store.{find_bucket}
use rtb_engine.Store.Sample.{sample_store, sample-IsIndexed, top_slot}
use rtb_engine.Retrieve.{matches_request, choose_seed_bucket, collect, retrieve_candidates}
use rtb_engine.Retrieve.Exact.{matching, retrieve_candidates-exact}

abbrev context : RequestContext
context = record {
  request_id = codes "r1";
  country_key = record { value = 21843 };
  device_type_key = DeviceTypeKey.mobile;
  ad_slot_key = top_slot;
  auction_type = AuctionType.first_price;
  received_at_ns = 1;
  deadline_ns = 2;
  processing_status = RequestProcessingStatus.ok;
  no_bid_reason = NoBidReason.none;
}

two_candidates : length (retrieve_candidates sample_store context) ≡ 2
unfolding retrieve_candidates collect choose_seed_bucket find_bucket matches_request is_eligible
two_candidates = refl

retrieve_candidates-exact_example :
    retrieve_candidates sample_store context
    ≡ (if is_eligible context then matching sample_store context else [])
retrieve_candidates-exact_example = retrieve_candidates-exact sample_store context sample-IsIndexed
