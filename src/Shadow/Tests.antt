-- ===== src/Shadow/Tests.antt =====
-- The filter on a concrete run.
use x402_health_oracle.Prelude.{◌+◌, ◌≤◌, ◌≡◌, ◌↔◌, refl, true, false, codes, get_elem?, some}
use x402_health_oracle.Double.Fixed.{Fixed, fixed_Double}
use x402_health_oracle.Classifier.{human}
use x402_health_oracle.Shadow.{
  ShadowRecord, ShadowState, throttle_after, handle, is_shadow_exempt, admit, find_record,
}
use x402_health_oracle.Shadow.Steps.{Reach, here, after, request, start}
use x402_health_oracle.Shadow.Heap.{count}
use x402_health_oracle.Shadow.Invariant.{throttled_iff}

-- One request, which waits for its classification.
abbrev one_request : ShadowState
one_request = (handle start (codes "/api/x") "10.0.0.1" 10).0

abbrev a_record : ShadowRecord
a_record = record {
  requests = 1;
  bot_hits = 0;
  last_class = human;
  last_seen = 10;
  throttled = false;
}

one_request-a_record : get_elem? one_request.heap 0 ≡ some a_record
unfolding handle find_record admit is_shadow_exempt
one_request-a_record = refl

abbrev one_step : Reach Fixed one_request
one_step = after here (request start (codes "/api/x") "10.0.0.1" 10)

throttled_iff_example :
    (a_record.bot_hits + count 0 one_request.pending ≤ a_record.requests)
    × ((a_record.throttled ≡ true) ↔ (throttle_after ≤ a_record.bot_hits))
throttled_iff_example = throttled_iff one_step 0 a_record one_request-a_record
