-- ===== src/Sniper/Tests.antt =====
-- The sniper on concrete requests.
use x402_health_oracle.Prelude.{
  ◌+◌, ◌≤◌, ◌≡◌, ◌↔◌, true, none, some, List, [], ◌∷◌, arith, string_Eq,
}
use x402_health_oracle.Prelude.Int.{pos}
use x402_health_oracle.Double.Fixed.{Fixed, fixed_Double}
use x402_health_oracle.Sniper.Blocklist.{is_blocked}
use x402_health_oracle.Sniper.Blocklist.History.{
  History, blocked_for, asked, deleted, run, block_end, is_before, is_blocked-block_end,
}
use x402_health_oracle.Sniper.RequestLog.{RequestLog, record_request}
use x402_health_oracle.Sniper.RequestLog.Intervals.{IsValid, empty-IsValid, record_request-IsValid}
use x402_health_oracle.Sniper.Score.{RequestHeaders, score_bot_request}
use x402_health_oracle.Sniper.Score.Bounds.{HasBrowserHeaders, TwoOf, blocked_iff}

abbrev a_history : History
a_history =
    (9, asked "10.0.0.2")
    ∷ (6, blocked_for "10.0.0.2" 3)
    ∷ (5, blocked_for "10.0.0.1" 100)
    ∷ (4, deleted "10.0.0.1")
    ∷ []

is_blocked-block_end_example :
    (is_blocked (run a_history) 50 "10.0.0.1").1 ≡ is_before 50 (block_end "10.0.0.1" a_history)
is_blocked-block_end_example =
    is_blocked-block_end "10.0.0.1" 50 a_history
      (omega arith, (omega arith, (omega arith, (omega arith, tt))))

abbrev one_request : RequestLog
one_request = (record_request [] "10.0.0.1" 10).0

record_request-IsValid_example : IsValid one_request
record_request-IsValid_example = record_request-IsValid [] "10.0.0.1" 10 empty-IsValid

abbrev no_headers : RequestHeaders
no_headers = record {
  user_agent = none;
  accept_language = none;
  sec_fetch_mode = none;
  sec_fetch_site = none;
}

abbrev hundred : Fixed
hundred = some (pos 100000)

abbrev steady : List Fixed
steady = hundred ∷ hundred ∷ hundred ∷ hundred ∷ hundred ∷ []

blocked_iff_example :
    let s = score_bot_request steady no_headers (some (pos 5000)) in
    let b = s.breakdown in
    ((s.blocked ≡ true) ↔ (60 ≤ s.total))
    × (s.total ≤ 150)
    × (s.blocked ≡ true → 5 ≤ b.variance_score + b.entropy_score + b.autocorr_score)
    × (HasBrowserHeaders no_headers
        → s.blocked ≡ true
        → TwoOf b.variance_score b.entropy_score b.autocorr_score)
blocked_iff_example = blocked_iff steady no_headers (some (pos 5000))
