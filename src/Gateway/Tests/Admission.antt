-- ===== src/Gateway/Tests/Admission.antt =====
-- The middlewares, the limiter and the assessment on concrete callers.
use x402_health_oracle.Prelude.{
  ℕ, ◌+◌, ◌≤◌, ◌<◌, ◌≡◌, refl, ◌↔◌, true, false, none, some, List, [], ◌∷◌, length, leb, arith,
}
use x402_health_oracle.Prelude.Int.{pos}
use x402_health_oracle.Crypto.{toy_crypto}
use x402_health_oracle.Double.Fixed.{Fixed, fixed_Double}
use x402_health_oracle.Bans.{load_bans, load_active_bans}
use x402_health_oracle.Bans.Restart.{is_active}
use x402_health_oracle.Sybil.{is_flagged}
use x402_health_oracle.Wallet.{Bindings}
use x402_health_oracle.Gateway.Cache.Dict.{lru, lru-IsCache}
use x402_health_oracle.Gateway.Guard.{is_banned}
use x402_health_oracle.Gateway.Request.{client_ip, check_consistency}
use x402_health_oracle.Gateway.Filter.{destroyed, next, sniper_filter}
use x402_health_oracle.Gateway.Filter.Admission.{
  is_known_bad, Admits, sniper_filter_iff, sniper_filter_bans,
}
use x402_health_oracle.Gateway.Stall.{
  StallRecord, StallState, note_request, rho_of, is_static, micro_stall, note_delay,
}
use x402_health_oracle.Gateway.Stall as Stall
use x402_health_oracle.Gateway.Stall.Pairs.{
  AllPaired, here, after, arrives, finishes, IsPaired, held, micro_stall-IsPaired,
  micro_stall_kills_iff,
}
use x402_health_oracle.Gateway.Rate.{IsPaced, last_verdict, free_rate_slides}
use x402_health_oracle.Gateway.Health.{Probe, idle, health_route, on_probe_message, health_decays}
use x402_health_oracle.Gateway.Tests.{empty_store, a_guard, an_ip, puppet, plain, a_filter, moment}

sniper_filter_iff_example :
    ((sniper_filter toy_crypto [] a_guard a_filter plain (moment 5)).2
      ≡ next (check_consistency plain))
    ↔ Admits toy_crypto [] a_guard a_filter plain (moment 5)
sniper_filter_iff_example = sniper_filter_iff toy_crypto [] a_guard a_filter plain (moment 5)

puppet-unknown : is_known_bad toy_crypto [] a_guard a_filter puppet (moment 5) ≡ false
unfolding is_flagged
puppet-unknown = refl

puppet-destroyed : (sniper_filter toy_crypto [] a_guard a_filter puppet (moment 5)).2 ≡ destroyed
unfolding is_flagged sniper_filter check_consistency
puppet-destroyed = refl

same_address : client_ip [] plain ≡ client_ip [] puppet
unfolding client_ip
same_address = refl

guard_ttl : lru.ttl a_guard.banned ≡ 3600000
guard_ttl = refl

sniper_filter_bans_example :
    let g' = (sniper_filter toy_crypto [] a_guard a_filter puppet (moment 5)).0 in
    ((sniper_filter toy_crypto [] g' a_filter plain (moment 1000)).2 ≡ destroyed)
    × (is_active (client_ip [] puppet) (load_active_bans (load_bans 7 g'.bans.file) 1000) ≡ true)
sniper_filter_bans_example =
    sniper_filter_bans toy_crypto [] lru-IsCache a_guard a_filter puppet (moment 5) a_filter plain
      (moment 1000) 7 guard_ttl tt puppet-unknown puppet-destroyed same_address (omega arith)
      (omega arith) (omega arith)

-- Six pairs, and a delay that waits for its pause.
abbrev six : List ℕ
six = 10 ∷ 20 ∷ 30 ∷ 40 ∷ 50 ∷ 60 ∷ []

abbrev a_record : StallRecord
a_record = record { server_delays = 5 ∷ six; client_gaps = six; last_req = some 100 }

abbrev a_state : StallState lru Fixed
a_state = record {
  stalls = record { max = 9; ttl = 60000; entries = (an_ip, (a_record, 100)) ∷ [] };
  last_spearman_rho = none;
}

free : is_banned a_guard an_ip 200 ≡ false
free = refl

a_record-IsPaired : IsPaired a_record
a_record-IsPaired = record { paired = omega arith; few = omega arith }

held_now : held lru a_state.stalls an_ip 200 ≡ a_record
held_now = refl

abbrev no_stalls : StallState lru Fixed
no_stalls = record { stalls = empty_store 60000; last_spearman_rho = none }

abbrev after_request : StallState lru Fixed
after_request =
    (micro_stall a_guard no_stalls an_ip (some (pos 500)) true none (some (pos 1)) 200).1

abbrev after_answer : StallState lru Fixed
after_answer = note_delay after_request an_ip (some (pos 9)) 200 300

micro_stall-IsPaired_example : AllPaired lru after_answer.stalls
micro_stall-IsPaired_example =
    micro_stall-IsPaired lru-IsCache no_stalls after_answer (λ ip now. refl)
      (after
        (after here (arrives a_guard no_stalls an_ip (some (pos 500)) true none (some (pos 1)) 200))
        (finishes after_request an_ip (some (pos 9)) 200 300))

micro_stall_kills_iff_example :
    let rec = note_request (held lru a_state.stalls an_ip 200) 200 in
    ((micro_stall a_guard a_state an_ip (some (pos 500)) true none (some (pos 1)) 200).2
      ≡ Stall.destroyed)
    ↔ ((length rec.client_gaps ≡ 7)
        × (7 ≤ length rec.server_delays)
        × (is_static (rho_of rec) (some (pos 500)) ≡ true))
micro_stall_kills_iff_example =
    micro_stall_kills_iff lru-IsCache a_guard a_state an_ip (some (pos 500)) true none
      (some (pos 1)) 200 free (rw held_now a_record-IsPaired)

not_counted : lru.get (empty_store {V = ℕ} 60000) an_ip 10 ≡ none
not_counted = refl

pacing : IsPaced (lru.ttl (empty_store {V = ℕ} 60000)) 10 (50000 ∷ 100000 ∷ [])
pacing = (omega arith, omega arith, (omega arith, omega arith, tt))

free_rate_slides_example :
    last_verdict lru (empty_store 60000) an_ip (10 ∷ 50000 ∷ 100000 ∷ []) true ≡ leb 3 30
free_rate_slides_example =
    free_rate_slides lru-IsCache (empty_store 60000) an_ip 10 (50000 ∷ 100000 ∷ []) not_counted
      pacing

abbrev a_probe : Probe
a_probe = record { last_jitter_ts = 0; pqc_cooldown_until = 0; mode = idle; sniper_armed = false }

health_decays_example :
    let p' = on_probe_message a_probe 1000 false 40000 in
    (((health_route p' 100001).safe ≡ true) ↔ (100001 < 40000 + 60000))
    × (((health_route p' 100001).code ≡ 503) ↔ (40000 + 300000 ≤ 100001))
    × ((p'.sniper_armed ≡ true) ↔ (1000 + 35000 ≤ 40000))
health_decays_example = health_decays a_probe 1000 40000 100001 (omega arith) (omega arith)

abbrev no_bindings : Bindings
no_bindings = record { by_wallet = []; by_behavioral_hash = [] }
