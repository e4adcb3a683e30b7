-- ===== src/Gateway/Tests/Local.antt =====
-- The routes for the machine's own callers on concrete requests.
use x402_health_oracle.Prelude.{
  ◌<◌, ◌≡◌, refl, ◌↔◌, true, false, some, [], ◌∷◌, Text, codes, text_Eq,
}
use x402_health_oracle.Prelude.Int.{pos}
use x402_health_oracle.Prelude.Dict.{get, is_some}
use x402_health_oracle.Crypto.{toy_crypto}
use x402_health_oracle.Double.Fixed.{Fixed, fixed_Double}
use x402_health_oracle.Bans.{load_bans, load_active_bans}
use x402_health_oracle.Encoding.Hex.{to_hex, hex_digit}
use x402_health_oracle.Sybil.{daily_salt, IpRecord, hash_ip, is_flagged}
use x402_health_oracle.Sybil.Flags.{is_reached}
use x402_health_oracle.Gateway.Cache.Dict.{lru, lru-IsCache}
use x402_health_oracle.Gateway.Guard.{is_banned}
use x402_health_oracle.Gateway.Filter.{FilterState, destroyed, next, sniper_filter}
use x402_health_oracle.Gateway.Request.{Request, is_local, client_ip, check_consistency}
use x402_health_oracle.Gateway.Admin.{Resettable, reset_bans, sybil_flag}
use x402_health_oracle.Gateway.Admin.Reset.{reset_bans_frees}
use x402_health_oracle.Gateway.Admin.Cohort.{sybil_flag_destroys}
use x402_health_oracle.Gateway.Tests.{a_guard, an_ip, plain, a_filter, moment}

abbrev own : Request
own = record { remote = some (codes "::1"); headers = [] }

own-is_local : is_local own ≡ true
unfolding is_local
own-is_local = refl

abbrev a_server : Resettable lru Fixed
a_server = record {
  guard = a_guard;
  filter = a_filter;
  shadow = record { heap = []; records = []; pending = [] };
}

reset_bans_frees_example :
    let s' = (reset_bans a_server own).0 in
    (is_banned s'.guard an_ip 9 ≡ false)
    × (load_active_bans (load_bans 8 s'.guard.bans.file) 9 ≡ [])
    × (is_flagged s'.filter.sybil (hash_ip toy_crypto (codes "1") an_ip) ≡ false)
    × (((sniper_filter toy_crypto [] s'.guard s'.filter plain (moment 5)).2
          ≡ next (check_consistency plain))
        ↔ (check_consistency plain < 100))
reset_bans_frees_example =
    reset_bans_frees lru-IsCache toy_crypto [] a_server own plain (moment 5) an_ip 8 9 own-is_local

abbrev another : Text
another = codes "10.0.0.2"

abbrev hash_of : Text → Text
hash_of ip = hash_ip toy_crypto (codes "1") ip

abbrev a_record : IpRecord Fixed
a_record = record {
  profile = record { count = 12; mean = some (pos 2000); m2 = some (pos 40) };
  intervals = [];
  cohort_id = some 1;
  flagged = false;
  last_seen = 5;
}

-- Two addresses of one cohort.
abbrev a_pair : FilterState Fixed
a_pair = record a_filter {
  sybil = record {
    records = (hash_of an_ip, a_record) ∷ (hash_of another, a_record) ∷ [];
    cohorts = (1, hash_of an_ip ∷ hash_of another ∷ []) ∷ [];
    cohort_counter = 1;
  };
}

plain-reached : is_reached a_pair.sybil (hash_of another) (hash_of (client_ip [] plain)) ≡ true
unfolding client_ip hash_ip to_hex daily_salt hex_digit
plain-reached = refl

plain-known : is_some (get (hash_of (client_ip [] plain)) a_pair.sybil.records) ≡ true
unfolding client_ip hash_ip to_hex daily_salt hex_digit
plain-known = refl

sybil_flag_destroys_example :
    let flagged = (sybil_flag toy_crypto (codes "1") a_pair.sybil own (some another)).0 in
    (sniper_filter toy_crypto [] a_guard (record a_pair { sybil = flagged }) plain (moment 5)).2
    ≡ destroyed
sybil_flag_destroys_example =
    sybil_flag_destroys toy_crypto [] a_guard a_pair own plain another (moment 5) own-is_local refl
      plain-reached plain-known
