-- ===== src/Gateway/Tests.antt =====
-- Inputs of the gateway's tests: empty stores, callers, and the clocks of a request.
mod Admission
mod Proofs
mod Tokens
mod Local
use x402_health_oracle.Prelude.{ℕ, ◌≡◌, refl, Bool, true, false, none, some, [], ◌∷◌, Text, codes}
use x402_health_oracle.Prelude.Int.{pos}
use x402_health_oracle.Double.Fixed.{Fixed, fixed_Double}
use x402_health_oracle.Bans.{BanStore, missing}
use x402_health_oracle.Sybil.{SybilCluster}
use x402_health_oracle.Drift.Quantile.{filling}
use x402_health_oracle.Drift.PageHinkley.{new_page_hinkley}
use x402_health_oracle.Drift.Threshold.{DriftThreshold, warmup}
use x402_health_oracle.Tls.Resolve.{one_text}
use x402_health_oracle.Gateway.Cache.Dict.{LruStore, lru}
use x402_health_oracle.Gateway.Guard.{Guard}
use x402_health_oracle.Gateway.Filter.{FilterState, Moment}
use x402_health_oracle.Gateway.Request.{Request}
use x402_health_oracle.Gateway.Registry.{Measured}

abbrev pub empty_store : {V : Type 0} → ℕ → LruStore V
empty_store ttl = record { max = 100; ttl = ttl; entries = [] }

abbrev pub a_guard : Guard lru
a_guard = record {
  banned = empty_store 3600000;
  bans = record { bans = []; file = missing };
  passed = 0;
  dropped = 0;
}

abbrev pub an_ip : Text
an_ip = codes "10.0.0.1"

-- A caller with the header of an automation tool, and one without any header.
abbrev pub puppet : Request
puppet = record {
  remote = some an_ip;
  headers = ("x-puppeteer-version", one_text (codes "21")) ∷ [];
}

abbrev pub plain : Request
plain = record { remote = some an_ip; headers = [] }

abbrev pub a_filter : FilterState Fixed
a_filter = record {
  sybil = record { records = []; cohorts = []; cohort_counter = 0 };
  request_log = [];
  sigma2 = some (pos 2000);
  drift = record {
    quantile = some (pos 500);
    floor = some (pos 1000);
    ceil = some (pos 5000);
    margin = some (pos 1000);
    warmup_samples = 1;
    estimator = filling [];
    ph = new_page_hinkley (record { delta = none; lambda = none });
    status = warmup;
    drift_events = 0;
  };
  last_ja4 = none;
  last_tls_risk = none;
}

abbrev pub moment : ℕ → Moment Fixed
moment now = record { now = now; tick = some (pos now); day = codes "1"; armed = true }

abbrev pub a_measure : Measured Fixed
a_measure = record {
  entropy = some (pos 2000);
  variance = some (pos 3000);
  spearman_rho = some (pos 900);
  rho_threshold = some (pos 500);
  in_sniper_mode = true;
}
