-- ===== src/Gateway/Filter.antt =====
-- The sniper filter of gateway/server.ts, the middleware in front of the protected routes. Times of
-- requests are `performance.now()`, doubles; times of bans are `Date.now()`.
pub mod Effects
pub mod Admission
use x402_health_oracle.Prelude.{
  ℕ, ◌+◌, Bool, true, false, ◌||◌, Option, none, some, List, [], ◌∷◌, ◌++◌, leb, ltb, if◌then◌else◌,
  Text, codes, text_Eq, length,
}
use x402_health_oracle.Prelude.Dict.{Dict, get, put}
use x402_health_oracle.Encoding.Decimal.{to_decimal}
use x402_health_oracle.Crypto.{Crypto}
use x402_health_oracle.Double.{Double, ◌⊖◌, ◌⊏◌, abs}
use x402_health_oracle.Sniper.Score.{RequestHeaders, SniperScore, score_bot_request}
use x402_health_oracle.Tls.Resolve.{TlsFp, resolve_tls_fp, tls_risk}
use x402_health_oracle.Sybil.{SybilCluster, hash_ip, ingest, flag, is_flagged}
use x402_health_oracle.Drift.Threshold.{DriftThreshold, observe, threshold, is_ready}
use x402_health_oracle.Gateway.Cache.{Cache}
use x402_health_oracle.Gateway.Request.{
  Request, header, header_text, user_agent, client_ip, from_proxy, check_consistency,
}
use x402_health_oracle.Gateway.Guard.{Guard, is_banned, ban, count_dropped, count_passed}

pub record FilterState (W : Type 0) : Type 0 where
  pub sybil : SybilCluster W
  -- requestLog
  pub request_log : Dict Text (List W)
  -- liveRules.sigma2 and sigmaDrift
  pub sigma2 : W
  pub drift : DriftThreshold W
  pub last_ja4 : Option Text
  pub last_tls_risk : Option W

-- The socket is destroyed, or the request goes on with its Frankenstein points.
pub data Outcome : Type 0 where
  destroyed : Outcome
  next : ℕ → Outcome

-- What a request brings: the clocks, the day of the salt, and whether the sniper is armed.
pub record Moment (W : Type 0) : Type 0 where
  pub now : ℕ
  pub tick : W
  pub day : Text
  pub armed : Bool

abbrev pub max_times : ℕ
max_times = 20

abbrev pub stored_times {ℓ} : {A : Type ℓ} → Option (List A) → List A
stored_times none = []
stored_times (some times) = times

abbrev pub shift {ℓ} : {A : Type ℓ} → List A → List A
shift [] = []
shift (_ ∷ times) = times

-- `timestamps.push(now); if (timestamps.length > 20) timestamps.shift()`
unfoldable pub push_time {ℓ} : {A : Type ℓ} → List A → A → List A
push_time times t =
    let pushed = times ++ t ∷ [] in if ltb max_times (length pushed) then shift pushed else pushed

abbrev pub request_headers : Request → RequestHeaders
request_headers r = record {
  user_agent = header_text r "user-agent";
  accept_language = header_text r "accept-language";
  sec_fetch_mode = header_text r "sec-fetch-mode";
  sec_fetch_site = header_text r "sec-fetch-site";
}

unfoldable pub frankenstein_reason : ℕ → Text
frankenstein_reason points = codes "Frankenstein score=" ++ to_decimal points

module _ {W : Type 0} ⦃d : Double W⦄ where
  unfoldable pub intervals_after : W → List W → List W
  intervals_after before [] = []
  intervals_after before (t ∷ times) = (t ⊖ before) ∷ intervals_after t times

  abbrev pub intervals : List W → List W
  intervals [] = []
  intervals (t ∷ times) = intervals_after t times

  unfoldable pub rhythm_reason : SniperScore W → Text
  rhythm_reason score =
      codes "Synthetic rhythm score="
      ++ (to_decimal score.total
          ++ (codes " σ²="
              ++ (d.to_fixed 3 score.variance ++ (codes " R1=" ++ d.to_fixed 3 score.autocorr))))

  abbrev pub note_fp : FilterState W → TlsFp → Text → FilterState W
  note_fp f none ua = f
  note_fp f (some []) ua = f
  note_fp f (some (x ∷ ja4)) ua = record f {
    last_ja4 = some (x ∷ ja4);
    last_tls_risk = some (tls_risk W (some (x ∷ ja4)) ua);
  }

  -- A fingerprint of a trusted front is noted before anything else.
  unfoldable pub note_tls : List Text → FilterState W → Request → FilterState W
  note_tls proxies f r =
      note_fp f (resolve_tls_fp (header r "x-tls-ja4") (from_proxy proxies r)) (user_agent r)

  -- `Number(sigmaDrift.threshold.toFixed(2))`
  abbrev pub adapted : DriftThreshold W → W
  adapted t = d.parse (d.to_fixed 2 (threshold t))

  -- The variance of a request that passed goes to the drift model, which sets the cutoff.
  unfoldable pub adapt : FilterState W → W → FilterState W
  adapt f variance =
      let t = observe f.drift variance in
      let cutoff = adapted t in
      if is_ready t
      then (if d.ratio 1 10 ⊏ abs (cutoff ⊖ f.sigma2)
          then record f { drift = t; sigma2 = cutoff }
          else record f { drift = t })
      else record f { drift = t }

  unfoldable pub score_times : W → List W → Request → SniperScore W
  score_times sigma2 times r = score_bot_request (intervals times) (request_headers r) sigma2

  module _ {c : Cache} where
    -- From the score on; `hash` is the hash of the address.
    unfoldable pub judge :
        Guard c
        → FilterState W
        → Text
        → Text
        → List W
        → SniperScore W
        → ℕ
        → ℕ
        → Guard c × FilterState W × Outcome
    judge g f ip hash times score points now =
        let seen = ingest f.sybil hash (intervals times) now in
        if score.blocked
        then (
          count_dropped (ban g ip (rhythm_reason score) now),
          record f { sybil = (flag seen hash).0 },
          destroyed,
        )
        else (count_passed g, adapt (record f { sybil = seen }) score.variance, next points)

    -- From the request log on, with the sniper armed.
    unfoldable pub watch :
        Guard c
        → FilterState W
        → Request
        → Text
        → Text
        → ℕ
        → Moment W
        → Guard c × FilterState W × Outcome
    watch g f r ip hash points m =
        let times = push_time (stored_times (get ip f.request_log)) m.tick in
        let logged = record f { request_log = put ip times f.request_log } in
        if ltb (length times) 10
        then (count_passed g, logged, next points)
        else judge g logged ip hash times (score_times f.sigma2 times r) points m.now

  module _ {c : Cache} (k : Crypto) (proxies : List Text) where
    -- The middleware.
    unfoldable pub sniper_filter :
        Guard c → FilterState W → Request → Moment W → Guard c × FilterState W × Outcome
    sniper_filter g f r m =
        let ip = client_ip proxies r in
        let hash = hash_ip k m.day ip in
        let noted = note_tls proxies f r in
        let points = check_consistency r in
        if is_banned g ip m.now || is_flagged f.sybil hash
        then (count_dropped g, noted, destroyed)
        else if leb 100 points
        then (count_dropped (ban g ip (frankenstein_reason points) m.now), noted, destroyed)
        else if m.armed
        then watch g noted r ip hash points m
        else (g, noted, next points)
