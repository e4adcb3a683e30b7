-- ===== src/Gateway/Filter/Admission.antt =====
-- Whom the sniper filter lets pass, and what becomes of the others.
use x402_health_oracle.Prelude.{
  ℕ, ◌+◌, ◌≤◌, ◌<◌, ◌≡◌, refl, ◌↔◌, Bool, true, false, inl, inr, Bool-cases, List, Text, arith, leb,
  ◌&&◌, ◌||◌, text_Eq,
}
use x402_health_oracle.Prelude.Dict.{Distinct}
use x402_health_oracle.Crypto.{Crypto}
use x402_health_oracle.Double.{Double}
use x402_health_oracle.Bans.{load_bans, load_active_bans}
use x402_health_oracle.Bans.Restart.{is_active}
use x402_health_oracle.Sybil.{hash_ip, is_flagged}
use x402_health_oracle.Gateway.Cache.{Cache, IsCache}
use x402_health_oracle.Gateway.Request.{Request, client_ip, check_consistency}
use x402_health_oracle.Gateway.Guard.{Guard, is_banned, ban, count_dropped, hour_ms}
use x402_health_oracle.Gateway.Guard.Lasting.{is_banned-ban, is_active-ban}
use x402_health_oracle.Gateway.Filter.{
  FilterState, destroyed, next, Moment, watch, note_tls, sniper_filter, frankenstein_reason,
}
use x402_health_oracle.Gateway.Filter.Effects.{
  has_synthetic_rhythm, note_tls_keeps, watch_outcome, Keeps, watch-Keeps, Keeps-from, Convicts,
  Convicts-of, watch-Convicts,
}

-- The verdict that the filter has to reach on a request, from the state before it.
module _ {W : Type 0} ⦃d : Double W⦄ {c : Cache} (k : Crypto) (proxies : List Text) where
  abbrev pub is_known_bad : Guard c → FilterState W → Request → Moment W → Bool
  is_known_bad g f r m =
      let ip = client_ip proxies r in
      is_banned g ip m.now || is_flagged f.sybil (hash_ip k m.day ip)

  abbrev pub Admits : Guard c → FilterState W → Request → Moment W → Type 0
  Admits g f r m =
      (is_known_bad g f r m ≡ false)
      × (check_consistency r < 100)
      × (m.armed && has_synthetic_rhythm f.request_log f.sigma2 r (client_ip proxies r) m.tick
          ≡ false)

  sniper_filter-Convicts :
      (g : Guard c) (f : FilterState W) (r : Request) (m : Moment W)
      → is_known_bad g f r m ≡ false
      → Convicts g (client_ip proxies r) m.now (sniper_filter k proxies g f r m)
  unfolding sniper_filter
  sniper_filter-Convicts g f r m unknown =
      let ip = client_ip proxies r in
      let points = check_consistency r in
      let noted = note_tls proxies f r in
      rw unknown (elim (Bool-cases (leb 100 points)) [
        | inl high ↦ rw high (frankenstein_reason points, refl)
        | inr low ↦ rw low (elim (Bool-cases m.armed) [
          | inl armed ↦ simp armed (watch-Convicts g noted r ip (hash_ip k m.day ip) points m)
          | inr idle ↦ simp idle tt
        ])
      ])

  banned_destroyed :
      (g : Guard c) (f : FilterState W) (r : Request) (m : Moment W)
      → is_banned g (client_ip proxies r) m.now ≡ true
      → (sniper_filter k proxies g f r m).2 ≡ destroyed
  unfolding sniper_filter
  banned_destroyed g f r m h = ground arith

  -- The filter lets a request pass exactly if its address is neither banned nor flagged, it has
  -- fewer than 100 Frankenstein points, and, once the sniper is armed, the times of its address
  -- (with this one, ten at least) do not score as synthetic.
  pub sniper_filter_iff :
      (g : Guard c) (f : FilterState W) (r : Request) (m : Moment W)
      → ((sniper_filter k proxies g f r m).2 ≡ next (check_consistency r)) ↔ Admits g f r m
  unfolding sniper_filter
  sniper_filter_iff g f r m =
      let ip = client_ip proxies r in
      let points = check_consistency r in
      let noted = note_tls proxies f r in
      ground (
        arith,
        watch_outcome g noted r ip (hash_ip k m.day ip) points m,
        note_tls_keeps proxies f r,
      )

  -- A request that goes on leaves the bans as they are; one that is destroyed is counted as
  -- dropped, and leaves the drift model and its cutoff as they are.
  pub sniper_filter-Keeps :
      (g : Guard c) (f : FilterState W) (r : Request) (m : Moment W)
      → Keeps g f (sniper_filter k proxies g f r m)
  unfolding sniper_filter ban
  sniper_filter-Keeps g f r m =
      let ip = client_ip proxies r in
      let points = check_consistency r in
      let noted = note_tls proxies f r in
      let (log, sigma2, drift) = note_tls_keeps proxies f r in
      elim (Bool-cases (is_known_bad g f r m)) [
        | inl bad ↦ rw bad (drift, sigma2, refl, refl)
        | inr unknown ↦ rw unknown (elim (Bool-cases (leb 100 points)) [
          | inl high ↦ rw high (drift, sigma2, refl, refl)
          | inr low ↦ rw low (elim (Bool-cases m.armed) [
            | inl armed ↦ simp armed (
                Keeps-from g f noted (watch g noted r ip (hash_ip k m.day ip) points m) drift sigma2
                  (watch-Keeps g noted r ip (hash_ip k m.day ip) points m))
            | inr idle ↦ simp idle (refl, refl, refl)
          ])
        ])
      ]

  -- A request that the filter destroys, and whose address was neither banned nor flagged, bans
  -- its address: within the hour every later request of the address is destroyed, whatever else
  -- it carries, and after a restart from the file the ban is active. It takes the laws of the
  -- caches, a time to live of an hour, and a store that holds each address once.
  pub sniper_filter_bans :
      (laws : IsCache c) (g : Guard c) (f : FilterState W) (r : Request) (m : Moment W)
      (f' : FilterState W) (r' : Request) (m' : Moment W) (t : ℕ)
      → c.ttl g.banned ≡ hour_ms
      → Distinct g.bans.bans
      → is_known_bad g f r m ≡ false
      → (sniper_filter k proxies g f r m).2 ≡ destroyed
      → client_ip proxies r' ≡ client_ip proxies r
      → m.now ≤ m'.now
      → m'.now < m.now + hour_ms
      → t ≤ m'.now
      → let g' = (sniper_filter k proxies g f r m).0 in
        ((sniper_filter k proxies g' f' r' m').2 ≡ destroyed)
        × (is_active (client_ip proxies r) (load_active_bans (load_bans t g'.bans.file) m'.now)
            ≡ true)
  sniper_filter_bans laws g f r m f' r' m' t ttl distinct unknown gone same after before restart =
      let ip = client_ip proxies r in
      let (reason, e) =
        Convicts-of g ip m.now (sniper_filter k proxies g f r m)
          (sniper_filter-Convicts g f r m unknown) gone in
      rw e (
        banned_destroyed (count_dropped (ban g ip reason m.now)) f' r' m'
            (rw same (is_banned-ban laws g ip reason m.now m'.now ttl after (omega arith))),
        is_active-ban laws g ip reason m.now t m'.now distinct restart before,
      )
