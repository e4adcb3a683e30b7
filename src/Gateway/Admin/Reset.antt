-- ===== src/Gateway/Admin/Reset.antt =====
-- What a reset frees.
use x402_health_oracle.Prelude.{ℕ, ◌<◌, ◌≡◌, refl, ap, ◌↔◌, true, false, List, [], Text, arith}
use x402_health_oracle.Prelude.Dict.{is_some}
use x402_health_oracle.Crypto.{Crypto}
use x402_health_oracle.Double.{Double}
use x402_health_oracle.Bans.{load_bans, load_active_bans, clear_bans, save_bans}
use x402_health_oracle.Sybil.{hash_ip, is_flagged, clear}
use x402_health_oracle.Gateway.Cache.{Cache, IsCache}
use x402_health_oracle.Gateway.Guard.{is_banned}
use x402_health_oracle.Gateway.Filter.{Moment, next, sniper_filter, push_time}
use x402_health_oracle.Gateway.Filter.Effects.{has_synthetic_rhythm}
use x402_health_oracle.Gateway.Filter.Admission.{sniper_filter_iff}
use x402_health_oracle.Gateway.Request.{Request, is_local, client_ip, check_consistency}
use x402_health_oracle.Gateway.Admin.{Resettable, reset_bans}

module _ {W : Type 0} ⦃d : Double W⦄ where
  first-has_synthetic_rhythm :
      (sigma2 tick : W) (r : Request) (ip : Text) → has_synthetic_rhythm [] sigma2 r ip tick ≡ false
  unfolding push_time
  first-has_synthetic_rhythm sigma2 tick r ip = refl

no_bans_after_clear : (t u : ℕ) → load_active_bans (load_bans t (save_bans []).file) u ≡ []
unfolding load_active_bans load_bans save_bans
no_bans_after_clear t u = refl

module _ {W : Type 0} ⦃d : Double W⦄ {c : Cache} (laws : IsCache c) (k : Crypto) where
  -- A reset that the machine itself asks for frees every address: none is banned, also not
  -- after a restart from the file, none is flagged, and the first request of each passes the
  -- filter exactly if it has fewer than 100 Frankenstein points. It takes the laws of the
  -- caches.
  pub reset_bans_frees :
      (proxies : List Text) (s : Resettable c W) (r q : Request) (m : Moment W) (ip : Text)
      (t u : ℕ)
      → is_local r ≡ true
      → let s' = (reset_bans s r).0 in
        (is_banned s'.guard ip u ≡ false)
        × (load_active_bans (load_bans t s'.guard.bans.file) u ≡ [])
        × (is_flagged s'.filter.sybil (hash_ip k m.day ip) ≡ false)
        × (((sniper_filter k proxies s'.guard s'.filter q m).2 ≡ next (check_consistency q))
            ↔ (check_consistency q < 100))
  unfolding reset_bans is_flagged clear clear_bans
  reset_bans_frees proxies s r q m ip t u local =
      let s' = (reset_bans s r).0 in
      let address = client_ip proxies q in
      let admits = sniper_filter_iff k proxies s'.guard s'.filter q m in
      let calm = first-has_synthetic_rhythm s.filter.sigma2 m.tick q address in
      rw local (
        ap is_some (laws.get-clear s.guard.banned ip u),
        no_bans_after_clear t u,
        refl,
        ground (arith, rw local at admits, laws.get-clear s.guard.banned address m.now, calm),
      )
