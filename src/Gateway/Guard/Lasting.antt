-- ===== src/Gateway/Guard/Lasting.antt =====
-- A ban holds for an hour, also across a restart.
use x402_health_oracle.Prelude.{
  ℕ, ◌+◌, ◌≤◌, ◌<◌, ◌≡◌, refl, ◌∙◌, ap, true, Text, text_Eq, eq_self, arith, lt→ltb,
}
use x402_health_oracle.Prelude.Dict.{Distinct, is_some}
use x402_health_oracle.Bans.{load_bans, load_active_bans, persist_ban, save_bans}
use x402_health_oracle.Bans.Restart.{is_active, load_bans-load_active_bans, persist_ban_active}
use x402_health_oracle.Gateway.Cache.{Cache, IsCache}
use x402_health_oracle.Gateway.Guard.{Guard, is_banned, ban, hour_ms}

module _ {c : Cache} (laws : IsCache c) where
  pub is_banned-ban :
      (g : Guard c) (ip reason : Text) (now u : ℕ)
      → c.ttl g.banned ≡ hour_ms
      → now ≤ u
      → u ≤ now + hour_ms
      → is_banned (ban g ip reason now) ip u ≡ true
  unfolding ban
  is_banned-ban g ip reason now u ttl h h' =
      ap is_some
        (laws.get-set_self g.banned ip (record { reason = reason; ts = now }) now u h (omega arith))

  -- After a restart at `t` from the file, the ban is active until the hour is over.
  pub is_active-ban :
      (g : Guard c) (ip reason : Text) (now t u : ℕ)
      → Distinct g.bans.bans
      → t ≤ u
      → u < now + hour_ms
      → is_active ip (load_active_bans (load_bans t (ban g ip reason now).bans.file) u) ≡ true
  unfolding ban persist_ban save_bans
  is_active-ban g ip reason now t u distinct h h' =
      ap (is_active ip)
        (load_bans-load_active_bans (persist_ban g.bans ip reason hour_ms now) t u refl h)
      ∙ persist_ban_active g.bans ip reason ip hour_ms now u distinct
      ∙ rw (eq_self ip) (lt→ltb _ _ h')
