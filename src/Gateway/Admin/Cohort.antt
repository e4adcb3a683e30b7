-- ===== src/Gateway/Admin/Cohort.antt =====
-- Whom a flag by hand shuts out.
use x402_health_oracle.Prelude.{◌≡◌, refl, true, List, Option, none, some, Text, text_Eq, arith}
use x402_health_oracle.Prelude.Dict.{get, is_some}
use x402_health_oracle.Crypto.{Crypto}
use x402_health_oracle.Double.{Double}
use x402_health_oracle.Sybil.{IpRecord, SybilCluster, hash_ip, flag, is_flagged, flag_of}
use x402_health_oracle.Sybil.Flags.{raised, is_reached, flag_reaches}
use x402_health_oracle.Gateway.Cache.{Cache}
use x402_health_oracle.Gateway.Guard.{Guard}
use x402_health_oracle.Gateway.Filter.{FilterState, Moment, destroyed, sniper_filter}
use x402_health_oracle.Gateway.Request.{Request, is_local, client_ip}
use x402_health_oracle.Gateway.Registry.{given}
use x402_health_oracle.Gateway.Admin.{sybil_flag}

raised-flagged :
    {W : Type 0} ⦃d : Double W⦄ (o : Option (IpRecord W))
    → is_some o ≡ true
    → flag_of (raised o) ≡ true
raised-flagged none h = cc
raised-flagged (some r) h = refl

module _ {W : Type 0} ⦃d : Double W⦄ where
  flag-flagged :
      (s : SybilCluster W) (hash h : Text)
      → is_reached s hash h ≡ true
      → is_some (get h s.records) ≡ true
      → is_flagged (flag s hash).0 h ≡ true
  unfolding is_flagged
  flag-flagged s hash h reached known =
      rw (flag_reaches s hash h, reached) (raised-flagged (get h s.records) known)

module _ {W : Type 0} ⦃d : Double W⦄ {c : Cache} (k : Crypto) where
  flagged_destroyed :
      (proxies : List Text) (g : Guard c) (f : FilterState W) (q : Request) (m : Moment W)
      → is_flagged f.sybil (hash_ip k m.day (client_ip proxies q)) ≡ true
      → (sniper_filter k proxies g f q m).2 ≡ destroyed
  unfolding sniper_filter
  flagged_destroyed proxies g f q m h = ground arith

  -- After the machine itself has flagged an address, the filter destroys every request, on the
  -- day of the flag, of that address and of each member of its cohort, if the address of the
  -- request has a record.
  pub sybil_flag_destroys :
      (proxies : List Text) (g : Guard c) (f : FilterState W) (r q : Request) (ip : Text)
      (m : Moment W)
      → is_local r ≡ true
      → given (some ip) ≡ some ip
      → is_reached f.sybil (hash_ip k m.day ip) (hash_ip k m.day (client_ip proxies q)) ≡ true
      → is_some (get (hash_ip k m.day (client_ip proxies q)) f.sybil.records) ≡ true
      → let flagged = (sybil_flag k m.day f.sybil r (some ip)).0 in
        (sniper_filter k proxies g (record f { sybil = flagged }) q m).2 ≡ destroyed
  unfolding sybil_flag
  sybil_flag_destroys proxies g f r q ip m local there reached known =
      let hash = hash_ip k m.day ip in
      flagged_destroyed proxies g (record f { sybil = (sybil_flag k m.day f.sybil r (some ip)).0 })
        q m
        (rw (local, there)
          (flag-flagged f.sybil hash (hash_ip k m.day (client_ip proxies q)) reached known))
