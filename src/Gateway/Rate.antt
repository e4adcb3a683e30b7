-- ===== src/Gateway/Rate.antt =====
-- The limiter of the free endpoints of gateway/server.ts. `set` starts the minute of a counter anew
-- with every call, also with a refused one.
use x402_health_oracle.Prelude.{
  ℕ, ◌+◌, ◌-◌, ◌≤◌, ◌≡◌, ◌∙◌, ap, Bool, true, Option, none, some, List, [], ◌∷◌, Text, arith, leb,
  length,
}
use x402_health_oracle.Gateway.Cache.{Cache, IsCache}

abbrev pub free_rate_limit : ℕ
free_rate_limit = 30

pub record Allowance : Type 0 where
  pub allowed : Bool
  pub remaining : ℕ

abbrev pub or_zero : Option ℕ → ℕ
or_zero none = 0
or_zero (some n) = n

module _ (c : Cache) where
  unfoldable pub check_free_rate_limit : c.Store ℕ → Text → ℕ → c.Store ℕ × Allowance
  check_free_rate_limit s ip now =
      let count = or_zero (c.get s ip now) + 1 in
      (
        c.set (c.touch s ip now) ip count now,
        record { allowed = leb count free_rate_limit; remaining = free_rate_limit - count },
      )

  -- The verdict on the last of a series of calls of one address.
  abbrev pub last_verdict : c.Store ℕ → Text → List ℕ → Bool → Bool
  last_verdict s ip [] allowed = allowed
  last_verdict s ip (t ∷ times) allowed =
      let (s', verdict) = check_free_rate_limit s ip t in last_verdict s' ip times verdict.allowed

-- No call comes later than the time to live after the one before it.
abbrev pub IsPaced : ℕ → ℕ → List ℕ → Type 0
IsPaced ttl before [] = Unit
IsPaced ttl before (t ∷ times) = (before ≤ t) × (t ≤ before + ttl) × IsPaced ttl t times

module _ {c : Cache} (laws : IsCache c) where
  check_counts :
      (s : c.Store ℕ) (ip : Text) (t u : ℕ)
      → t ≤ u
      → u ≤ t + c.ttl s
      → c.get (check_free_rate_limit c s ip t).0 ip u ≡ some (or_zero (c.get s ip t) + 1)
  unfolding check_free_rate_limit
  check_counts s ip t u h h' =
      laws.get-set_self (c.touch s ip t) ip (or_zero (c.get s ip t) + 1) t u h
        (omega (arith, laws.ttl-set s ip 0 t, laws.ttl-touch s ip t))

  check_ttl :
      (s : c.Store ℕ) (ip : Text) (t : ℕ) → c.ttl (check_free_rate_limit c s ip t).0 ≡ c.ttl s
  unfolding check_free_rate_limit
  check_ttl s ip t =
      laws.ttl-set (c.touch s ip t) ip (or_zero (c.get s ip t) + 1) t ∙ laws.ttl-touch s ip t

  check_allowed :
      (s : c.Store ℕ) (ip : Text) (k t : ℕ)
      → or_zero (c.get s ip t) ≡ k
      → (check_free_rate_limit c s ip t).1.allowed ≡ leb (k + 1) 30
  unfolding check_free_rate_limit
  check_allowed s ip k t e = rw e

  paced_verdict :
      (s : c.Store ℕ) (ip : Text) (k t : ℕ) (times : List ℕ) (allowed : Bool)
      → or_zero (c.get s ip t) ≡ k
      → IsPaced (c.ttl s) t times
      → last_verdict c s ip (t ∷ times) allowed ≡ leb (k + length (t ∷ times)) 30
  paced_verdict s ip k t [] allowed e paced = check_allowed s ip k t e ∙ ground arith
  paced_verdict s ip k t (u ∷ times) allowed e (h, h', paced) =
      let (s', verdict) = check_free_rate_limit c s ip t in
      let counted : or_zero (c.get s' ip u) ≡ k + 1 =
        ap or_zero (check_counts s ip t u h h') ∙ ap (λ (n : ℕ). n + 1) e in
      let next =
        paced_verdict s' ip (k + 1) u times verdict.allowed counted (rw (check_ttl s ip t) paced) in
      ground (arith, next)

  -- The window slides: of a series of calls of an address that was not counted, none of them
  -- later than the time to live of the counters after the one before it, the last one is
  -- allowed exactly if it is among the first thirty, however long the series takes. It takes
  -- the laws of the caches.
  pub free_rate_slides :
      (s : c.Store ℕ) (ip : Text) (t : ℕ) (times : List ℕ)
      → c.get s ip t ≡ none
      → IsPaced (c.ttl s) t times
      → last_verdict c s ip (t ∷ times) true ≡ leb (length (t ∷ times)) 30
  free_rate_slides s ip t times e paced =
      paced_verdict s ip 0 t times true (rw e) paced ∙ ground arith
