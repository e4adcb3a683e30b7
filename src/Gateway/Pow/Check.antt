-- ===== src/Gateway/Pow/Check.antt =====
-- `/api/verify-pow` of gateway/server.ts: the body of a request, what its reply can be, the guards
-- before Argon2id, and the costs that a success sets. The hash and the graphics processor are `none`
-- where the body has no text. The guards test a claimed time that is a number; the costs that a success
-- sets take any value as a number.
use x402_health_oracle.Prelude.{
  ℕ, ◌+◌, Bool, false, ◌&&◌, ◌||◌, not, Option, none, some, List, [], ◌∷◌, ◌++◌, ◌==◌,
  if◌then◌else◌, String, Text, codes, includes, text_Eq, length, take,
}
use x402_health_oracle.Prelude.Int.{ℤ, pos, negsuc, sub_ℕ}
use x402_health_oracle.Encoding.Decimal.{to_decimal}
use x402_health_oracle.Encoding.Hex.{is_hex}
use x402_health_oracle.Double.{Double, ◌⊗◌, ◌⊘◌, ◌⊏◌, num, neg, min, max}
use x402_health_oracle.Automation.{AutomationFingerprint, detect_automation}
use x402_health_oracle.Bans.Profiles.{ProfileRecord}
use x402_health_oracle.Gateway.Pow.{
  Challenge, CalcTime, number, compared_as, ArgonProfile, ArgonRules, fresh_profile,
}

-- The body of `/api/verify-pow`, and the user agent of its request.
pub record PowRequest (W : Type 0) : Type 0 where
  pub hash : Option Text
  pub calc_time : CalcTime W
  pub m_cost : W
  pub gpu : Option Text
  pub automation : AutomationFingerprint
  pub ua : Text

pub data PowReply (W : Type 0) : Type 0 where
  no_challenge : PowReply W
  -- the socket is destroyed
  killed : PowReply W
  invalid_structure : PowReply W
  hash_invalid : PowReply W
  verify_error : PowReply W
  verified : W → PowReply W

-- An Apple computer without an Apple graphics processor, where one is named.
unfoldable pub gpu_mismatch : Option Text → Text → Bool
gpu_mismatch none ua = false
gpu_mismatch (some []) ua = false
gpu_mismatch (some (x ∷ gpu)) ua =
    let s = x ∷ gpu in
    includes ua (codes "Macintosh")
    && (not (includes s (codes "Apple") || includes s (codes "Metal"))
        && (not (includes s (codes "unknown")) && not (includes s (codes "error"))))

abbrev pub text_or_blank : Option Text → Text
text_or_blank none = []
text_or_blank (some s) = s

-- `reasons.join(', ')`
abbrev join_reasons : List String → Text
join_reasons [] = []
join_reasons (s ∷ []) = codes s
join_reasons (s ∷ t ∷ rest) = codes s ++ (codes ", " ++ join_reasons (t ∷ rest))

-- `/^[0-9a-f]{64}$/i.test(hash)`, for a hash that is a text
abbrev pub is_pow_hash : Option Text → Bool
is_pow_hash none = false
is_pow_hash (some hash) = length hash == 64 && is_hex hash

abbrev pub print_int : ℤ → Text
print_int (pos n) = to_decimal n
print_int (negsuc n) = b'-' ∷ to_decimal (n + 1)

abbrev pub forgery : Text
forgery = codes "PoW hash forgery — submitted hash != argon2id(target)"

abbrev pub pow_salt : Text
pow_salt = codes "quantum_salt_3.2"

unfoldable pub gpu_reason : Option Text → Text
gpu_reason gpu = codes "GPU/UA mismatch: " ++ take 50 (text_or_blank gpu)

unfoldable pub automation_reason : List String → Text
automation_reason reasons = codes "Automation detected: " ++ join_reasons reasons

module _ {W : Type 0} ⦃d : Double W⦄ where
  -- `typeof calcTime === 'number' && calcTime < bound`
  abbrev pub is_below : CalcTime W → W → Bool
  is_below (compared_as _) bound = false
  is_below (number x) bound = x ⊏ bound

  abbrev pub is_above : CalcTime W → W → Bool
  is_above (compared_as _) bound = false
  is_above (number x) bound = bound ⊏ x

  abbrev pub print_claimed : CalcTime W → (W → Text) → Text
  print_claimed (compared_as _) f = []
  print_claimed (number x) f = f x

  -- `(m_cost / 1024) * 0.8`
  unfoldable pub least_time : W → W
  least_time m_cost = m_cost ⊘ num 1024 ⊗ d.ratio 8 10

  abbrev pub whole : ℤ → W
  whole (pos n) = num n
  whole (negsuc n) = neg (num (n + 1))

  unfoldable pub asic_reason : CalcTime W → W → Text
  asic_reason claimed t_min =
      codes "ASIC spoof T_calc="
      ++ (print_claimed claimed (d.to_fixed 1) ++ (codes " < T_min=" ++ d.to_fixed 1 t_min))

  unfoldable pub slow_reason : CalcTime W → ℤ → Text
  slow_reason claimed total =
      codes "Slow-time attack T_claimed="
      ++ (print_claimed claimed d.print ++ (codes " > T_wall=" ++ print_int total))

  -- The first of the four guards that the request fails, by the reason of its ban.
  unfoldable pub rejection : Challenge W → PowRequest W → ℕ → Option Text
  unfolding gpu_mismatch least_time
  rejection challenge body now =
      let automation = detect_automation body.automation in
      let t_min = least_time body.m_cost in
      if gpu_mismatch body.gpu body.ua
      then some (gpu_reason body.gpu)
      else if automation.detected
      then some (automation_reason automation.reasons)
      else if is_below body.calc_time t_min
      then some (asic_reason body.calc_time t_min)
      else if is_above body.calc_time (whole (sub_ℕ (now + 70) challenge.start_time))
      then some (slow_reason body.calc_time (sub_ℕ now challenge.start_time))
      else none

  -- `persisted?.m_cost ?? liveRules.argon2.memory`, and so on
  unfoldable pub known_profile : Option (ProfileRecord W) → ArgonRules W → ArgonProfile W
  known_profile none rules = fresh_profile rules
  known_profile (some p) rules = record {
    m_cost = p.m_cost;
    t_cost = p.t_cost;
    successes = p.successes;
  }

  -- What a comparison makes of the field.
  abbrev pub as_number : CalcTime W → W
  as_number (number x) = x
  as_number (compared_as x) = x

  -- Fast work doubles the memory, slow work takes a third of it off.
  unfoldable pub next_cost : CalcTime W → W → W
  next_cost claimed m_cost =
      if as_number claimed ⊏ num 150
      then min (m_cost ⊗ num 2) (num 131072)
      else if num 600 ⊏ as_number claimed
      then max (m_cost ⊘ d.ratio 15 10) (num 8192)
      else m_cost

  unfoldable pub credited : ArgonProfile W → CalcTime W → ArgonProfile W
  unfolding next_cost
  credited p claimed = record p { successes = p.successes + 1; m_cost = next_cost claimed p.m_cost }
