-- ===== src/Sniper/RequestLog/Intervals.antt =====
-- What `RequestLog` keeps, and the intervals that it hands to the scoring.
use x402_health_oracle.Prelude.{
  ℕ, zero, suc, ◌+◌, ◌-◌, ◌≤◌, ◌<◌, ◌≡◌, refl, ◌↔◌, inl, inr, String, false, none, some, List, [],
  ◌∷◌, ◌++◌, arith, ltb, string_Eq, length, get_or, All, Bool-cases, length-append,
}
use x402_health_oracle.Prelude.Int.{ℤ, pos, ◌≤ℤ◌}
use x402_health_oracle.Prelude.Dict.{get, get-put, get-put_self, get-remove}
use x402_health_oracle.Sniper.RequestLog.{
  RequestLog, session_gap_ms, max_samples, min_samples, stored, shift, is_stale, next_samples,
  intervals_from, record_request, reset,
}

-- Each time is at most the session gap after the one before it.
abbrev pub IsPaced : List ℕ → Type 0
IsPaced [] = Unit
IsPaced (_ ∷ []) = Unit
IsPaced (t ∷ u ∷ rest) = (u ≤ t + session_gap_ms) × IsPaced (u ∷ rest)

-- Of every address at most twenty times are kept, and they are of one session.
pub record IsValid (log : RequestLog) : Type 0 where
  pub bounded : (ip : String) → length (stored (get ip log)) ≤ max_samples
  pub paced : (ip : String) → IsPaced (stored (get ip log))

IsPaced-push : (ts : ℕ) (l : List ℕ) → IsPaced l → is_stale ts l ≡ false → IsPaced (l ++ ts ∷ [])
IsPaced-push ts [] p s = tt
IsPaced-push ts (t ∷ []) p s = ground arith
IsPaced-push ts (t ∷ u ∷ rest) (le, p) s = (le, IsPaced-push ts (u ∷ rest) p s)

IsPaced-shift : (l : List ℕ) → IsPaced l → IsPaced (shift l)
IsPaced-shift [] p = tt
IsPaced-shift (t ∷ []) p = tt
IsPaced-shift (t ∷ u ∷ rest) p = p.1

length-shift : (l : List ℕ) → length (shift l) ≡ length l - 1
length-shift [] = omega arith
length-shift (t ∷ l) = omega arith

pub next_samples-IsPaced : (ts : ℕ) (l : List ℕ) → IsPaced l → IsPaced (next_samples ts l)
unfolding next_samples
next_samples-IsPaced ts l p = elim (Bool-cases (is_stale ts l)) [
  | inl stale ↦ rw stale tt
  | inr fresh ↦ rw fresh (
      ground (
        arith,
        IsPaced-push ts l p fresh,
        IsPaced-shift (l ++ ts ∷ []) (IsPaced-push ts l p fresh),
      ))
]

pub length-next_samples :
    (ts : ℕ) (l : List ℕ)
    → length l ≤ max_samples
    → (length (next_samples ts l) ≤ max_samples) × (0 < length (next_samples ts l))
unfolding next_samples
length-next_samples ts l h = ground (arith, length-append l (ts ∷ []), length-shift (l ++ ts ∷ []))

-- Recording a request keeps at most twenty times of each address, all of one session.
pub record_request-IsValid :
    (log : RequestLog) (ip : String) (ts : ℕ) → IsValid log → IsValid (record_request log ip ts).0
unfolding record_request
record_request-IsValid log ip ts v = record {
  bounded = λ j. ground (
    arith,
    get-put ip j (next_samples ts (stored (get ip log))) log,
    length-next_samples ts (stored (get ip log)) (v.bounded ip),
    v.bounded j,
  );
  paced = λ j. ground (
    arith,
    get-put ip j (next_samples ts (stored (get ip log))) log,
    next_samples-IsPaced ts (stored (get ip log)) (v.paced ip),
    v.paced j,
  );
}

-- So does forgetting an address.
pub reset-IsValid : (log : RequestLog) (ip : String) → IsValid log → IsValid (reset log ip)
unfolding reset
reset-IsValid log ip v = record {
  bounded = λ j. ground (arith, get-remove ip j log, v.bounded j);
  paced = λ j. ground (arith, get-remove ip j log, v.paced j);
}

pub empty-IsValid : IsValid []
empty-IsValid = record { bounded = λ ip. omega arith; paced = λ ip. tt }

gap-le :
    (l : List ℕ) (i : ℕ)
    → IsPaced l
    → suc i < length l
    → get_or l (suc i) 0 ≤ get_or l i 0 + session_gap_ms
gap-le [] i p h = absurd (omega arith)
gap-le (t ∷ []) i p h = absurd (omega arith)
gap-le (t ∷ u ∷ l) zero p h = p.0
gap-le (t ∷ u ∷ l) (suc i) p h = gap-le (u ∷ l) i p.1 (omega arith)

abbrev pub IsShort : ℤ → Type 0
IsShort x = x ≤ℤ pos session_gap_ms

intervals_from-IsShort :
    (rounds i : ℕ) (l : List ℕ)
    → IsPaced l
    → 0 < i
    → i + rounds ≤ length l
    → All IsShort (intervals_from rounds i l)
unfolding intervals_from
intervals_from-IsShort zero i l p lower h = tt
intervals_from-IsShort (suc rounds) zero l p lower h = absurd (omega arith)
intervals_from-IsShort (suc rounds) (suc i) l p lower h =
    let gap = gap-le l i p (omega arith) in
    (ground arith, intervals_from-IsShort rounds (suc i + 1) l p (omega arith) (omega arith))

length-intervals_from : (rounds i : ℕ) (l : List ℕ) → length (intervals_from rounds i l) ≡ rounds
unfolding intervals_from
length-intervals_from zero i l = refl
length-intervals_from (suc rounds) i l = omega (arith, length-intervals_from rounds (i + 1) l)

-- In a log that keeps at most twenty times of each address, all of one session: where `record`
-- returns intervals there are five of them, none longer than the session gap of
-- 5000 ms: no interval spans two sessions. It returns none exactly while fewer than seven times
-- are kept.
pub record_request_intervals :
    (log : RequestLog) (ip : String) (ts : ℕ)
    → IsValid log
    → let (log', result) = record_request log ip ts in
      ((result ≡ none) ↔ (length (stored (get ip log')) < min_samples))
      × ((xs : List ℤ) → result ≡ some xs → (length xs ≡ 5) × All IsShort xs)
unfolding record_request
record_request_intervals log ip ts v =
    let l = next_samples ts (stored (get ip log)) in
    let paced = next_samples-IsPaced ts (stored (get ip log)) (v.paced ip) in
    let kept = get-put_self ip l log in
    elim (Bool-cases (ltb (length l) min_samples)) [
      | inl few ↦ rw (kept, few) (ground arith, λ xs e. cc)
      | inr many ↦
          let enough : min_samples ≤ length l = ground arith in
          rw (kept, many)
            (
              ground arith,
              λ xs e. ground (
                arith,
                length-intervals_from 5 (length l - 5) l,
                intervals_from-IsShort 5 (length l - 5) l paced (omega arith) (omega arith),
              ),
            )
    ]
