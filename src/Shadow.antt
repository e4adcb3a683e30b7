-- ===== src/Shadow.antt =====
-- gateway/src/middleware/shadowFilter.ts. A record is shared by the map and by the callbacks that
-- classify in the background, so records live on a heap and the map holds their places. A request
-- and each classification are separate steps: between them anything else may happen.
pub mod Steps
pub mod Heap
pub mod Invariant
mod Tests
use x402_health_oracle.Prelude.{
  ℕ, zero, suc, ◌+◌, Bool, true, false, ◌&&◌, ◌||◌, not, Option, none, some, List, [], ◌∷◌, ◌++◌,
  leb, ltb, if◌then◌else◌, String, string_Eq, Text, codes, starts_with, any, length, get_elem?,
}
use x402_health_oracle.Prelude.Dict.{Dict, get, put}
use x402_health_oracle.Double.{Double, ◌⊘◌, ◌⊏◌, num}
use x402_health_oracle.Classifier.{
  AgentClass, human, legit_agent, malicious_bot, ClassificationInput, ClassificationResult,
  classify_agent,
}

pub record ShadowRecord : Type 0 where
  pub requests : ℕ
  pub bot_hits : ℕ
  pub last_class : AgentClass
  pub last_seen : ℕ
  pub throttled : Bool

pub record ShadowState : Type 0 where
  pub heap : List ShadowRecord
  -- address → place on the heap
  pub records : Dict String ℕ
  -- the callbacks that have not run, each with the record that it holds
  pub pending : List ℕ

pub record ShadowFilterStats : Type 0 where
  pub tracked_ips : ℕ
  pub throttled_ips : ℕ
  pub total_requests : ℕ
  pub bot_hits : ℕ

pub data Response : Type 0 where
  next shadow_throttled : Response

abbrev pub throttle_after : ℕ
throttle_after = 5

abbrev pub window_ms : ℕ
window_ms = 60000

abbrev pub shadow_exempt : List String
shadow_exempt =
    "/metrics" ∷ "/api/admin/" ∷ "/api/silicon-metrics" ∷ "/api/phoenix-status" ∷ "/api/health"
    ∷ "/api/public-feed" ∷ "/api/check-ip" ∷ "/api/agent/interact" ∷ []

unfoldable pub is_shadow_exempt : Text → Bool
is_shadow_exempt path = any (λ p. starts_with path (codes p)) shadow_exempt

-- A change of the object at a place.
abbrev pub modify : ℕ → (ShadowRecord → ShadowRecord) → List ShadowRecord → List ShadowRecord
modify i f [] = []
modify zero f (r ∷ rs) = f r ∷ rs
modify (suc i) f (r ∷ rs) = r ∷ modify i f rs

abbrev pub fresh_record : ℕ → ShadowRecord
fresh_record now = record {
  requests = 0;
  bot_hits = 0;
  last_class = human;
  last_seen = now;
  throttled = false;
}

-- The place of the address's record, if it is of the last minute.
abbrev pub current : ℕ → List ShadowRecord → Option ℕ → Option ℕ
current now heap none = none
current now heap (some i) = elim (get_elem? heap i) [
  | none ↦ none
  | some r ↦ if ltb (r.last_seen + window_ms) now then none else some i
]

-- `shadowRecords.get(ip)`, or a new record that is stored there.
unfoldable pub find_record : ShadowState → String → ℕ → ShadowState × ℕ
find_record s ip now = elim (current now s.heap (get ip s.records)) [
  | some i ↦ (s, i)
  | none ↦ (
    record s { heap = s.heap ++ fresh_record now ∷ []; records = put ip (length s.heap) s.records },
    length s.heap,
  )
]

abbrev pub count_request : ℕ → ShadowRecord → ShadowRecord
count_request now r = record r { requests = r.requests + 1; last_seen = now }

abbrev pub is_throttled : Option ShadowRecord → Bool
is_throttled none = false
is_throttled (some r) = r.throttled

-- From the record on: count, and throttle or hand on and leave a callback behind.
unfoldable pub admit : ShadowState → ℕ → ℕ → ShadowState × Response
admit s i now =
    let heap = modify i (count_request now) s.heap in
    if is_throttled (get_elem? heap i)
    then (record s { heap = heap }, shadow_throttled)
    else (record s { heap = heap; pending = i ∷ s.pending }, next)

-- The middleware.
unfoldable pub handle : ShadowState → Text → String → ℕ → ShadowState × Response
handle s path ip now =
    let (found, i) = find_record s ip now in
    if is_shadow_exempt path then (s, next) else admit found i now

-- `rec.botHits++; if (rec.botHits >= THROTTLE_AFTER) rec.throttled = true`
abbrev pub bot_hit : ShadowRecord → ShadowRecord
bot_hit r = record r {
  bot_hits = r.bot_hits + 1;
  throttled = r.throttled || leb throttle_after (r.bot_hits + 1);
}

-- The k-th callback that waits, and the others.
abbrev pub take_out : ℕ → List ℕ → Option (ℕ × List ℕ)
take_out k [] = none
take_out zero (i ∷ rest) = some (i, rest)
take_out (suc k) (i ∷ rest) = elim (take_out k rest) [
  | none ↦ none
  | some (j, others) ↦ some (j, i ∷ others)
]

-- `agentClass === 'MALICIOUS_BOT' && confidence > 0.6`
unfoldable pub is_bot_hit {ℓ} : (W : Type ℓ) ⦃d : Double W⦄ → ClassificationResult → Bool
is_bot_hit W ⦃d⦄ r = elim r.agent_class [
  | malicious_bot ↦ d.ratio 6 10 ⊏ num r.winner ⊘ num r.total
  | legit_agent ↦ false
  | human ↦ false
]

abbrev pub note_class : AgentClass → ShadowRecord → ShadowRecord
note_class c r = record r { last_class = c }

module _ {ℓ} {W : Type ℓ} ⦃d : Double W⦄ where
  -- What a callback does with its record, for the context that it reads when it runs.
  unfoldable pub judge : ClassificationInput W → ShadowRecord → ShadowRecord
  judge input r =
      let result = classify_agent input in
      let noted = note_class result.agent_class r in
      if is_bot_hit W result then bot_hit noted else noted

  -- One waiting callback runs.
  unfoldable pub run_callback : ShadowState → ℕ → ClassificationInput W → ShadowState
  run_callback s k input = elim (take_out k s.pending) [
    | none ↦ s
    | some (i, rest) ↦ record s { heap = modify i (judge input) s.heap; pending = rest }
  ]

unfoldable pub clear_shadow_records : ShadowState → ShadowState
clear_shadow_records s = record s { records = [] }

unfoldable pub add_stats : List ShadowRecord → Dict String ℕ → ShadowFilterStats → ShadowFilterStats
add_stats heap [] t = t
add_stats heap ((_, i) ∷ m) t = elim (get_elem? heap i) [
  | none ↦ add_stats heap m t
  | some r ↦ add_stats heap m (record t {
    total_requests = t.total_requests + r.requests;
    bot_hits = t.bot_hits + r.bot_hits;
    throttled_ips = if r.throttled then t.throttled_ips + 1 else t.throttled_ips;
  })
]

unfoldable pub get_shadow_stats : ShadowState → ShadowFilterStats
unfolding add_stats
get_shadow_stats s =
    add_stats s.heap s.records (record {
      tracked_ips = length s.records;
      throttled_ips = 0;
      total_requests = 0;
      bot_hits = 0;
    })
