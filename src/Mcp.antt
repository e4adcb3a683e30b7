-- ===== src/Mcp.antt =====
-- mcp-server/src/index.ts: the verdict of a chain and the two tools. What the demo endpoint answers
-- is a parameter; a value of a dynamic type is one of `Value`. A reply of a tool is its fields.
pub mod Preflight
mod Tests
use x402_health_oracle.Prelude.{
  ℕ, Bool, true, false, ◌||◌, ◌⊎◌, inl, inr, Option, none, some, if◌then◌else◌, String, string_Eq,
  ◌===◌,
}

pub data Chain : Type 0 where
  base arbitrum optimism zksync scroll mantle linea blast mode taiko polygon_zkevm casper : Chain

pub data Verdict : Type 0 where
  pass degraded fail : Verdict

-- What a field of the endpoint's JSON answer can be, as far as the code looks.
pub data Value : Type 0 where
  undefined null other : Value
  bool : Bool → Value
  str : String → Value
  number : ℕ → Value

pub record ChainVerdict : Type 0 where
  pub verdict : Verdict
  pub reason : String

abbrev pub reason_text : Value → String
reason_text (str r) = r
reason_text _ = "unknown"

abbrev pub is_true : Value → Bool
is_true (bool b) = b
is_true _ = false

unfoldable pub verdict_from_chain : Value → Value → ChainVerdict
verdict_from_chain safe reason =
    let r = reason_text reason in
    if is_true safe
    then record { verdict = pass; reason = r }
    else if r === "elevated_latency" || r === "elevated_revert"
    then record { verdict = degraded; reason = r }
    else record { verdict = fail; reason = r }

pub record DemoAnswer : Type 0 where
  pub safe : Value
  pub reason : Value
  pub delayed_s : Value
  pub as_of : Value

-- What `fetch` gives: an answer with its status, `none` for a body that is null, or an exception with
-- its message.
pub data Fetched : Type 0 where
  answered : (status_ok : Bool) → (status : ℕ) → Option DemoAnswer → Fetched
  failed : String → Fetched

pub data Error : Type 0 where
  demo_status : ℕ → Error
  thrown : String → Error
  -- the exception of reading a field of null
  null_fields : Error

pub data Metric : Type 0 where
  health_check latency revert_ratio : Metric

pub data Endpoint : Type 0 where
  chains_endpoint safe_endpoint : Chain → Endpoint

pub record BaseReply : Type 0 where
  pub chain : Chain
  pub verdict : Verdict
  pub reason : String
  pub delayed_s : Value
  pub as_of : Value

-- The text that a tool returns, or an error with `isError`.
pub data Reply : Type 0 where
  demo : Option DemoAnswer → Reply
  health : BaseReply → (live_verdict : Endpoint) → Reply
  payment : BaseReply → Metric → (requires_payment : Bool) → Endpoint → Reply
  error : Error → Reply

unfoldable pub fetch_demo_safe : (Chain → Fetched) → Chain → Error ⊎ Option DemoAnswer
fetch_demo_safe fetch chain = elim (fetch chain) [
  | failed message ↦ inl (thrown message)
  | answered ok status answer ↦ if ok then inr answer else inl (demo_status status)
]

-- `chain ?? "base"`
abbrev pub chain_or_base : Option Chain → Chain
chain_or_base none = base
chain_or_base (some c) = c

-- `x ?? null`
abbrev pub or_null : Value → Value
or_null undefined = null
or_null v = v

unfoldable pub check_safety_free : (Chain → Fetched) → Option Chain → Reply
check_safety_free fetch chain = elim (fetch_demo_safe fetch (chain_or_base chain)) [
  | inl e ↦ error e
  | inr answer ↦ demo answer
]

unfoldable pub preflight_reply : Chain → Metric → DemoAnswer → Reply
unfolding verdict_from_chain
preflight_reply c metric answer =
    let v = verdict_from_chain answer.safe answer.reason in
    let base_reply : BaseReply = record {
      chain = c;
      verdict = v.verdict;
      reason = v.reason;
      delayed_s = or_null answer.delayed_s;
      as_of = or_null answer.as_of;
    } in
    elim metric [
      | health_check ↦ health base_reply (safe_endpoint c)
      | latency ↦ payment base_reply latency true (chains_endpoint c)
      | revert_ratio ↦ payment base_reply revert_ratio true (safe_endpoint c)
    ]

unfoldable pub preflight_answer : Chain → Metric → Option DemoAnswer → Reply
preflight_answer c metric none = error null_fields
preflight_answer c metric (some answer) = preflight_reply c metric answer

unfoldable pub preflight_network_health : (Chain → Fetched) → Option Chain → Metric → Reply
preflight_network_health fetch chain metric = elim (fetch_demo_safe fetch (chain_or_base chain)) [
  | inl e ↦ error e
  | inr answer ↦ preflight_answer (chain_or_base chain) metric answer
]
