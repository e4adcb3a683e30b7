-- ===== src/Mcp/Preflight.antt =====
-- What the preflight tool answers.
use x402_health_oracle.Prelude.{
  ℕ, ◌≡◌, ◌≢◌, ◌↔◌, ◌⊎◌, refl, ap, ◌∙◌, Bool, true, false, Option, none, some, arith, string_Eq,
  ◌===◌, ◌||◌,
}
use x402_health_oracle.Mcp.{
  Chain, base, Verdict, answered, failed, demo_status, thrown, null_fields, preflight_answer, pass,
  degraded, Value, bool, str, reason_text, is_true, verdict_from_chain, DemoAnswer, Fetched, Error,
  Metric, Reply, BaseReply, health, demo, health_check, latency, revert_ratio, payment, error,
  fetch_demo_safe, chain_or_base, preflight_reply, preflight_network_health,
}

is_true_iff : (v : Value) → (is_true v ≡ true) ↔ (v ≡ bool true)
is_true_iff (bool b) = ground arith
is_true_iff v = ground arith

-- What the reason has to be for DEGRADED.
abbrev pub IsElevated : Value → Type 0
IsElevated reason = (reason ≡ str "elevated_latency") ⊎ (reason ≡ str "elevated_revert")

unknown_absurd {ℓ} :
    {A : Type ℓ}
    → (string_Eq.eq "unknown" "elevated_latency" || string_Eq.eq "unknown" "elevated_revert") ≡ true
    → A
unknown_absurd h = cc

IsElevated-iff :
    (reason : Value)
    → let r = reason_text reason in
      ((r === "elevated_latency" || r === "elevated_revert") ≡ true) ↔ IsElevated reason
IsElevated-iff (str r) =
    ground
      (arith, string_Eq.eq_correct r "elevated_latency", string_Eq.eq_correct r "elevated_revert")
IsElevated-iff reason = (λ h. unknown_absurd h, ground arith)

-- PASS exactly if the oracle says `safe: true`; DEGRADED exactly if it does not and the reason is
-- one of the two elevated ones; in every case the reason is passed on, or "unknown" if it is no
-- text.
pub verdict_from_chain_iff :
    (safe reason : Value)
    → let v = verdict_from_chain safe reason in
      ((v.verdict ≡ pass) ↔ (safe ≡ bool true))
      × ((v.verdict ≡ degraded) ↔ ((safe ≢ bool true) × IsElevated reason))
      × (v.reason ≡ reason_text reason)
unfolding verdict_from_chain
verdict_from_chain_iff safe reason =
    let t = is_true_iff safe in
    let e = IsElevated-iff reason in (ground arith, ground arith, ground arith)

abbrev pub base_of : Reply → Option BaseReply
base_of (health b _) = some b
base_of (payment b _ _ _) = some b
base_of (demo _) = none
base_of (error _) = none

abbrev pub asks_payment : Reply → Bool
asks_payment (payment _ _ required _) = required
asks_payment _ = false

abbrev pub is_live : Metric → Bool
is_live health_check = false
is_live latency = true
is_live revert_ratio = true

abbrev pub verdict_of : Reply → Option Verdict
verdict_of (health b _) = some b.verdict
verdict_of (payment b _ _ _) = some b.verdict
verdict_of (demo _) = none
verdict_of (error _) = none

-- The endpoint answers with a status of success, and its answer is this one.
abbrev pub Answers : Fetched → DemoAnswer → Type 0
Answers f a = (status : ℕ) × (f ≡ answered true status (some a))

-- What the endpoint did wrong, as the tool reports it.
abbrev pub Fails : Fetched → Error → Type 0
Fails (answered true status (some a)) e = ⊥
Fails (answered true status none) e = e ≡ null_fields
Fails (answered false status a) e = e ≡ demo_status status
Fails (failed message) e = e ≡ thrown message

-- What a reply says of what the endpoint did.
abbrev pub IsReplyTo : Metric → Reply → Fetched → Type 0
IsReplyTo metric reply found =
    ((verdict_of reply ≡ some pass) ↔ ((a : DemoAnswer) × Answers found a × (a.safe ≡ bool true)))
    × ((verdict_of reply ≡ some degraded)
        ↔ ((a : DemoAnswer) × Answers found a × (a.safe ≢ bool true) × IsElevated a.reason))
    × ((asks_payment reply ≡ true) ↔ ((a : DemoAnswer) × Answers found a × (metric ≢ health_check)))
    × ((e : Error) → (reply ≡ error e) ↔ Fails found e)

preflight_reply_verdict :
    (c : Chain) (metric : Metric) (a : DemoAnswer)
    → let reply = preflight_reply c metric a in
      (verdict_of reply ≡ some (verdict_from_chain a.safe a.reason).verdict)
      × ((asks_payment reply ≡ true) ↔ (metric ≢ health_check))
      × ((e : Error) → reply ≢ error e)
unfolding preflight_reply
preflight_reply_verdict c health_check a = (refl, ground arith, λ e h. cc)
preflight_reply_verdict c latency a = (refl, ground arith, λ e h. cc)
preflight_reply_verdict c revert_ratio a = (refl, ground arith, λ e h. cc)

same_answer :
    (status status' : ℕ) (a b : DemoAnswer)
    → answered true status (some a) ≡ answered true status' (some b)
    → a ≡ b
same_answer status status' a b e = cc

IsReplyTo-found :
    (fetch : Chain → Fetched) (c : Chain) (metric : Metric) (found : Fetched)
    → fetch c ≡ found
    → IsReplyTo metric (preflight_network_health fetch (some c) metric) found
unfolding preflight_network_health fetch_demo_safe preflight_answer
IsReplyTo-found fetch c metric (failed message) h =
    rw (h, preflight_network_health)
      (
        (λ k. cc, λ (b, (st, e), rest). cc),
        (λ k. cc, λ (b, (st, e), unsafe, elevated). cc),
        (λ k. cc, λ (b, (st, e), rest). cc),
        λ e. (λ k. cc, λ k. cc),
      )
IsReplyTo-found fetch c metric (answered false status a) h =
    rw (h, preflight_network_health)
      (
        (λ k. cc, λ (b, (st, e), rest). cc),
        (λ k. cc, λ (b, (st, e), unsafe, elevated). cc),
        (λ k. cc, λ (b, (st, e), rest). cc),
        λ e. (λ k. cc, λ k. cc),
      )
IsReplyTo-found fetch c metric (answered true status none) h =
    rw (h, preflight_network_health)
      (
        (λ k. cc, λ (b, (st, e), rest). cc),
        (λ k. cc, λ (b, (st, e), unsafe, elevated). cc),
        (λ k. cc, λ (b, (st, e), rest). cc),
        λ e. (λ k. cc, λ k. cc),
      )
IsReplyTo-found fetch c metric (answered true status (some a)) h =
    let v = verdict_from_chain_iff a.safe a.reason in
    let (verdict, pays, no_error) = preflight_reply_verdict c metric a in
    rw (h, preflight_network_health)
      (
        (
          λ k. (a, (status, refl), v.0.0 cc),
          λ (b, (st, e), safe).
              let same = same_answer status st a b e in
              verdict ∙ ap some (v.0.1 (ap (λ (x : DemoAnswer). x.safe) same ∙ safe)),
        ),
        (
          λ k. let (unsafe, elevated) = v.1.0 cc in (a, (status, refl), unsafe, elevated),
          λ (b, (st, e), unsafe, elevated).
              let same = same_answer status st a b e in
              verdict ∙ ap some (v.1.1 (rw same (unsafe, elevated))),
        ),
        (λ k. (a, (status, refl), pays.0 k), λ (b, (st, e), live). pays.1 live),
        λ e. (λ k. absurd (no_error e k), λ k. absurd k),
      )

-- The preflight tool, asked about a chain or else about Base, says PASS exactly if the endpoint
-- of that chain answers with success and safe: true, and DEGRADED exactly if it answers with
-- success, with another safe and one of the two elevated reasons. It asks for a payment exactly
-- if the endpoint answers with success and the metric is another than health_check. It returns
-- an error exactly if the endpoint failed, by its status, by an exception or with null for a
-- body, and then that error. Each answer with success above has an object for a body.
pub preflight_network_health_lem :
    (fetch : Chain → Fetched) (chain : Option Chain) (metric : Metric)
    → IsReplyTo metric (preflight_network_health fetch chain metric) (fetch (chain_or_base chain))
unfolding preflight_network_health
preflight_network_health_lem fetch none metric = IsReplyTo-found fetch base metric (fetch base) refl
preflight_network_health_lem fetch (some c) metric = IsReplyTo-found fetch c metric (fetch c) refl
