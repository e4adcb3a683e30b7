-- ===== src/Classifier.antt =====
-- gateway/src/services/agentClassifier.ts. The measured numbers are doubles; the scores are whole
-- numbers. `frankensteinScore` is the whole number of points that the server counts.
pub mod Winner
mod Tests
use x402_health_oracle.Prelude.{
  ℕ, ◌+◌, ◌/◌, Bool, true, false, ◌&&◌, List, [], ◌∷◌, ◌++◌, ◌==◌, leb, ltb, if◌then◌else◌, Text,
  codes, includes, to_lower, any, String,
}
use x402_health_oracle.Double.{Double, ◌⊏◌, ◌⊑◌, num}

pub data AgentClass : Type 0 where
  human legit_agent malicious_bot : AgentClass

-- A signal is its text; `frankenstein` is followed by the score.
pub data Signal : Type 0 where
  plain : String → Signal
  frankenstein : ℕ → Signal

pub record ClassificationInput {ℓ} (W : Type ℓ) : Type ℓ where
  pub ua : Text
  pub spearman_rho : W
  pub variance : W
  pub entropy : W
  pub frankenstein_score : ℕ
  pub has_pow : Bool

-- The confidence is the winner's score over the total.
pub record ClassificationResult : Type 0 where
  pub agent_class : AgentClass
  pub winner : ℕ
  pub total : ℕ
  pub signals : List Signal

-- The three scores and the signals so far.
pub record Scores : Type 0 where
  pub h : ℕ
  pub a : ℕ
  pub b : ℕ
  pub signals : List Signal

abbrev pub known_agent_ua : List String
known_agent_ua =
    "anthropic" ∷ "claude" ∷ "openai" ∷ "gpt" ∷ "gemini" ∷ "cohere" ∷ "perplexity" ∷ "langchain"
    ∷ "autogpt" ∷ "python-httpx" ∷ "python-requests" ∷ "axios" ∷ "got/" ∷ "node-fetch" ∷ "undici"
    ∷ "agentic" ∷ []

abbrev pub malicious_bot_ua : List String
malicious_bot_ua =
    "puppeteer" ∷ "selenium" ∷ "phantomjs" ∷ "headless" ∷ "playwright" ∷ "webdriver" ∷ "scrapy"
    ∷ "masscan" ∷ []

-- `patterns.some(p => p.test(ua))`: each pattern is a literal, without regard to case.
unfoldable pub matches_any : List String → Text → Bool
matches_any patterns ua = any (λ p. includes (to_lower ua) (codes p)) patterns

abbrev pub note : Signal → Scores → Scores
note signal s = record s { signals = s.signals ++ signal ∷ [] }

abbrev pub to_human : ℕ → String → Scores → Scores
to_human n signal s = note (plain signal) (record s { h = s.h + n })

abbrev pub to_agent : ℕ → String → Scores → Scores
to_agent n signal s = note (plain signal) (record s { a = s.a + n })

abbrev pub to_bot : ℕ → String → Scores → Scores
to_bot n signal s = note (plain signal) (record s { b = s.b + n })

module _ {ℓ} {W : Type ℓ} ⦃d : Double W⦄ where
  unfoldable pub score_rho : W → Scores → Scores
  score_rho rho s =
      if d.ratio 6 10 ⊏ rho
      then to_human 30 "rho:high→human" s
      else if d.ratio 3 10 ⊑ rho
      then to_agent 15 "rho:mid→agent" s
      else to_bot 25 "rho:low→bot" s

  unfoldable pub score_variance : W → Scores → Scores
  score_variance variance s =
      if num 2 ⊑ variance && (variance ⊏ num 10)
      then to_human 20 "variance:natural→human" s
      else if variance ⊏ d.ratio 5 10
      then to_bot 30 "variance:zero→bot" s
      else if variance ⊏ num 2
      then to_agent 20 "variance:low_nonzero→agent" s
      else to_bot 15 "variance:chaotic→bot" s

  unfoldable pub score_entropy : W → Scores → Scores
  score_entropy entropy s =
      if d.ratio 25 10 ⊏ entropy
      then to_human 15 "entropy:high→human" s
      else if num 1 ⊏ entropy
      then to_agent 10 "entropy:medium→agent" s
      else to_bot 10 "entropy:low→bot" s

unfoldable pub score_ua : Text → Scores → Scores
score_ua ua s =
    if matches_any malicious_bot_ua ua
    then to_bot 40 "ua:known_malicious" s
    else if matches_any known_agent_ua ua
    then to_agent 35 "ua:known_agent" s
    else if includes ua (codes "Mozilla")
    then to_human 15 "ua:browser" s
    else s

unfoldable pub score_frankenstein : ℕ → Scores → Scores
score_frankenstein score s =
    if score == 0
    then to_human 10 "frankenstein:clean" s
    else if leb 100 score
    then to_bot 30 "frankenstein:puppet" s
    else note (frankenstein score) (record s { b = s.b + score / 10 })

unfoldable pub score_pow : Bool → Scores → Scores
score_pow has_pow s =
    if has_pow then note (plain "pow:verified") (record s { h = s.h + 10; a = s.a + 10 }) else s

-- `h + a + b || 1`
abbrev pub total_of : Scores → ℕ
total_of s = if s.h + s.a + s.b == 0 then 1 else s.h + s.a + s.b

unfoldable pub pick_class : Scores → ClassificationResult
pick_class s =
    if ltb s.h s.b && ltb s.a s.b
    then record {
      agent_class = malicious_bot;
      winner = s.b;
      total = total_of s;
      signals = s.signals;
    }
    else if ltb s.h s.a
    then record { agent_class = legit_agent; winner = s.a; total = total_of s; signals = s.signals }
    else record { agent_class = human; winner = s.h; total = total_of s; signals = s.signals }

abbrev pub no_scores : Scores
no_scores = record { h = 0; a = 0; b = 0; signals = [] }

module _ {ℓ} {W : Type ℓ} ⦃d : Double W⦄ where
  unfoldable pub scores_of : ClassificationInput W → Scores
  scores_of input = score_pow input.has_pow (
      score_frankenstein input.frankenstein_score (
        score_ua input.ua (
          score_entropy input.entropy
            (score_variance input.variance (score_rho input.spearman_rho no_scores)))))

  unfoldable pub classify_agent : ClassificationInput W → ClassificationResult
  classify_agent input = pick_class (scores_of input)
