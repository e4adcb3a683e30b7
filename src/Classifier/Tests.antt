-- ===== src/Classifier/Tests.antt =====
-- A headless browser with a steady rhythm.
use x402_health_oracle.Prelude.{◌+◌, ◌*◌, ◌≤◌, ◌≡◌, false, some, codes}
use x402_health_oracle.Prelude.Int.{pos}
use x402_health_oracle.Double.Fixed.{Fixed, fixed_Double}
use x402_health_oracle.Classifier.{ClassificationInput, classify_agent, scores_of}
use x402_health_oracle.Classifier.Winner.{Wins, classify_agent-Wins}

abbrev an_input : ClassificationInput Fixed
an_input = record {
  ua = codes "HeadlessChrome/120 puppeteer";
  spearman_rho = some (pos 990);
  variance = some (pos 1);
  entropy = some (pos 500);
  frankenstein_score = 100;
  has_pow = false;
}

classify_agent-Wins_example :
    let s = scores_of an_input in
    let r = classify_agent an_input in
    Wins r.agent_class s
    × (r.total ≡ s.h + s.a + s.b)
    × (40 ≤ r.total)
    × (r.winner ≤ r.total)
    × (r.total ≤ 3 * r.winner)
classify_agent-Wins_example = classify_agent-Wins an_input
