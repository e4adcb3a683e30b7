-- ===== src/Automation.antt =====
-- gateway/src/services/automationDetector.ts. A missing optional field is `none`.
pub mod Reasons
use x402_health_oracle.Prelude.{
  ℕ, Bool, true, false, ◌&&◌, not, Option, none, some, List, [], ◌∷◌, ◌++◌, String, if◌then◌else◌,
  ◌==◌,
}

pub record AutomationFingerprint : Type 0 where
  pub webdriver : Option Bool
  pub has_chromedriver_cdc : Option Bool
  pub has_phantom_artifact : Option Bool
  pub has_nightmare_artifact : Option Bool
  pub plugins_length : Option ℕ
  pub languages_empty : Option Bool

pub record AutomationVerdict : Type 0 where
  pub detected : Bool
  pub reasons : List String

abbrev pub is_true : Option Bool → Bool
is_true none = false
is_true (some b) = b

-- `n === 0`
abbrev pub is_zero : Option ℕ → Bool
is_zero none = false
is_zero (some n) = n == 0

-- `if (test) reasons.push(reason)`
abbrev pub push_if : Bool → String → List String → List String
push_if test reason reasons = if test then reasons ++ reason ∷ [] else reasons

abbrev pub is_empty {ℓ} : {A : Type ℓ} → List A → Bool
is_empty [] = true
is_empty (_ ∷ _) = false

abbrev pub headless : AutomationFingerprint → Bool
headless fp = is_zero fp.plugins_length && is_true fp.languages_empty

unfoldable pub detect_automation : AutomationFingerprint → AutomationVerdict
detect_automation fp =
    let a = push_if (is_true fp.webdriver) "navigator.webdriver=true" [] in
    let b = push_if (is_true fp.has_chromedriver_cdc) "chromedriver $cdc_ artifact" a in
    let c = push_if (is_true fp.has_phantom_artifact) "phantomjs artifact" b in
    let d = push_if (is_true fp.has_nightmare_artifact) "nightmare.js artifact" c in
    let e = push_if (headless fp) "headless combo: 0 plugins + empty languages" d in
    record { detected = not (is_empty e); reasons = e }
