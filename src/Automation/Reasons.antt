-- ===== src/Automation/Reasons.antt =====
-- The verdict of the automation detector against its five artifacts.
use x402_health_oracle.Prelude.{
  ℕ, ◌+◌, ◌<◌, ◌≡◌, ◌↔◌, Bool, true, false, not, List, [], ◌∷◌, arith, length, length-append,
  String,
}
use x402_health_oracle.Automation.{
  AutomationFingerprint, is_true, headless, push_if, is_empty, detect_automation,
}

abbrev pub one_if : Bool → ℕ
one_if true = 1
one_if false = 0

length-push_if :
    (b : Bool) (r : String) (l : List String) → length (push_if b r l) ≡ length l + one_if b
length-push_if true r l = omega (arith, length-append l (r ∷ []))
length-push_if false r l = omega arith

not-is_empty : (l : List String) → (not (is_empty l) ≡ true) ↔ (0 < length l)
not-is_empty [] = ground arith
not-is_empty (r ∷ l) = ground arith

-- The number of artifacts that a fingerprint shows.
abbrev pub artifacts : AutomationFingerprint → ℕ
artifacts fp =
    one_if (is_true fp.webdriver)
    + one_if (is_true fp.has_chromedriver_cdc)
    + one_if (is_true fp.has_phantom_artifact)
    + one_if (is_true fp.has_nightmare_artifact)
    + one_if (headless fp)

-- The verdict has one reason for each artifact that the fingerprint shows, and it is "detected"
-- exactly when there is at least one; zero plugins count only with an empty language list.
pub detect_automation_reasons :
    (fp : AutomationFingerprint)
    → (length (detect_automation fp).reasons ≡ artifacts fp)
      × (((detect_automation fp).detected ≡ true) ↔ (0 < artifacts fp))
unfolding detect_automation
detect_automation_reasons fp =
    let w = is_true fp.webdriver in
    let c = is_true fp.has_chromedriver_cdc in
    let p = is_true fp.has_phantom_artifact in
    let n = is_true fp.has_nightmare_artifact in
    let r1 = push_if w "navigator.webdriver=true" [] in
    let r2 = push_if c "chromedriver $cdc_ artifact" r1 in
    let r3 = push_if p "phantomjs artifact" r2 in
    let r4 = push_if n "nightmare.js artifact" r3 in
    let r5 = push_if (headless fp) "headless combo: 0 plugins + empty languages" r4 in
    let counted : length r5 ≡ artifacts fp = omega (
      arith,
      length-push_if w "navigator.webdriver=true" [],
      length-push_if c "chromedriver $cdc_ artifact" r1,
      length-push_if p "phantomjs artifact" r2,
      length-push_if n "nightmare.js artifact" r3,
      length-push_if (headless fp) "headless combo: 0 plugins + empty languages" r4,
    ) in
    (counted, rw (← counted) (not-is_empty r5))
