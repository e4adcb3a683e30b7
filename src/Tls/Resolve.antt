-- ===== src/Tls/Resolve.antt =====
-- `resolveTlsFp` and `tlsRisk` of gateway/src/services/tlsFingerprint.ts.
use x402_health_oracle.Prelude.{
  ℕ, Bool, true, false, ◌&&◌, ◌||◌, Option, none, some, List, [], ◌∷◌, ◌++◌, ◌==◌, leb,
  if◌then◌else◌, replicate, take, get_elem?, Text, codes, includes, to_lower, text_Eq, ◌===◌,
}
use x402_health_oracle.Double.{Double}

-- `headers['x-tls-ja4']`: absent or no text, one text, or a list of texts.
pub data HeaderValue : Type 0 where
  no_text : HeaderValue
  one_text : Text → HeaderValue
  texts : List Text → HeaderValue

-- The fingerprint; it comes from the header exactly if there is one.
abbrev pub TlsFp : Type 0
TlsFp = Option Text

-- What `trim` removes.
unfoldable pub is_space : ℕ → Bool
is_space c =
    (leb 9 c && leb c 13)
    || c == 32
    || c == 0xa0
    || c == 0x1680
    || (leb 0x2000 c && leb c 0x200a)
    || c == 0x2028
    || c == 0x2029
    || c == 0x202f
    || c == 0x205f
    || c == 0x3000
    || c == 0xfeff

unfoldable pub trim_start : Text → Text
trim_start [] = []
trim_start (c ∷ s) = if is_space c then trim_start s else c ∷ s

abbrev is_empty : Text → Bool
is_empty [] = true
is_empty (_ ∷ _) = false

unfoldable pub trim_end : Text → Text
trim_end [] = []
trim_end (c ∷ s) = let rest = trim_end s in if is_space c && is_empty rest then [] else c ∷ rest

-- The text of the header, without the white space around it. The first of no texts is "undefined".
unfoldable pub header_ja4 : HeaderValue → Text
unfolding trim_start trim_end
header_ja4 no_text = []
header_ja4 (one_text s) = trim_end (trim_start s)
header_ja4 (texts []) = codes "undefined"
header_ja4 (texts (s ∷ _)) = trim_end (trim_start s)

abbrev pub is_digit : ℕ → Bool
is_digit c = leb b'0' c && leb c b'9'

abbrev pub is_lower_hex : ℕ → Bool
is_lower_hex c = is_digit c || (leb b'a' c && leb c b'f')

abbrev pub is_alnum : ℕ → Bool
is_alnum c = (leb b'a' c && leb c b'z') || is_digit c

-- A test for each character of the text, which has no others.
unfoldable pub matches : List (ℕ → Bool) → Text → Bool
matches [] [] = true
matches [] (_ ∷ _) = false
matches (_ ∷ _) [] = false
matches (p ∷ ps) (c ∷ s) = p c && matches ps s

abbrev pub digest_pattern : List (ℕ → Bool)
digest_pattern = replicate 12 is_lower_hex

-- `/^[tq]\d{2}[di]\d{2}\d{2}[a-z0-9]{2}_[0-9a-f]{12}_[0-9a-f]{12}$/`
abbrev pub ja4_pattern : List (ℕ → Bool)
ja4_pattern =
    (λ c. c == b't' || c == b'q')
    ∷ is_digit
    ∷ is_digit
    ∷ (λ c. c == b'd' || c == b'i')
    ∷ is_digit
    ∷ is_digit
    ∷ is_digit
    ∷ is_digit
    ∷ is_alnum
    ∷ is_alnum
    ∷ (λ c. c == b'_')
    ∷ (digest_pattern ++ ((λ c. c == b'_') ∷ digest_pattern))

unfoldable pub resolve_tls_fp : HeaderValue → Bool → TlsFp
unfolding header_ja4 matches
resolve_tls_fp header from_trusted_proxy =
    let ja4 = header_ja4 header in
    if from_trusted_proxy then (if matches ja4_pattern ja4 then some ja4 else none) else none

-- `fp.ja4.split('_')[0]`
unfoldable pub before_underscore : Text → Text
before_underscore [] = []
before_underscore (c ∷ s) = if c == b'_' then [] else c ∷ before_underscore s

-- `ja4a[3] === 'i'`
abbrev pub has_no_name : Option ℕ → Bool
has_no_name none = false
has_no_name (some c) = c == b'i'

unfoldable pub tls_risk {ℓ} : (W : Type ℓ) ⦃d : Double W⦄ → TlsFp → Text → W
unfolding before_underscore
tls_risk W ⦃d⦄ none ua = d.ratio 5 10
tls_risk W ⦃d⦄ (some []) ua = d.ratio 5 10
tls_risk W ⦃d⦄ (some (c ∷ ja4)) ua =
    let ja4_a = before_underscore (c ∷ ja4) in
    if take 6 ja4_a === codes "t13i00"
    then d.ratio 9 10
    else if includes (to_lower ua) (codes "mozilla") && has_no_name (get_elem? ja4_a 3)
    then d.ratio 8 10
    else d.ratio 1 10
