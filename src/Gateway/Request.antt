-- ===== src/Gateway/Request.antt =====
-- What gateway/server.ts reads of a request before a handler looks at it: the address of the client,
-- the name of the session, whether the call is local, and the Frankenstein points. A header is
-- looked up by its name in lower case, as Node hands headers over.
use x402_health_oracle.Prelude.{
  ℕ, ◌+◌, Bool, true, false, ◌&&◌, ◌||◌, not, Option, none, some, List, [], ◌∷◌, ◌==◌, leb,
  if◌then◌else◌, String, string_Eq, Text, codes, includes, text_Eq, ◌===◌, length, map, keep,
}
use x402_health_oracle.Prelude.Dict.{Dict, get}
use x402_health_oracle.Encoding.Hex.{is_hex}
use x402_health_oracle.Sniper.Score.{text_or_empty}
use x402_health_oracle.Tls.Resolve.{HeaderValue, no_text, one_text, texts, trim_start, trim_end}

pub record Request : Type 0 where
  -- `req.socket.remoteAddress`
  pub remote : Option Text
  pub headers : Dict String HeaderValue

abbrev pub or_absent : Option HeaderValue → HeaderValue
or_absent none = no_text
or_absent (some v) = v

abbrev pub header : Request → String → HeaderValue
header r name = or_absent (get name r.headers)

-- A header that Node gives as one text.
abbrev pub single : HeaderValue → Option Text
single no_text = none
single (one_text s) = some s
single (texts _) = none

-- `typeof h === 'string' ? h : Array.isArray(h) ? h[0] : ''`
abbrev pub first_text : HeaderValue → Option Text
first_text no_text = some []
first_text (one_text s) = some s
first_text (texts []) = none
first_text (texts (s ∷ _)) = some s

abbrev pub header_text : Request → String → Option Text
header_text r name = single (header r name)

abbrev pub is_blank : Text → Bool
is_blank [] = true
is_blank (_ ∷ _) = false

unfoldable pub trim : Text → Text
unfolding trim_start trim_end
trim s = trim_end (trim_start s)

-- `s.split(',')`
abbrev extend : ℕ → List Text → List Text
extend c [] = (c ∷ []) ∷ []
extend c (part ∷ parts) = (c ∷ part) ∷ parts

unfoldable pub split_commas : Text → List Text
split_commas [] = [] ∷ []
split_commas (c ∷ s) =
    let parts = split_commas s in if c == b',' then [] ∷ parts else extend c parts

-- The set that TRUSTED_PROXY_IPS names.
unfoldable pub trusted_proxies : Text → List Text
unfolding split_commas trim
trusted_proxies setting = keep (λ s. not (is_blank s)) (map trim (split_commas setting))

abbrev pub is_among : Text → List Text → Bool
is_among a [] = false
is_among a (b ∷ bs) = a === b || is_among a bs

abbrev pub or_empty : Option Text → Text
or_empty none = []
or_empty (some s) = s

-- `x || given` of a text.
abbrev pub or_text : Option Text → Text → Text
or_text none given = given
or_text (some []) given = given
or_text (some (c ∷ s)) _ = c ∷ s

abbrev pub first_part : List Text → Text
first_part [] = []
first_part (part ∷ _) = part

-- `raw?.split(',')[0]?.trim()`; no text is as good as the empty one.
unfoldable pub forwarded : Request → Text
unfolding split_commas trim
forwarded r = trim (first_part (split_commas (or_empty (first_text (header r "x-forwarded-for")))))

unfoldable pub client_ip : List Text → Request → Text
unfolding forwarded
client_ip proxies r =
    let remote = or_text r.remote (codes "unknown") in
    if is_among remote proxies then or_text (some (forwarded r)) remote else remote

-- `TRUSTED_PROXY_IPS.has(req.socket.remoteAddress || '')`
abbrev pub from_proxy : List Text → Request → Bool
from_proxy proxies r = is_among (or_empty r.remote) proxies

-- `/^[a-f0-9]{16,64}$/i`
abbrev pub is_session_token : Text → Bool
is_session_token s = is_hex s && (leb 16 (length s) && leb (length s) 64)

abbrev pub default_session : Text
default_session = codes "default"

unfoldable pub session_id_of : Request → Text
session_id_of r =
    let s = or_empty (first_text (header r "x-silicon-dna-session")) in
    if is_session_token s then s else default_session

-- The three spellings of the machine's own address.
unfoldable pub is_local : Request → Bool
is_local r =
    let remote = or_empty r.remote in
    remote === codes "127.0.0.1" || (remote === codes "::1" || remote === codes "::ffff:127.0.0.1")

abbrev pub points : Bool → ℕ → ℕ
points test n = if test then n else 0

abbrev pub user_agent : Request → Text
user_agent r = text_or_empty (header_text r "user-agent")

-- Whether a header is there and is no empty text.
abbrev pub is_given : HeaderValue → Bool
is_given no_text = false
is_given (one_text s) = not (is_blank s)
is_given (texts _) = true

unfoldable pub check_consistency : Request → ℕ
check_consistency r =
    let ua = user_agent r in
    let platform = text_or_empty (header_text r "sec-ch-ua-platform") in
    points (includes ua (codes "Mozilla") && not (is_given (header r "sec-fetch-mode"))) 40
    + points (includes ua (codes "Windows") && platform === codes "\"Linux\"") 50
    + points (includes ua (codes "Macintosh") && platform === codes "\"Windows\"") 50
    + points (includes ua (codes "Chrome") && not (is_given (header r "sec-ch-ua"))) 30
    + points (is_given (header r "x-puppeteer-version") || is_given (header r "x-selenium-id")) 100
