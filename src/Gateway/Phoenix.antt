-- ===== src/Gateway/Phoenix.antt =====
-- `/api/agent/interact` of gateway/server.ts: the events of the kernel sensor, the last 500 of them,
-- and the threat score. An element of the body that is no object is `none`; an event's own time
-- stamp takes the place of the server's.
pub mod Ring
use x402_health_oracle.Prelude.{
  ℕ, ◌+◌, ◌-◌, ◌≤◌, ◌≡◌, ◌||◌, Bool, true, false, Option, none, some, List, [], ◌∷◌, ◌++◌, ltb,
  if◌then◌else◌, Text, codes, text_Eq, ◌===◌, length, keep, length-append, arith,
}
use x402_health_oracle.Double.{Double, ◌⊕◌, ◌⊖◌, ◌⊗◌, ◌⊘◌, ◌⊑◌, ◌≐◌, num, min, max}

pub record PhoenixEvent (W : Type 0) : Type 0 where
  pub ts : W
  pub kind : Option Text
  pub event : Option Text
  pub rtt_ms : Option W

-- An event as it stands in the body.
pub record RawEvent (W : Type 0) : Type 0 where
  pub ts : Option W
  pub kind : Option Text
  pub event : Option Text
  pub rtt_ms : Option W

pub record Phoenix (W : Type 0) : Type 0 where
  pub events : List (PhoenixEvent W)
  pub exec_count : ℕ
  pub tcp_count : ℕ
  pub rtt_ema : W
  pub threat_score : W

abbrev pub phoenix_ring : ℕ
phoenix_ring = 500

abbrev pub shift {ℓ} : {A : Type ℓ} → List A → List A
shift [] = []
shift (_ ∷ xs) = xs

unfoldable pub push_event :
    {W : Type 0} → List (PhoenixEvent W) → PhoenixEvent W → List (PhoenixEvent W)
push_event events e =
    let pushed = events ++ e ∷ [] in
    if ltb phoenix_ring (length pushed) then shift pushed else pushed

-- `(entry.type ?? entry.event ?? '')`
abbrev pub name_of : Option Text → Option Text → Text
name_of (some kind) _ = kind
name_of none (some event) = event
name_of none none = []

abbrev pub is_exec : Text → Bool
is_exec t = t === codes "exec" || t === codes "sys_execve"

abbrev pub is_tcp : Text → Bool
is_tcp t = t === codes "tcp" || t === codes "tcp_connect"

abbrev pub add_if : Bool → ℕ → ℕ
add_if test n = if test then n + 1 else n

module _ {W : Type 0} ⦃d : Double W⦄ where
  abbrev pub ts_or : Option W → W → W
  ts_or none now = now
  ts_or (some t) _ = t

  abbrev pub next_ema : W → Option W → W
  next_ema ema none = ema
  next_ema ema (some rtt) = if ema ≐ num 0 then rtt else ema ⊗ d.ratio 9 10 ⊕ rtt ⊗ d.ratio 1 10

  unfoldable pub take_event : Phoenix W → RawEvent W → W → Phoenix W
  unfolding push_event
  take_event p raw now =
      let entry : PhoenixEvent W = record {
        ts = ts_or raw.ts now;
        kind = raw.kind;
        event = raw.event;
        rtt_ms = raw.rtt_ms;
      } in
      let t = name_of raw.kind raw.event in
      record p {
        events = push_event p.events entry;
        exec_count = add_if (is_exec t) p.exec_count;
        tcp_count = add_if (is_tcp t) p.tcp_count;
        rtt_ema = next_ema p.rtt_ema raw.rtt_ms;
      }

  -- The loop over the events of the body.
  unfoldable pub take_events : Phoenix W → List (Option (RawEvent W)) → W → Phoenix W
  take_events p [] now = p
  take_events p (none ∷ rest) now = take_events p rest now
  take_events p (some raw ∷ rest) now = take_events (take_event p raw now) rest now

  abbrev pub recent : List (PhoenixEvent W) → W → ℕ
  recent events now = length (keep (λ (e : PhoenixEvent W). now ⊖ num 10000 ⊑ e.ts) events)

  -- The sensor's own risk where it gives one, and the number of recent events otherwise.
  unfoldable pub next_threat : Phoenix W → Option W → W → W
  next_threat p none now = min (num 1) (num (recent p.events now) ⊘ num 100)
  next_threat p (some risk) now = max (p.threat_score ⊗ d.ratio 8 10) risk

  unfoldable pub interact : Phoenix W → List (Option (RawEvent W)) → Option W → W → Phoenix W
  unfolding next_threat
  interact p raws risk now =
      let taken = take_events p raws now in
      record taken { threat_score = next_threat taken risk now }
