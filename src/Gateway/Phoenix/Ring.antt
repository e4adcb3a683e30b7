-- ===== src/Gateway/Phoenix/Ring.antt =====
-- What the ring of events holds, and what is counted.
use Prim.Native.Nat.{min}
use x402_health_oracle.Prelude.{
  ℕ, ◌+◌, ◌≤◌, ◌≡◌, refl, Option, none, some, List, [], ◌∷◌, length, length-append, arith,
}
use x402_health_oracle.Double.{Double}
use x402_health_oracle.Gateway.Phoenix.{
  PhoenixEvent, RawEvent, Phoenix, push_event, name_of, is_exec, is_tcp, add_if, take_event,
  take_events, interact,
}

abbrev length_of : {W : Type 0} → List (PhoenixEvent W) → ℕ
length_of es = length es

length-push_event :
    {W : Type 0} (events : List (PhoenixEvent W)) (e : PhoenixEvent W)
    → length events ≤ 500
    → length (push_event events e) ≡ min 500 (length events + 1)
unfolding push_event
length-push_event [] e h = omega arith
length-push_event (x ∷ events) e h = ground (arith, length-append {0} events (e ∷ []))

-- The objects of a body, and those of them that report an exec or a connection.
abbrev pub objects : {W : Type 0} → List (Option (RawEvent W)) → ℕ
objects [] = 0
objects (none ∷ rest) = objects rest
objects (some _ ∷ rest) = objects rest + 1

abbrev pub execs : {W : Type 0} → List (Option (RawEvent W)) → ℕ
execs [] = 0
execs (none ∷ rest) = execs rest
execs (some raw ∷ rest) = add_if (is_exec (name_of raw.kind raw.event)) (execs rest)

abbrev pub connections : {W : Type 0} → List (Option (RawEvent W)) → ℕ
connections [] = 0
connections (none ∷ rest) = connections rest
connections (some raw ∷ rest) = add_if (is_tcp (name_of raw.kind raw.event)) (connections rest)

module _ {W : Type 0} ⦃d : Double W⦄ where
  take_event_lem :
      (p : Phoenix W) (raw : RawEvent W) (now : W)
      → length p.events ≤ 500
      → let p' = take_event p raw now in
        (length p'.events ≡ min 500 (length p.events + 1))
        × (p'.exec_count ≡ add_if (is_exec (name_of raw.kind raw.event)) p.exec_count)
        × (p'.tcp_count ≡ add_if (is_tcp (name_of raw.kind raw.event)) p.tcp_count)
  unfolding take_event
  take_event_lem p raw now h = (length-push_event p.events _ h, refl, refl)

  take_events_lem :
      (raws : List (Option (RawEvent W))) (p : Phoenix W) (now : W)
      → length p.events ≤ 500
      → let p' = take_events p raws now in
        (length p'.events ≡ min 500 (length p.events + objects raws))
        × (p'.exec_count ≡ p.exec_count + execs raws)
        × (p'.tcp_count ≡ p.tcp_count + connections raws)
  unfolding take_events
  take_events_lem [] p now h = omega arith
  take_events_lem (none ∷ rest) p now h = take_events_lem rest p now h
  take_events_lem (some raw ∷ rest) p now h =
      let step = take_event_lem p raw now h in
      let all = take_events_lem rest (take_event p raw now) now (omega (arith, step)) in
      ground (arith, step, all)

  -- Whatever the body, the ring grows by the events that are objects, up to 500 events; each exec and
  -- each connection among them is counted once.
  pub interact_ring :
      (p : Phoenix W) (raws : List (Option (RawEvent W))) (risk : Option W) (now : W)
      → length p.events ≤ 500
      → let p' = interact p raws risk now in
        (length p'.events ≡ min 500 (length p.events + objects raws))
        × (p'.exec_count ≡ p.exec_count + execs raws)
        × (p'.tcp_count ≡ p.tcp_count + connections raws)
  unfolding interact
  interact_ring p raws risk now h = take_events_lem raws p now h
