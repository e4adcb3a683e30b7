-- ===== src/Gateway/Stall/Pairs.antt =====
-- The pairs of a record, and whom the correlation condemns.
use x402_health_oracle.Prelude.{
  ℕ, ◌-◌, ◌≤◌, ◌<◌, ◌≡◌, ◌↔◌, Bool, true, false, Bool-cases, Option-cases, inl, inr, Option, none,
  some, [], ◌∷◌, ◌===◌, sym, leb, Text, text_Eq, arith, length, length-append,
}
use x402_health_oracle.Double.{Double, num, ◌⊏◌}
use x402_health_oracle.Gateway.Cache.{Cache, IsCache}
use x402_health_oracle.Gateway.Guard.{Guard, is_banned}
use x402_health_oracle.Gateway.Stall.{
  StallRecord, StallState, destroyed, or_new, add_gap, note_request, forget_pairs, push_delay,
  rho_of, is_static, judge_rho, micro_stall, note_delay,
}

-- A pause is kept for a delay that is there, and fewer than seven are kept between two requests.
pub record IsPaired (rec : StallRecord) : Type 0 where
  pub paired : length rec.client_gaps ≤ length rec.server_delays
  pub few : length rec.client_gaps < 7

add_gap_lem :
    (rec : StallRecord) (now : ℕ) (last : Option ℕ)
    → IsPaired rec
    → (length (add_gap rec now last).client_gaps ≤ length (add_gap rec now last).server_delays)
      × (length (add_gap rec now last).client_gaps ≤ 7)
add_gap_lem rec now none h = omega arith
add_gap_lem rec now (some last) h =
    ground (arith, length-append {0} rec.client_gaps ((now - last) ∷ []))

fresh-IsPaired : IsPaired (or_new none)
fresh-IsPaired = omega arith

forget_pairs-IsPaired : (rec : StallRecord) → IsPaired (forget_pairs rec)
forget_pairs-IsPaired rec = omega arith

push_delay-IsPaired :
    (rec : StallRecord) (delay : ℕ) → IsPaired rec → IsPaired (push_delay delay rec)
push_delay-IsPaired rec delay h = omega (arith, length-append {0} rec.server_delays (delay ∷ []))

note_request-gaps :
    (rec : StallRecord) (now : ℕ)
    → IsPaired rec
    → (length (note_request rec now).client_gaps ≤ length (note_request rec now).server_delays)
      × (length (note_request rec now).client_gaps ≤ 7)
unfolding note_request
note_request-gaps rec now h = add_gap_lem rec now rec.last_req h

note_request-IsPaired :
    (rec : StallRecord) (now : ℕ)
    → IsPaired rec
    → leb 7 (length (note_request rec now).client_gaps) ≡ false
    → IsPaired (note_request rec now)
note_request-IsPaired rec now h few = ground (arith, note_request-gaps rec now h)

-- What the cache holds for an address.
abbrev pub held : (c : Cache) → c.Store StallRecord → Text → ℕ → StallRecord
held c s ip now = or_new (c.get s ip now)

-- The records of all addresses are paired, at whatever time they are looked up.
abbrev pub AllPaired : (c : Cache) → c.Store StallRecord → Type 0
AllPaired c s = (ip : Text) (now : ℕ) → IsPaired (held c s ip now)

-- The calls that change the records: the part of a request before its wait, and the end of an answer.
module _ (c : Cache) (W : Type 0) ⦃d : Double W⦄ where
  pub data StallStep : StallState c W → StallState c W → Type 0 where
    arrives :
        (g : Guard c) (s : StallState c W) (ip : Text) (threshold : W) (armed : Bool)
        (toxicity : Option W) (random : W) (now : ℕ)
        → StallStep s (micro_stall g s ip threshold armed toxicity random now).1
    finishes :
        (s : StallState c W) (ip : Text) (held_ms : W) (start now : ℕ)
        → StallStep s (note_delay s ip held_ms start now)

  pub data StallReach (s : StallState c W) : StallState c W → Type 0 where
    here : StallReach s s
    after : {t u : StallState c W} → StallReach s t → StallStep t u → StallReach s u

module _ {c : Cache} (laws : IsCache c) where
  set-AllPaired :
      (s : c.Store StallRecord) (ip : Text) (rec : StallRecord) (t : ℕ)
      → IsPaired rec
      → AllPaired c s
      → AllPaired c (c.set s ip rec t)
  set-AllPaired s ip rec t paired all j u = elim (Bool-cases (ip === j)) [
    | inl same ↦ elim (laws.get-set_or s ip rec t u) [
      | inl found ↦ rw (sym ((text_Eq.eq_correct ip j).0 same), found) paired
      | inr gone ↦ rw (sym ((text_Eq.eq_correct ip j).0 same), gone) fresh-IsPaired
    ]
    | inr other ↦ elim (laws.get-set_ne s ip j rec t u (ground (arith, text_Eq.eq_correct ip j))) [
      | inl kept ↦ rw kept (all j u)
      | inr gone ↦ rw gone fresh-IsPaired
    ]
  ]

  delete-AllPaired :
      (s : c.Store StallRecord) (ip : Text) → AllPaired c s → AllPaired c (c.delete s ip)
  delete-AllPaired s ip all j u = elim (Bool-cases (ip === j)) [
    | inl same ↦ rw (laws.get-delete s ip j u, same) fresh-IsPaired
    | inr other ↦ rw (laws.get-delete s ip j u, other) (all j u)
  ]

  touch-AllPaired :
      (s : c.Store StallRecord) (ip : Text) (t : ℕ) → AllPaired c s → AllPaired c (c.touch s ip t)
  touch-AllPaired s ip t all j u = rw (laws.get-touch s ip j t u) (all j u)

module _ {W : Type 0} ⦃d : Double W⦄ {c : Cache} (laws : IsCache c) where
  judge_rho-AllPaired :
      (g : Guard c) (s : StallState c W) (ip : Text) (rec : StallRecord) (rho threshold : W)
      (armed : Bool) (toxicity : Option W) (random : W) (now : ℕ)
      → AllPaired c s.stalls
      → AllPaired c (judge_rho g s ip rec rho threshold armed toxicity random now).1.stalls
  unfolding judge_rho
  judge_rho-AllPaired g s ip rec rho threshold armed toxicity random now all =
      elim (Bool-cases (is_static rho threshold)) [
        | inl static ↦ rw static (delete-AllPaired laws s.stalls ip all)
        | inr alive ↦
            rw alive (
              set-AllPaired laws s.stalls ip (forget_pairs rec) now (forget_pairs-IsPaired rec) all)
      ]

  micro_stall-AllPaired :
      (g : Guard c) (s : StallState c W) (ip : Text) (threshold : W) (armed : Bool)
      (toxicity : Option W) (random : W) (now : ℕ)
      → AllPaired c s.stalls
      → AllPaired c (micro_stall g s ip threshold armed toxicity random now).1.stalls
  unfolding micro_stall
  micro_stall-AllPaired g s ip threshold armed toxicity random now all =
      let old = held c s.stalls ip now in
      let rec = note_request old now in
      let touched = record s { stalls = c.touch s.stalls ip now } in
      let kept = touch-AllPaired laws s.stalls ip now all in
      elim (Bool-cases (is_banned g ip now)) [
        | inl banned ↦ rw banned all
        | inr free ↦ rw free (elim (Bool-cases (leb 7 (length rec.client_gaps))) [
          | inl many ↦ rw many (
              judge_rho-AllPaired g touched ip rec (rho_of rec) threshold armed toxicity random now
                kept)
          | inr few ↦ rw few (
              set-AllPaired laws touched.stalls ip rec now
                (note_request-IsPaired old now (all ip now) few) kept)
        ])
      ]

  note_delay-AllPaired :
      (s : StallState c W) (ip : Text) (held_ms : W) (start now : ℕ)
      → AllPaired c s.stalls
      → AllPaired c (note_delay s ip held_ms start now).stalls
  unfolding note_delay
  note_delay-AllPaired s ip held_ms start now all = elim (Bool-cases (num 0 ⊏ held_ms)) [
    | inr free ↦ rw free all
    | inl waited ↦ rw waited (elim (Option-cases (c.get s.stalls ip now)) [
      | inl e ↦ rw e (touch-AllPaired laws s.stalls ip now all)
      | inr (rec, e) ↦
          let paired = all ip now in
          rw e (
            set-AllPaired laws (c.touch s.stalls ip now) ip (push_delay (now - start) rec) now
              (push_delay-IsPaired rec (now - start) (rw e at paired))
              (touch-AllPaired laws s.stalls ip now all))
    ])
  ]

  StallStep-AllPaired :
      {s t : StallState c W} → StallStep c W s t → AllPaired c s.stalls → AllPaired c t.stalls
  StallStep-AllPaired (arrives g s ip threshold armed toxicity random now) all =
      micro_stall-AllPaired g s ip threshold armed toxicity random now all
  StallStep-AllPaired (finishes s ip held_ms start now) all =
      note_delay-AllPaired s ip held_ms start now all

  StallReach-AllPaired :
      {s t : StallState c W} → StallReach c W s t → AllPaired c s.stalls → AllPaired c t.stalls
  StallReach-AllPaired here all = all
  StallReach-AllPaired (after r step) all = StallStep-AllPaired step (StallReach-AllPaired r all)

  -- In every state that requests and ends of answers lead to from empty records, a pause stands
  -- for a delay that is kept, and fewer than seven pauses are kept, for every address and at
  -- every time. It takes the laws of the caches.
  pub micro_stall-IsPaired :
      (start s : StallState c W)
      → ((ip : Text) (now : ℕ) → c.get start.stalls ip now ≡ none)
      → StallReach c W start s
      → AllPaired c s.stalls
  micro_stall-IsPaired start s empty reach =
      StallReach-AllPaired reach (λ ip now. rw (empty ip now) fresh-IsPaired)

  -- A request whose address is not banned, and whose record is paired, is destroyed exactly if
  -- seven pauses are there for seven delays and their ranks correlate less than the threshold,
  -- or not at all.
  pub micro_stall_kills_iff :
      (g : Guard c) (s : StallState c W) (ip : Text) (threshold : W) (armed : Bool)
      (toxicity : Option W) (random : W) (now : ℕ)
      → is_banned g ip now ≡ false
      → IsPaired (held c s.stalls ip now)
      → let rec = note_request (held c s.stalls ip now) now in
        ((micro_stall g s ip threshold armed toxicity random now).2 ≡ destroyed) ↔ (
          (length rec.client_gaps ≡ 7)
          × (7 ≤ length rec.server_delays)
          × (is_static (rho_of rec) threshold ≡ true))
  unfolding micro_stall judge_rho
  micro_stall_kills_iff g s ip threshold armed toxicity random now free h =
      ground (arith, note_request-gaps (held c s.stalls ip now) now h)
