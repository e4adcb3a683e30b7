-- ===== src/Gateway/Filter/Effects.antt =====
-- What the steps of the sniper filter do to the bans and to the drift model.
use x402_health_oracle.Prelude.{
  ℕ, ◌+◌, ◌≡◌, refl, ◌∙◌, Bool, inl, inr, Bool-cases, List, Text, arith, length, not, ◌&&◌, text_Eq,
  none, some, [], ◌∷◌, ltb, if◌then◌else◌,
}
use x402_health_oracle.Prelude.Dict.{Dict, get, put}
use x402_health_oracle.Double.{Double}
use x402_health_oracle.Sniper.Score.{SniperScore}
use x402_health_oracle.Gateway.Cache.{Cache}
use x402_health_oracle.Tls.Resolve.{TlsFp, resolve_tls_fp}
use x402_health_oracle.Gateway.Request.{Request, header, user_agent, from_proxy}
use x402_health_oracle.Gateway.Guard.{Guard, ban, count_dropped}
use x402_health_oracle.Gateway.Filter.{
  FilterState, Outcome, destroyed, next, Moment, push_time, stored_times, score_times, judge, watch,
  note_tls, note_fp, rhythm_reason,
}

-- The times of the address with the new one.
abbrev pub times_with {ℓ} : {W : Type ℓ} → Dict Text (List W) → Text → W → List W
times_with log ip tick = push_time (stored_times (get ip log)) tick

module _ {W : Type 0} ⦃d : Double W⦄ where
  -- Ten requests of the address or more have a rhythm that is scored as synthetic.
  abbrev pub has_synthetic_rhythm : Dict Text (List W) → W → Request → Text → W → Bool
  has_synthetic_rhythm log sigma2 r ip tick =
      let times = times_with log ip tick in
      not (ltb (length times) 10) && (score_times sigma2 times r).blocked

  note_fp_keeps :
      (f : FilterState W) (fp : TlsFp) (ua : Text)
      → ((note_fp f fp ua).request_log ≡ f.request_log)
        × ((note_fp f fp ua).sigma2 ≡ f.sigma2)
        × ((note_fp f fp ua).drift ≡ f.drift)
  note_fp_keeps f none ua = (refl, refl, refl)
  note_fp_keeps f (some []) ua = (refl, refl, refl)
  note_fp_keeps f (some (x ∷ ja4)) ua = (refl, refl, refl)

  pub note_tls_keeps :
      (proxies : List Text) (f : FilterState W) (r : Request)
      → ((note_tls proxies f r).request_log ≡ f.request_log)
        × ((note_tls proxies f r).sigma2 ≡ f.sigma2)
        × ((note_tls proxies f r).drift ≡ f.drift)
  unfolding note_tls
  note_tls_keeps proxies f r =
      note_fp_keeps f (resolve_tls_fp (header r "x-tls-ja4") (from_proxy proxies r)) (user_agent r)

module _ {W : Type 0} ⦃d : Double W⦄ {c : Cache} where
  -- What a call of the filter does to the bans and to the drift model: a request that goes on
  -- leaves the bans alone, one that is destroyed is counted and teaches the drift model nothing.
  abbrev pub Keeps : Guard c → FilterState W → Guard c × FilterState W × Outcome → Type 0
  Keeps g f (g', f', next _) =
      (g'.banned ≡ g.banned) × (g'.bans ≡ g.bans) × (g'.dropped ≡ g.dropped)
  Keeps g f (g', f', destroyed) =
      (f'.drift ≡ f.drift)
      × (f'.sigma2 ≡ f.sigma2)
      × (g'.passed ≡ g.passed)
      × (g'.dropped ≡ g.dropped + 1)

  judge-Keeps :
      (g : Guard c) (f : FilterState W) (ip hash : Text) (times : List W) (score : SniperScore W)
      (points now : ℕ)
      → Keeps g f (judge g f ip hash times score points now)
  unfolding judge ban
  judge-Keeps g f ip hash times score points now = elim (Bool-cases score.blocked) [
    | inl blocked ↦ rw blocked (refl, refl, refl, refl)
    | inr clean ↦ rw clean (refl, refl, refl)
  ]

  pub judge_outcome :
      (g : Guard c) (f : FilterState W) (ip hash : Text) (times : List W) (score : SniperScore W)
      (points now : ℕ)
      → (judge g f ip hash times score points now).2
        ≡ (if score.blocked then destroyed else next points)
  unfolding judge
  judge_outcome g f ip hash times score points now = ground arith

  pub watch_outcome :
      (g : Guard c) (f : FilterState W) (r : Request) (ip hash : Text) (points : ℕ) (m : Moment W)
      → (watch g f r ip hash points m).2 ≡ (
          if has_synthetic_rhythm f.request_log f.sigma2 r ip m.tick
          then destroyed
          else next points)
  unfolding watch
  watch_outcome g f r ip hash points m =
      let times = times_with f.request_log ip m.tick in
      let logged = record f { request_log = put ip times f.request_log } in
      ground
        (arith, judge_outcome g logged ip hash times (score_times f.sigma2 times r) points m.now)

  pub watch-Keeps :
      (g : Guard c) (f : FilterState W) (r : Request) (ip hash : Text) (points : ℕ) (m : Moment W)
      → Keeps g f (watch g f r ip hash points m)
  unfolding watch
  watch-Keeps g f r ip hash points m =
      let times = times_with f.request_log ip m.tick in
      let logged = record f { request_log = put ip times f.request_log } in
      elim (Bool-cases (ltb (length times) 10)) [
        | inl few ↦ rw few (refl, refl, refl)
        | inr many ↦
            rw many (judge-Keeps g logged ip hash times (score_times f.sigma2 times r) points m.now)
      ]

  pub Keeps-from :
      (g : Guard c) (f f' : FilterState W) (x : Guard c × FilterState W × Outcome)
      → f'.drift ≡ f.drift
      → f'.sigma2 ≡ f.sigma2
      → Keeps g f' x
      → Keeps g f x
  Keeps-from g f f' (g', f'', next _) e e' h = h
  Keeps-from g f f' (g', f'', destroyed) e e' (drift, sigma2, passed, dropped) =
      (drift ∙ e, sigma2 ∙ e', passed, dropped)

  -- A destroyed request has had its address banned.
  abbrev pub Convicts : Guard c → Text → ℕ → Guard c × FilterState W × Outcome → Type 0
  Convicts g ip now (g', f', next _) = Unit
  Convicts g ip now (g', f', destroyed) =
      (reason : Text) × (g' ≡ count_dropped (ban g ip reason now))

  pub Convicts-of :
      (g : Guard c) (ip : Text) (now : ℕ) (x : Guard c × FilterState W × Outcome)
      → Convicts g ip now x
      → x.2 ≡ destroyed
      → (reason : Text) × (x.0 ≡ count_dropped (ban g ip reason now))
  Convicts-of g ip now (g', f', next _) h e = cc
  Convicts-of g ip now (g', f', destroyed) h e = h

  judge-Convicts :
      (g : Guard c) (f : FilterState W) (ip hash : Text) (times : List W) (score : SniperScore W)
      (points now : ℕ)
      → Convicts g ip now (judge g f ip hash times score points now)
  unfolding judge
  judge-Convicts g f ip hash times score points now = elim (Bool-cases score.blocked) [
    | inl blocked ↦ simp blocked (rhythm_reason score, refl)
    | inr clean ↦ rw clean tt
  ]

  pub watch-Convicts :
      (g : Guard c) (f : FilterState W) (r : Request) (ip hash : Text) (points : ℕ) (m : Moment W)
      → Convicts g ip m.now (watch g f r ip hash points m)
  unfolding watch
  watch-Convicts g f r ip hash points m =
      let times = times_with f.request_log ip m.tick in
      let logged = record f { request_log = put ip times f.request_log } in
      elim (Bool-cases (ltb (length times) 10)) [
        | inl few ↦ rw few tt
        | inr many ↦
            rw many
              (judge-Convicts g logged ip hash times (score_times f.sigma2 times r) points m.now)
      ]
