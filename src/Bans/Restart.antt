-- ===== src/Bans/Restart.antt =====
-- Bans survive a restart, for as long as they last.
use x402_health_oracle.Prelude.{
  ℕ, ◌+◌, ◌≤◌, ◌≡◌, refl, Bool, false, not, List, [], ◌∷◌, map, keep, any, ltb, arith, Text,
  text_Eq, ◌===◌, if◌then◌else◌, some, none, Option,
}
use x402_health_oracle.Prelude.Dict.{Dict, get, put, retain, Distinct, get-put, put-Distinct}
use x402_health_oracle.Bans.{
  BanRecord, File, object, BanStore, ActiveBan, save_bans, load_bans, clear_bans, persist_ban,
  to_active, load_active_bans,
}

-- The file holds what the memory holds.
abbrev pub IsSaved : BanStore → Type 0
IsSaved s = s.file ≡ object s.bans

keep_later :
    (now t : ℕ) (m : Dict Text BanRecord)
    → now ≤ t
    → keep (λ entry. ltb t entry.1.expires) (retain (λ v. not (ltb v.expires now)) m)
      ≡ keep (λ entry. ltb t entry.1.expires) m
keep_later now t [] h = refl
keep_later now t ((ip, v) ∷ m) h = ground (arith, keep_later now t m h)

-- After a restart at `now` from the file that the store has written, the active bans at every later
-- time are those of the store.
pub load_bans-load_active_bans :
    (s : BanStore) (now t : ℕ)
    → IsSaved s
    → now ≤ t
    → load_active_bans (load_bans now s.file) t ≡ load_active_bans s t
unfolding load_active_bans load_bans save_bans
load_bans-load_active_bans s now t saved h = rw (saved, keep_later now t s.bans h)

-- Every operation leaves the file as the memory, also a start from a file of another form.
pub IsSaved_lem :
    (s : BanStore) (file : File BanRecord) (ip reason : Text) (ttl_ms now : ℕ)
    → IsSaved (load_bans now file)
      × IsSaved (clear_bans s)
      × IsSaved (persist_ban s ip reason ttl_ms now)
unfolding load_bans clear_bans persist_ban save_bans
IsSaved_lem s file ip reason ttl_ms now = (refl, refl, refl)

abbrev pub is_active : Text → List ActiveBan → Bool
is_active ip bans = any (λ (a : ActiveBan). a.ip === ip) bans

abbrev expires_after : ℕ → Option BanRecord → Bool
expires_after t none = false
expires_after t (some v) = ltb t v.expires

absent_not_active :
    (ip : Text) (t : ℕ) (m : Dict Text BanRecord)
    → get ip m ≡ none
    → is_active ip (map to_active (keep (λ entry. ltb t entry.1.expires) m)) ≡ false
absent_not_active ip t [] h = refl
absent_not_active ip t ((j, v) ∷ m) h = ground (arith, absent_not_active ip t m)

active_lem :
    (ip : Text) (t : ℕ) (m : Dict Text BanRecord)
    → Distinct m
    → is_active ip (map to_active (keep (λ entry. ltb t entry.1.expires) m))
      ≡ expires_after t (get ip m)
active_lem ip t [] d = refl
active_lem ip t ((j, v) ∷ m) (fresh, d) =
    ground (arith, text_Eq.eq_correct j ip, active_lem ip t m d, absent_not_active ip t m)

-- In a store that holds each address once, a ban of an address is active exactly until its time is
-- over, and changes nothing of the others.
pub persist_ban_active :
    (s : BanStore) (ip reason j : Text) (ttl_ms now t : ℕ)
    → Distinct s.bans
    → is_active j (load_active_bans (persist_ban s ip reason ttl_ms now) t)
      ≡ (if ip === j then ltb t (now + ttl_ms) else is_active j (load_active_bans s t))
unfolding load_active_bans persist_ban save_bans
persist_ban_active s ip reason j ttl_ms now t d =
    let ban : BanRecord = record { reason = reason; ts = now; expires = now + ttl_ms } in
    ground (
      arith,
      active_lem j t (put ip ban s.bans) (put-Distinct ip ban s.bans d),
      active_lem j t s.bans d,
      get-put ip j ban s.bans,
    )
