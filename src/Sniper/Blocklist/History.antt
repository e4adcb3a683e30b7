-- ===== src/Sniper/Blocklist/History.antt =====
-- `IpBlocklist` against its history of calls: the abstract view keeps no map.
use x402_health_oracle.Prelude.{
  ℕ, ◌+◌, ◌≤◌, ◌≡◌, refl, ◌⊎◌, inl, String, Bool, false, Option, none, some, List, [], ◌∷◌, arith,
  ltb, if◌then◌else◌, string_Eq, ◌===◌,
}
use x402_health_oracle.Prelude.Dict.{get, get-put, get-remove}
use x402_health_oracle.Sniper.Blocklist.{Blocklist, block, is_blocked, delete}

pub data Call : Type 0 where
  blocked_for : String → ℕ → Call
  asked : String → Call
  deleted : String → Call

-- The calls so far with their times, the latest first.
abbrev pub History : Type 0
History = List (ℕ × Call)

unfoldable pub apply : Blocklist → ℕ → Call → Blocklist
unfolding block is_blocked delete
apply m now (blocked_for ip duration_ms) = block m now ip duration_ms
apply m now (asked ip) = (is_blocked m now ip).0
apply m now (deleted ip) = delete m ip

unfoldable pub run : History → Blocklist
unfolding apply
run [] = []
run ((now, call) ∷ earlier) = apply (run earlier) now call

-- The clock does not go back, and none of the calls is later than `now`.
abbrev pub IsClocked : ℕ → History → Type 0
IsClocked now [] = Unit
IsClocked now ((t, _) ∷ earlier) = (t ≤ now) × IsClocked t earlier

-- The abstract view: the end of the last block that no deletion of the address followed.
unfoldable pub block_end : String → History → Option ℕ
block_end ip [] = none
block_end ip ((t, blocked_for j duration_ms) ∷ earlier) =
    if j === ip then some (t + duration_ms) else block_end ip earlier
block_end ip ((t, asked _) ∷ earlier) = block_end ip earlier
block_end ip ((t, deleted j) ∷ earlier) = if j === ip then none else block_end ip earlier

abbrev pub is_before : ℕ → Option ℕ → Bool
is_before now none = false
is_before now (some end) = ltb now end

-- What the map holds at an address: the abstract view, or nothing where that is over.
abbrev Agrees : ℕ → Option ℕ → Option ℕ → Type 0
Agrees now held view = (held ≡ view) ⊎ ((held ≡ none) × (is_before now view ≡ false))

Agrees-later :
    (t now : ℕ) (held view : Option ℕ) → t ≤ now → Agrees t held view → Agrees now held view
Agrees-later t now held view h a = ground arith

run-Agrees :
    (ip : String) (now : ℕ) (h : History)
    → IsClocked now h
    → Agrees now (get ip (run h)) (block_end ip h)
unfolding run block_end
run-Agrees ip now [] c = inl refl
run-Agrees ip now ((t, blocked_for j d) ∷ h) (le, c) =
    let a = Agrees-later t now _ _ le (run-Agrees ip t h c) in
    ground (arith, get-put j ip (t + d) (run h))
run-Agrees ip now ((t, asked j) ∷ h) (le, c) =
    let a = Agrees-later t now _ _ le (run-Agrees ip t h c) in
    ground (arith, get-remove j ip (run h), string_Eq.eq_correct j ip)
run-Agrees ip now ((t, deleted j) ∷ h) (le, c) =
    let a = Agrees-later t now _ _ le (run-Agrees ip t h c) in
    ground (arith, get-remove j ip (run h))

-- After any history of calls under a clock that does not go back, `isBlocked` answers true at
-- `now` exactly when the last block of the address, not followed by a deletion of it, ends after
-- `now`: calls for other addresses and the entries that earlier queries deleted change nothing.
pub is_blocked-block_end :
    (ip : String) (now : ℕ) (h : History)
    → IsClocked now h
    → (is_blocked (run h) now ip).1 ≡ is_before now (block_end ip h)
unfolding is_blocked
is_blocked-block_end ip now h c = let a = run-Agrees ip now h c in ground arith
