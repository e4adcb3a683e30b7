-- ===== src/Prelude/Dict.antt =====
-- A JavaScript `Map` (or an object used as one): its entries in order of insertion. `set` of a key
-- that is there keeps the place of the entry.
use x402_health_oracle.Prelude.Tests.{if◌then◌else◌}
use x402_health_oracle.Prelude.Lists.{length, keep}
use x402_health_oracle.Prelude.Keys.{Eq, ◌===◌, eq_self}
use Prim.Native.Nat.{◌+◌, ◌≤◌}
use mathlib.Core.Path.{◌≡◌, refl}
use mathlib.Core.Logic.{◌≢◌}
use mathlib.Core.Bool.{Bool, true, false}
use mathlib.Core.Option.{Option, none, some}
use mathlib.Core.List.{List, [], ◌∷◌}
use native.Mathlib.Omega.{arith}

abbrev pub Dict {ℓ κ} : Type ℓ → Type κ → Type (ℓ ⊔ κ)
Dict K V = List (K × V)

abbrev pub is_some {ℓ} : {A : Type ℓ} → Option A → Bool
is_some none = false
is_some (some _) = true

-- What `retain` leaves at a key.
abbrev pub pass {ℓ} : {V : Type ℓ} → (V → Bool) → Option V → Option V
pass p none = none
pass p (some v) = if p v then some v else none

module _ {ℓ κ} {K : Type ℓ} {V : Type κ} ⦃e : Eq K⦄ where
  abbrev pub get : K → Dict K V → Option V
  get k [] = none
  get k ((j, v) ∷ m) = if j === k then some v else get k m

  abbrev pub put : K → V → Dict K V → Dict K V
  put k v [] = (k, v) ∷ []
  put k v ((j, w) ∷ m) = if j === k then (j, v) ∷ m else (j, w) ∷ put k v m

  abbrev pub remove : K → Dict K V → Dict K V
  remove k [] = []
  remove k ((j, w) ∷ m) = if j === k then remove k m else (j, w) ∷ remove k m

  abbrev pub has : K → Dict K V → Bool
  has k m = is_some (get k m)

  -- No key stands twice.
  abbrev pub Distinct : Dict K V → Type κ
  Distinct [] = Unit
  Distinct ((j, _) ∷ m) = (get j m ≡ none) × Distinct m

  pub get-put :
      (k j : K) (v : V) (m : Dict K V) → get j (put k v m) ≡ (if k === j then some v else get j m)
  get-put k j v [] = refl
  get-put k j v ((i, w) ∷ m) =
      ground (arith, e.eq_correct k j, e.eq_correct i k, e.eq_correct i j, get-put k j v m)

  pub get-remove :
      (k j : K) (m : Dict K V) → get j (remove k m) ≡ (if k === j then none else get j m)
  get-remove k j [] = ground arith
  get-remove k j ((i, w) ∷ m) =
      ground (arith, e.eq_correct k j, e.eq_correct i k, e.eq_correct i j, get-remove k j m)

  pub get-put_self : (k : K) (v : V) (m : Dict K V) → get k (put k v m) ≡ some v
  get-put_self k v m = rw (get-put k k v m, eq_self k)

  pub get-remove_self : (k : K) (m : Dict K V) → get k (remove k m) ≡ none
  get-remove_self k m = rw (get-remove k k m, eq_self k)

  pub get-put_ne : (k j : K) (v : V) (m : Dict K V) → k ≢ j → get j (put k v m) ≡ get j m
  get-put_ne k j v m h = ground (arith, get-put k j v m, e.eq_correct k j)

  pub put-Distinct : (k : K) (v : V) (m : Dict K V) → Distinct m → Distinct (put k v m)
  put-Distinct k v [] d = (refl, tt)
  put-Distinct k v ((i, w) ∷ m) (fresh, d) =
      ground (arith, put-Distinct k v m d, get-put k i v m, e.eq_correct k i, e.eq_correct i k)

  pub remove-Distinct : (k : K) (m : Dict K V) → Distinct m → Distinct (remove k m)
  remove-Distinct k [] d = tt
  remove-Distinct k ((i, w) ∷ m) (fresh, d) =
      ground (arith, remove-Distinct k m d, get-remove k i m)

  pub length-put :
      (k : K) (v : V) (m : Dict K V)
      → length (put k v m) ≡ (if has k m then length m else length m + 1)
  length-put k v [] = ground arith
  length-put k v ((i, w) ∷ m) = ground (arith, length-put k v m)

  pub length-remove-le : (k : K) (m : Dict K V) → length (remove k m) ≤ length m
  length-remove-le k [] = omega arith
  length-remove-le k ((i, w) ∷ m) = ground (arith, length-remove-le k m)

  -- `for (const [k, v] of m) if (!p(v)) m.delete(k)`.
  abbrev pub retain : (V → Bool) → Dict K V → Dict K V
  retain p m = keep (λ entry. p entry.1) m

  get-keep_none : (p : V → Bool) (k : K) (m : Dict K V) → get k m ≡ none → get k (retain p m) ≡ none
  get-keep_none p k [] h = refl
  get-keep_none p k ((i, w) ∷ m) h = ground (arith, get-keep_none p k m)

  pub get-retain :
      (p : V → Bool) (k : K) (m : Dict K V) → Distinct m → get k (retain p m) ≡ pass p (get k m)
  get-retain p k [] d = refl
  get-retain p k ((i, w) ∷ m) (fresh, d) =
      ground (arith, get-retain p k m d, get-keep_none p k m, e.eq_correct i k)

  pub retain-Distinct : (p : V → Bool) (m : Dict K V) → Distinct m → Distinct (retain p m)
  retain-Distinct p [] d = tt
  retain-Distinct p ((i, w) ∷ m) (fresh, d) =
      ground (arith, retain-Distinct p m d, get-keep_none p i m)
