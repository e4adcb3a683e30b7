-- ===== src/Shadow/Heap.antt =====
-- Lists of records and of waiting callbacks.
use x402_health_oracle.Prelude.{
  ℕ, zero, suc, ◌+◌, ◌<◌, ◌≡◌, refl, Option, none, some, List, [], ◌∷◌, ◌++◌, arith, string_Eq,
  length, get_elem?, ◌==◌, if◌then◌else◌, Option-cases, inl, inr,
}
use x402_health_oracle.Shadow.{ShadowRecord, modify, current, take_out}

abbrev pub count : ℕ → List ℕ → ℕ
count a [] = 0
count a (x ∷ xs) = (if x == a then 1 else 0) + count a xs

abbrev pub map_some : (ShadowRecord → ShadowRecord) → Option ShadowRecord → Option ShadowRecord
map_some f none = none
map_some f (some r) = some (f r)

pub get_elem?-modify :
    (f : ShadowRecord → ShadowRecord) (i j : ℕ) (rs : List ShadowRecord)
    → get_elem? (modify i f rs) j ≡ (if i == j then map_some f (get_elem? rs j) else get_elem? rs j)
get_elem?-modify f i j [] = ground arith
get_elem?-modify f zero zero (r ∷ rs) = refl
get_elem?-modify f zero (suc j) (r ∷ rs) = ground arith
get_elem?-modify f (suc i) zero (r ∷ rs) = ground arith
get_elem?-modify f (suc i) (suc j) (r ∷ rs) = ground (arith, get_elem?-modify f i j rs)

pub length-modify :
    (f : ShadowRecord → ShadowRecord) (i : ℕ) (rs : List ShadowRecord)
    → length (modify i f rs) ≡ length rs
length-modify f i [] = refl
length-modify f zero (r ∷ rs) = refl
length-modify f (suc i) (r ∷ rs) = omega (arith, length-modify f i rs)

pub get_elem?-append :
    (r : ShadowRecord) (rs : List ShadowRecord) (j : ℕ)
    → get_elem? (rs ++ r ∷ []) j ≡ (if length rs == j then some r else get_elem? rs j)
get_elem?-append r [] zero = refl
get_elem?-append r [] (suc j) = ground arith
get_elem?-append r (x ∷ rs) zero = ground arith
get_elem?-append r (x ∷ rs) (suc j) = ground (arith, get_elem?-append r rs j)

pub count-take_out :
    (a k : ℕ) (l : List ℕ) {i : ℕ} {rest : List ℕ}
    → take_out k l ≡ some (i, rest)
    → count a l ≡ (if i == a then 1 else 0) + count a rest
count-take_out a k [] e = cc
count-take_out a zero (x ∷ l) e = ground arith
count-take_out a (suc k) (x ∷ l) e = elim (Option-cases (take_out k l)) [
  | inl nothing ↦ ground arith
  | inr ((j, others), found) ↦ ground (arith, count-take_out a k l found)
]

get_elem?-lt :
    (rs : List ShadowRecord) (i : ℕ) {r : ShadowRecord} → get_elem? rs i ≡ some r → i < length rs
get_elem?-lt [] i e = cc
get_elem?-lt (x ∷ rs) zero e = omega arith
get_elem?-lt (x ∷ rs) (suc i) e = omega (arith, get_elem?-lt rs i e)

pub current-lt :
    (now : ℕ) (heap : List ShadowRecord) (o : Option ℕ) {i : ℕ}
    → current now heap o ≡ some i
    → i < length heap
current-lt now heap none e = cc
current-lt now heap (some k) e = elim (Option-cases (get_elem? heap k)) [
  | inl nothing ↦ ground arith
  | inr (r, there) ↦ ground (arith, get_elem?-lt heap k there)
]
