-- ===== src/Gateway/Cache.antt =====
-- The LRU caches of gateway/server.ts: the package `lru-cache` as a parameter, with what its
-- documentation says of the calls that the handlers make. An entry is there until its time to live
-- is over, unless it is deleted or gives way to others; a cache may lose any entry but the one that
-- is set. `get` marks an entry as used, which `touch` stands for, and `has` does not.
pub mod Dict
use x402_health_oracle.Prelude.{
  ℕ, ◌+◌, ◌≤◌, ◌≡◌, ◌≢◌, ◌⊎◌, Bool, Option, none, some, Text, text_Eq, ◌===◌, if◌then◌else◌,
}
use x402_health_oracle.Prelude.Dict.{is_some}

abbrev pub change {ℓ} : {V : Type ℓ} → (V → V) → Option V → Option V
change f none = none
change f (some v) = some (f v)

pub record Cache : Type 1 where
  pub Store : Type 0 → Type 0
  -- The time to live that the cache was made with.
  pub ttl : {V : Type 0} → Store V → ℕ
  pub get : {V : Type 0} → Store V → Text → ℕ → Option V
  pub touch : {V : Type 0} → Store V → Text → ℕ → Store V
  pub set : {V : Type 0} → Store V → Text → V → ℕ → Store V
  -- A change of the object that stands at a key; the cache does not see it.
  pub mutate : {V : Type 0} → Store V → Text → (V → V) → Store V
  pub delete : {V : Type 0} → Store V → Text → Store V
  pub clear : {V : Type 0} → Store V → Store V

abbrev pub has : (c : Cache) {V : Type 0} → c.Store V → Text → ℕ → Bool
has c s key now = is_some (c.get s key now)

pub record IsCache (c : Cache) : Type 1 where
  -- A value that is set is found until its time is over.
  pub get-set_self :
      {V : Type 0} (s : c.Store V) (k : Text) (v : V) (t u : ℕ)
      → t ≤ u
      → u ≤ t + c.ttl s
      → c.get (c.set s k v t) k u ≡ some v
  -- Under its own key nothing but that value is found, at whatever time.
  pub get-set_or :
      {V : Type 0} (s : c.Store V) (k : Text) (v : V) (t u : ℕ)
      → (c.get (c.set s k v t) k u ≡ some v) ⊎ (c.get (c.set s k v t) k u ≡ none)
  -- A call of `set` may cost another entry its place, and changes nothing else of it.
  pub get-set_ne :
      {V : Type 0} (s : c.Store V) (k j : Text) (v : V) (t u : ℕ)
      → k ≢ j
      → (c.get (c.set s k v t) j u ≡ c.get s j u) ⊎ (c.get (c.set s k v t) j u ≡ none)
  pub get-touch :
      {V : Type 0} (s : c.Store V) (k j : Text) (t u : ℕ) → c.get (c.touch s k t) j u ≡ c.get s j u
  pub get-mutate :
      {V : Type 0} (s : c.Store V) (k j : Text) (f : V → V) (u : ℕ)
      → c.get (c.mutate s k f) j u ≡ (if k === j then change f (c.get s j u) else c.get s j u)
  pub get-delete :
      {V : Type 0} (s : c.Store V) (k j : Text) (u : ℕ)
      → c.get (c.delete s k) j u ≡ (if k === j then none else c.get s j u)
  pub get-clear : {V : Type 0} (s : c.Store V) (j : Text) (u : ℕ) → c.get (c.clear s) j u ≡ none
  pub ttl-set :
      {V : Type 0} (s : c.Store V) (k : Text) (v : V) (t : ℕ) → c.ttl (c.set s k v t) ≡ c.ttl s
  pub ttl-touch : {V : Type 0} (s : c.Store V) (k : Text) (t : ℕ) → c.ttl (c.touch s k t) ≡ c.ttl s
