-- ===== src/Gateway/Cache/Dict.antt =====
-- A cache of which the laws hold: the entries from the least to the most recently used, at most
-- `max` of them, each with the time at which it was set.
use x402_health_oracle.Prelude.{
  ℕ, ◌+◌, ◌≡◌, refl, ◌≢◌, ◌⊎◌, inl, inr, Option, none, some, [], ◌∷◌, arith, leb, length, Text,
  text_Eq, ◌===◌, if◌then◌else◌, Bool-cases,
}
use x402_health_oracle.Prelude.Dict.{
  Dict, get, put, remove, get-put, get-put_self, get-put_ne, get-remove,
}
use x402_health_oracle.Gateway.Cache.{Cache, IsCache, change}

pub record LruStore (V : Type 0) : Type 0 where
  pub max : ℕ
  pub ttl : ℕ
  pub entries : Dict Text (V × ℕ)

module _ {V : Type 0} where
  abbrev live : ℕ → ℕ → Option (V × ℕ) → Option V
  live ttl now none = none
  live ttl now (some (v, start)) = if leb now (start + ttl) then some v else none

  abbrev drop_first : Dict Text (V × ℕ) → Dict Text (V × ℕ)
  drop_first [] = []
  drop_first ((k, e) ∷ m) = remove k ((k, e) ∷ m)

  abbrev use_again : Text → Option (V × ℕ) → Dict Text (V × ℕ) → Dict Text (V × ℕ)
  use_again key none m = m
  use_again key (some e) m = put key e (remove key m)

  abbrev apply_at : (V → V) → Option (V × ℕ) → Text → Dict Text (V × ℕ) → Dict Text (V × ℕ)
  apply_at f none key m = m
  apply_at f (some (v, start)) key m = put key (f v, start) m

  abbrev make_room : ℕ → Dict Text (V × ℕ) → Dict Text (V × ℕ)
  make_room max m = if leb max (length m) then drop_first m else m

abbrev pub lru : Cache
lru = record {
  Store = LruStore;
  ttl = λ s. s.ttl;
  get = λ s key now. live s.ttl now (get key s.entries);
  touch = λ s key now. record s { entries = use_again key (get key s.entries) s.entries };
  set = λ s key v now. record s {
    entries = put key (v, now) (make_room s.max (remove key s.entries));
  };
  mutate = λ s key f. record s { entries = apply_at f (get key s.entries) key s.entries };
  delete = λ s key. record s { entries = remove key s.entries };
  clear = λ s. record s { entries = [] };
}

module _ {V : Type 0} where
  get-drop_first :
      (j : Text) (m : Dict Text (V × ℕ))
      → (get j (drop_first m) ≡ get j m) ⊎ (get j (drop_first m) ≡ none)
  get-drop_first j [] = inl refl
  get-drop_first j ((k, e) ∷ m) = ground (arith, get-remove k j ((k, e) ∷ m))

  get-make_room :
      (max : ℕ) (j : Text) (m : Dict Text (V × ℕ))
      → (get j (make_room max m) ≡ get j m) ⊎ (get j (make_room max m) ≡ none)
  get-make_room max j m = elim (Bool-cases (leb max (length m))) [
    | inl full ↦ rw full (get-drop_first j m)
    | inr room ↦ rw room (inl refl)
  ]

  get-use_again :
      (k j : Text) (m : Dict Text (V × ℕ)) (o : Option (V × ℕ))
      → get k m ≡ o
      → get j (use_again k o m) ≡ get j m
  get-use_again k j m none h = refl
  get-use_again k j m (some e) h =
      ground (arith, text_Eq.eq_correct k j, get-put k j e (remove k m), get-remove k j m)

  live-apply_at :
      (ttl now : ℕ) (f : V → V) (k j : Text) (m : Dict Text (V × ℕ)) (o : Option (V × ℕ))
      → get k m ≡ o
      → live ttl now (get j (apply_at f o k m))
        ≡ (if k === j then change f (live ttl now (get j m)) else live ttl now (get j m))
  live-apply_at ttl now f k j m none h = ground (arith, text_Eq.eq_correct k j)
  live-apply_at ttl now f k j m (some (v, start)) h =
      ground (arith, text_Eq.eq_correct k j, get-put k j (f v, start) m)

  live-set_ne :
      (ttl now max : ℕ) (k j : Text) (e : V × ℕ) (m : Dict Text (V × ℕ))
      → k ≢ j
      → (live ttl now (get j (put k e (make_room max (remove k m)))) ≡ live ttl now (get j m))
        ⊎ (live ttl now (get j (put k e (make_room max (remove k m)))) ≡ none)
  live-set_ne ttl now max k j e m ne = ground (
    arith,
    text_Eq.eq_correct k j,
    get-put_ne k j e (make_room max (remove k m)) ne,
    get-make_room max j (remove k m),
    get-remove k j m,
  )

pub lru-IsCache : IsCache lru
lru-IsCache = record {
  get-set_self = λ s k v t u h h'.
      ground (arith, get-put_self k (v, t) (make_room s.max (remove k s.entries)));
  get-set_or =
      λ s k v t u. ground (arith, get-put_self k (v, t) (make_room s.max (remove k s.entries)));
  get-set_ne = λ s k j v t u ne. live-set_ne s.ttl u s.max k j (v, t) s.entries ne;
  get-touch = λ s k j t u. rw (get-use_again k j s.entries (get k s.entries) refl);
  get-mutate = λ s k j f u. live-apply_at s.ttl u f k j s.entries (get k s.entries) refl;
  get-delete = λ s k j u. ground (arith, get-remove k j s.entries);
  get-clear = λ s j u. refl;
  ttl-set = λ s k v t. refl;
  ttl-touch = λ s k t. refl;
}
