-- ===== src/Cache/History.antt =====
-- What a read from `TTLCache` can return (utils/cache.py).
use axon_search.Base.{
  ℕ, ◌+◌, ◌≤◌, ◌<◌, ◌≡◌, refl, ◌∙◌, ◌≢◌, ite, inl, inr, Option, none, some, List, [], ◌∷◌, arith,
  leb, length, Bool-cases, leb→le, Option-cases,
}
use mathlib.Core.Path.{subst, sym}
use mathlib.Core.Option.{none-ne-some}
use axon_search.Base.Dict.{
  Key, lookup, insert, lookup-insert, insert-IsDistinct, lookup-erase_ne, lookup-erase_self,
}
use axon_search.Cache.{Cache, init, move_to_end, get, set, clear}
use axon_search.Cache.Limits.{
  IsValid, lookup-trim, move_to_end-IsDistinct, lookup-move_to_end_self, lookup-move_to_end_ne,
  get-IsValid, set-IsValid,
}

pub data Call {ℓ} (K V : Type ℓ) : Type ℓ where
  read : ℕ → K → Call K V
  write : ℕ → K → V → Call K V
  reset : Call K V

module _ {ℓ} {K V : Type ℓ} ⦃e : Key K⦄ where
  unfoldable pub step : Call K V → Cache K V → Cache K V
  step (read now k) c = (get now k c).1
  step (write now k v) c = set now k v c
  step reset c = clear c

  unfoldable pub run : List (Call K V) → Cache K V → Cache K V
  run [] c = c
  run (x ∷ xs) c = run xs (step x c)

  -- The newest write of `key` that no reset follows, with the time at which it was made.
  unfoldable pub last_write : K → Option (V × ℕ) → List (Call K V) → Option (V × ℕ)
  last_write key found [] = found
  last_write key found (read now k ∷ xs) = last_write key found xs
  last_write key found (write now k v ∷ xs) =
      last_write key (ite (e.dec_eq k key) (some (v, now)) found) xs
  last_write key found (reset ∷ xs) = last_write key none xs

  lookup-get :
      (now : ℕ) (k j : K) (c : Cache K V) (entry : V × ℕ)
      → IsValid c
      → lookup j (get now k c).1.items ≡ some entry
      → lookup j c.items ≡ some entry
  unfolding get
  lookup-get now k j c entry h f = elim (Option-cases (lookup k c.items)) [
    | inl miss ↦ ground arith
    | inr (old, hit) ↦ elim (e.dec_eq k j) [
      | yes same ↦ ground (
        arith,
        lookup-erase_self k c.items h.distinct,
        lookup-move_to_end_self k old c.items h.distinct,
      )
      | no other ↦
          ground
            (arith, lookup-erase_ne k j c.items other, lookup-move_to_end_ne k j old c.items other)
    ]
  ]

  lookup_empty : (k : K) (m : List (K × (V × ℕ))) → length m ≤ 0 → lookup k m ≡ none
  unfolding lookup
  lookup_empty k [] h = refl
  lookup_empty k (x ∷ m) h = absurd (omega arith)

  module _ (now : ℕ) (k : K) (v : V) (c : Cache K V) (h : IsValid c) (live : 0 < c.ttl) where
    abbrev stored : List (K × (V × ℕ))
    stored = insert k (v, now + c.ttl) c.items

    lookup-set_self :
        (entry : V × ℕ) → lookup k (set now k v c).items ≡ some entry → entry ≡ (v, now + c.ttl)
    unfolding set
    lookup-set_self entry f = elim (Bool-cases (leb c.maxsize 0)) [
      | inl off ↦
          let none_there : lookup k c.items ≡ none =
            lookup_empty k c.items (omega (arith, h.bounded, leb→le c.maxsize 0 off)) in
          ground arith
      | inr on ↦ ground (
        arith,
        lookup-trim c.maxsize k entry (move_to_end k (v, now + c.ttl) stored),
        move_to_end-IsDistinct k (v, now + c.ttl) stored,
        insert-IsDistinct k (v, now + c.ttl) c.items h.distinct,
        lookup-move_to_end_self k (v, now + c.ttl) stored,
      )
    ]

    lookup-set_ne :
        (j : K) (entry : V × ℕ)
        → k ≢ j
        → lookup j (set now k v c).items ≡ some entry
        → lookup j c.items ≡ some entry
    unfolding set
    lookup-set_ne j entry ne f = ground (
      arith,
      lookup-trim c.maxsize j entry (move_to_end k (v, now + c.ttl) stored),
      move_to_end-IsDistinct k (v, now + c.ttl) stored,
      insert-IsDistinct k (v, now + c.ttl) c.items h.distinct,
      lookup-move_to_end_ne k j (v, now + c.ttl) stored ne,
      lookup-insert k j (v, now + c.ttl) c.items,
    )

  -- What the entry of `key` says of the newest write.
  record Tracks (key : K) (ttl : ℕ) (found : Option (V × ℕ)) (c : Cache K V) : Type ℓ where
    valid : IsValid c
    same_ttl : c.ttl ≡ ttl
    entry_is :
        (entry : V × ℕ)
        → lookup key c.items ≡ some entry
        → (t : ℕ) × (found ≡ some (entry.0, t)) × (entry.1 ≡ t + ttl)

  ttl-get : (now : ℕ) (k : K) (c : Cache K V) → (get now k c).1.ttl ≡ c.ttl
  unfolding get
  ttl-get now k c = ground arith

  pub ttl-set : (now : ℕ) (k : K) (v : V) (c : Cache K V) → (set now k v c).ttl ≡ c.ttl
  unfolding set
  ttl-set now k v c = ground arith

  clear-IsValid : (c : Cache K V) → IsValid (clear c)
  unfolding clear
  clear-IsValid c = record { bounded = omega arith; distinct = tt }

  module _ (key : K) (ttl : ℕ) (live : 0 < ttl) where
    Tracks-read :
        (now : ℕ) (k : K) (found : Option (V × ℕ)) (c : Cache K V)
        → Tracks key ttl found c
        → Tracks key ttl found (get now k c).1
    Tracks-read now k found c t = record {
      valid = get-IsValid now k c t.valid;
      same_ttl = ttl-get now k c ∙ t.same_ttl;
      entry_is = λ entry f. t.entry_is entry (lookup-get now k key c entry t.valid f);
    }

    Tracks-write :
        (now : ℕ) (k : K) (v : V) (found : Option (V × ℕ)) (c : Cache K V)
        → Tracks key ttl found c
        → Tracks key ttl (ite (e.dec_eq k key) (some (v, now)) found) (set now k v c)
    Tracks-write now k v found c t = record {
      valid = set-IsValid now k v c t.valid;
      same_ttl = ttl-set now k v c ∙ t.same_ttl;
      entry_is = λ entry f. elim (e.dec_eq k key) [
        | yes same ↦
            let here : lookup k (set now k v c).items ≡ some entry =
              subst (λ x. lookup x (set now k v c).items ≡ some entry) (sym same) f in
            let is : entry ≡ (v, now + c.ttl) =
              lookup-set_self now k v c t.valid (omega (arith, t.same_ttl)) entry here in
            (now, ground arith, ground (arith, t.same_ttl))
        | no other ↦
            let (at, e₁, e₂) =
              t.entry_is entry
                (lookup-set_ne now k v c t.valid (omega (arith, t.same_ttl)) key entry other f) in
            (at, ground arith, e₂)
      ];
    }

    Tracks-reset :
        (found : Option (V × ℕ)) (c : Cache K V)
        → Tracks key ttl found c
        → Tracks key ttl none (clear c)
    unfolding clear lookup
    Tracks-reset found c t = record {
      valid = clear-IsValid c;
      same_ttl = t.same_ttl;
      entry_is = λ entry f. absurd (none-ne-some entry f);
    }

    Tracks-run :
        (calls : List (Call K V)) (found : Option (V × ℕ)) (c : Cache K V)
        → Tracks key ttl found c
        → Tracks key ttl (last_write key found calls) (run calls c)
    unfolding last_write run step
    Tracks-run [] found c t = t
    Tracks-run (read now k ∷ xs) found c t = Tracks-run xs _ _ (Tracks-read now k found c t)
    Tracks-run (write now k v ∷ xs) found c t = Tracks-run xs _ _ (Tracks-write now k v found c t)
    Tracks-run (reset ∷ xs) found c t = Tracks-run xs _ _ (Tracks-reset found c t)

  get-some :
      (now : ℕ) (key : K) (c : Cache K V) (v : V)
      → (get now key c).0 ≡ some v
      → (t : ℕ) × (lookup key c.items ≡ some (v, t)) × (now ≤ t) × (0 < c.ttl)
  unfolding get
  get-some now key c v h = elim (Option-cases (lookup key c.items)) [
    | inl miss ↦ absurd (ground arith)
    | inr ((w, t), hit) ↦ (t, ground arith, ground arith, ground arith)
  ]

  ttl-run : (calls : List (Call K V)) (c : Cache K V) → (run calls c).ttl ≡ c.ttl
  unfolding run step clear
  ttl-run [] c = refl
  ttl-run (read now k ∷ xs) c = ttl-run xs _ ∙ ttl-get now k c
  ttl-run (write now k v ∷ xs) c = ttl-run xs _ ∙ ttl-set now k v c
  ttl-run (reset ∷ xs) c = ttl-run xs _

  init-Tracks : (key : K) (maxsize ttl : ℕ) → Tracks key ttl none (init {V = V} maxsize ttl)
  unfolding init lookup
  init-Tracks key maxsize ttl = record {
    valid = record { bounded = omega arith; distinct = tt };
    same_ttl = refl;
    entry_is = λ entry f. absurd (none-ne-some entry f);
  }

  -- Whatever calls were made before, in any order: a value that `get` returns is the newest one
  -- written under that key, no `clear` came after it, and it is at most `ttl` old.
  pub get-last_write :
      (maxsize ttl : ℕ) (calls : List (Call K V)) (now : ℕ) (key : K) (v : V)
      → (get now key (run calls (init maxsize ttl))).0 ≡ some v
      → (t : ℕ) × (last_write key none calls ≡ some (v, t)) × (now ≤ t + ttl)
  unfolding init
  get-last_write maxsize ttl calls now key v h =
      let (expires, found, fresh, on) = get-some now key (run calls (init maxsize ttl)) v h in
      let live : 0 < ttl = omega (arith, ttl-run calls (init {V = V} maxsize ttl)) in
      let t = Tracks-run key ttl live calls none _ (init-Tracks key maxsize ttl) in
      let (at, newest, e) = t.entry_is (v, expires) found in (at, newest, omega (arith, e, fresh))
