-- ===== src/Cache/Eviction.antt =====
-- What a write to `TTLCache` leaves behind (utils/cache.py).
use axon_search.Base.{
  ℕ, suc, ◌+◌, ◌<◌, ◌≡◌, refl, ap, inl, inr, none, some, List, [], ◌∷◌, ◌++◌, arith, leb,
  if◌then◌else◌, length, Bool-cases, leb→le, lt→ltb, ltb_flip, length-append,
}
use axon_search.Base.Dict.{
  Key, lookup, insert, erase, insert-IsDistinct, lookup-erase_self, lookup-append,
}
use axon_search.Cache.{Cache, trim, move_to_end, get, set}
use axon_search.Cache.History.{ttl-set}
use axon_search.Cache.Limits.{IsValid, trim_fits}

module _ {ℓ} {K V : Type ℓ} ⦃e : Key K⦄ where
  -- The newest entry survives the trim.
  lookup-trim_last :
      (n : ℕ) (k : K) (v : V) (m : List (K × V))
      → 0 < n
      → lookup k m ≡ none
      → lookup k (trim n (m ++ (k, v) ∷ [])) ≡ some v
  unfolding trim lookup
  lookup-trim_last n k v [] pos h = ground arith
  lookup-trim_last n k v ((i, w) ∷ m) pos h =
      ground (arith, lookup-trim_last n k v m pos, lookup-append k m ((k, v) ∷ []))

  insert_absent :
      (k : K) (v : V) (m : List (K × V)) → lookup k m ≡ none → insert k v m ≡ m ++ (k, v) ∷ []
  unfolding lookup insert
  insert_absent k v [] h = refl
  insert_absent k v ((i, w) ∷ m) h = ground (arith, insert_absent k v m)

  erase_last :
      (k : K) (v : V) (m : List (K × V)) → lookup k m ≡ none → erase k (m ++ (k, v) ∷ []) ≡ m
  unfolding lookup erase
  erase_last k v [] h = ground arith
  erase_last k v ((i, w) ∷ m) h = ground (arith, erase_last k v m)

  get_hit :
      (now : ℕ) (k : K) (c : Cache K V) (v : V) (t : ℕ)
      → lookup k c.items ≡ some (v, t)
      → 0 < c.ttl
      → (get now k c).0 ≡ (if leb now t then some v else none)
  unfolding get
  get_hit now k c v t f on = elim (Bool-cases (leb c.ttl 0)) [
    | inl off ↦ absurd (omega (arith, leb→le c.ttl 0 off))
    | inr live ↦ elim (Bool-cases (leb now t)) [
      | inl fresh ↦ rw (live, f, ltb_flip t now, fresh)
      | inr stale ↦ rw (live, f, ltb_flip t now, stale)
    ]
  ]

  trim_one : (n : ℕ) (x : K × V) (xs : List (K × V)) → length xs ≡ n → trim n (x ∷ xs) ≡ xs
  unfolding trim
  trim_one n x xs h = rw (lt→ltb n (suc (length xs)) (omega arith)) (trim_fits n xs (omega arith))

module _ {ℓ} {K V : Type ℓ} ⦃e : Key K⦄ (now : ℕ) (key : K) (value : V) (c : Cache K V) where
  abbrev entry : V × ℕ
  entry = (value, now + c.ttl)

  items-set :
      0 < c.ttl
      → 0 < c.maxsize
      → (set now key value c).items
        ≡ trim c.maxsize (move_to_end key entry (insert key entry c.items))
  unfolding set
  items-set on room = elim (Bool-cases (leb c.ttl 0)) [
    | inl off ↦ absurd (omega (arith, leb→le c.ttl 0 off))
    | inr live ↦ elim (Bool-cases (leb c.maxsize 0)) [
      | inl off ↦ absurd (omega (arith, leb→le c.maxsize 0 off))
      | inr roomy ↦ rw (live, roomy)
    ]
  ]

  lookup-set_found :
      IsValid c → 0 < c.ttl → 0 < c.maxsize → lookup key (set now key value c).items ≡ some entry
  unfolding move_to_end
  lookup-set_found h on room =
      let m = insert key entry c.items in
      rw (items-set on room) (
        lookup-trim_last c.maxsize key entry (erase key m) room
          (lookup-erase_self key m (insert-IsDistinct key entry c.items h.distinct)))

  -- A `get` of the key just written returns the value until `ttl` ticks have gone by, and
  -- nothing from then on, provided that the cache is switched on.
  pub get-set :
      (later : ℕ)
      → IsValid c
      → 0 < c.ttl
      → 0 < c.maxsize
      → (get later key (set now key value c)).0
        ≡ (if leb later (now + c.ttl) then some value else none)
  get-set later h on room =
      get_hit later key (set now key value c) value (now + c.ttl) (lookup-set_found h on room)
        (omega (arith, ttl-set now key value c))

  -- On a full cache a write under a new key drops exactly the least recently used entry and puts
  -- the new one last; the times at which the entries expire do not matter.
  pub set-items_full :
      (lru : K × (V × ℕ)) (rest : List (K × (V × ℕ)))
      → c.items ≡ lru ∷ rest
      → length c.items ≡ c.maxsize
      → lookup key c.items ≡ none
      → 0 < c.ttl
      → (set now key value c).items ≡ rest ++ (key, (value, now + c.ttl)) ∷ []
  unfolding move_to_end
  set-items_full lru rest is full new on =
      let room : 0 < c.maxsize = omega (arith, ap length is) in
      rw
        (
          items-set on room,
          insert_absent key entry c.items new,
          erase_last key entry c.items new,
          is,
        )
        (trim_one c.maxsize lru (rest ++ (key, entry) ∷ [])
          (omega (arith, ap length is, length-append {ℓ} rest ((key, entry) ∷ []))))
