-- ===== src/Cache/Limits.antt =====
-- The size bound of `TTLCache` and what it evicts (utils/cache.py).
use axon_search.Base.{
  ℕ, ◌+◌, ◌≤◌, ◌≡◌, refl, ◌≢◌, inl, inr, some, List, [], ◌∷◌, arith, length, Option-cases,
  length-append,
}
use axon_search.Base.Dict.{
  Key, lookup, insert, erase, IsDistinct, insert-IsDistinct, lookup-erase_ne, lookup-erase_self,
  erase-IsDistinct, length-erase, lookup-append, snoc-IsDistinct,
}
use axon_search.Cache.{Cache, trim, move_to_end, get, set}

length-trim-le {ℓ} : {A : Type ℓ} (n : ℕ) (xs : List A) → length (trim n xs) ≤ n
unfolding trim
length-trim-le n [] = omega arith
length-trim-le n (x ∷ xs) = ground (arith, length-trim-le n xs)

pub trim_fits {ℓ} : {A : Type ℓ} (n : ℕ) (xs : List A) → length xs ≤ n → trim n xs ≡ xs
unfolding trim
trim_fits n [] h = refl
trim_fits n (x ∷ xs) h = ground arith

module _ {ℓ} {K V : Type ℓ} ⦃e : Key K⦄ where
  pub record IsValid (c : Cache K V) : Type ℓ where
    pub bounded : length c.items ≤ c.maxsize
    pub distinct : IsDistinct c.items

  trim-IsDistinct : (n : ℕ) (m : List (K × V)) → IsDistinct m → IsDistinct (trim n m)
  unfolding trim
  trim-IsDistinct n [] h = h
  trim-IsDistinct n ((k, v) ∷ m) h = ground (arith, trim-IsDistinct n m h.1)

  pub lookup-trim :
      (n : ℕ) (k : K) (v : V) (m : List (K × V))
      → IsDistinct m
      → lookup k (trim n m) ≡ some v
      → lookup k m ≡ some v
  unfolding trim lookup
  lookup-trim n k v [] h f = f
  lookup-trim n k v ((i, w) ∷ m) h f = ground (arith, lookup-trim n k v m h.1)

  pub move_to_end-IsDistinct :
      (k : K) (v : V) (m : List (K × V)) → IsDistinct m → IsDistinct (move_to_end k v m)
  unfolding move_to_end
  move_to_end-IsDistinct k v m h =
      snoc-IsDistinct k v (erase k m) (erase-IsDistinct k m h) (lookup-erase_self k m h)

  pub lookup-move_to_end_self :
      (k : K) (v : V) (m : List (K × V)) → IsDistinct m → lookup k (move_to_end k v m) ≡ some v
  unfolding move_to_end lookup
  lookup-move_to_end_self k v m h =
      ground (arith, lookup-append k (erase k m) ((k, v) ∷ []), lookup-erase_self k m h)

  pub lookup-move_to_end_ne :
      (k j : K) (v : V) (m : List (K × V)) → k ≢ j → lookup j (move_to_end k v m) ≡ lookup j m
  unfolding move_to_end lookup
  lookup-move_to_end_ne k j v m h =
      ground (arith, lookup-append j (erase k m) ((k, v) ∷ []), lookup-erase_ne k j m h)

  length-move_to_end :
      (k : K) (v : V) (m : List (K × V)) (w : V)
      → lookup k m ≡ some w
      → length (move_to_end k v m) ≡ length m
  unfolding move_to_end
  length-move_to_end k v m w h =
      ground (arith, length-append (erase k m) ((k, v) ∷ []), length-erase k m)

module _ {ℓ} {K V : Type ℓ} ⦃e : Key K⦄ where
  -- `get` keeps the bound on the size and the distinctness of the keys, whatever it finds.
  pub get-IsValid : (now : ℕ) (key : K) (c : Cache K V) → IsValid c → IsValid (get now key c).1
  unfolding get
  get-IsValid now key c h = elim (Option-cases (lookup key c.items)) [
    | inl miss ↦ ground arith
    | inr (entry, hit) ↦ record {
      bounded =
          ground (arith, length-erase key c.items, length-move_to_end key entry c.items entry hit);
      distinct = ground (
        arith,
        erase-IsDistinct key c.items h.distinct,
        move_to_end-IsDistinct key entry c.items h.distinct,
      );
    }
  ]

  -- `set` keeps them too: never more than `maxsize` entries, never a key twice.
  pub set-IsValid :
      (now : ℕ) (key : K) (value : V) (c : Cache K V) → IsValid c → IsValid (set now key value c)
  unfolding set
  set-IsValid now key value c h =
      let m = insert key (value, now + c.ttl) c.items in
      ground (
        arith,
        length-trim-le c.maxsize (move_to_end key (value, now + c.ttl) m),
        trim-IsDistinct c.maxsize (move_to_end key (value, now + c.ttl) m),
        move_to_end-IsDistinct key (value, now + c.ttl) m,
        insert-IsDistinct key (value, now + c.ttl) c.items h.distinct,
      )
