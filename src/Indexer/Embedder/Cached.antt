-- ===== src/Indexer/Embedder/Cached.antt =====
-- The cache of query embeddings (indexer/embedder.py).
use axon_search.Base.{
  ℕ, ◌≤◌, ◌≡◌, ◌≢◌, refl, sym, ap, ◌∙◌, inl, inr, true, false, some, List, [], ◌∷◌, map, arith, leb,
  length, All, In, Bool-cases, Option-cases, if_pos, if_neg, ite, leb→lt, ◌<◌,
}
use mathlib.Core.Path.{subst}
use mathlib.Core.Option.{none-ne-some, some-injective}
use axon_search.Base.Dict.{
  lookup, insert, IsDistinct, lookup-insert, insert-IsDistinct, length-insert, lookup_of_tail,
}
use axon_search.Base.Text.{Text, Text-discrete, str_key}
use axon_search.Indexer.Embedder.{
  Model, Embedder, drop_first, init, encode_one, store_query, encode_query, encode_queries,
}

cons_same : {A : Type 0} {x y : A} {xs ys : List A} → x ≡ y → xs ≡ ys → x ∷ xs ≡ y ∷ ys
cons_same {x = x} {ys = ys} e es = ap (◌∷◌ x) es ∙ ap (λ z. z ∷ ys) e

all_asked : {A : Type 0} {P : A → Type 0} (xs : List A) → ((x : A) → In x xs → P x) → All P xs
all_asked [] h = tt
all_asked (x ∷ xs) h = (h x (inl refl), all_asked xs (λ y i. h y (inr i)))

module _ {Vector Float : Type 0} (model : Model Vector Float) (asked : List Text) (size : ℕ) where
  -- What the entries of the cache say of the queries that are asked.
  abbrev AreVectors : List (Text × Vector) → Type 0
  AreVectors m =
      (query : Text)
      → In query asked
      → (vec : Vector) → lookup (model.digest query) m ≡ some vec
      → vec ≡ encode_one model true query

  pub record IsFaithful (e : Embedder Vector) : Type 0 where
    pub vectors : AreVectors e.query_cache
    pub sized : e.cache_size ≡ size
    pub bounded : length e.query_cache ≤ size
    pub distinct : IsDistinct e.query_cache

  -- No two of the queries have one digest.
  abbrev pub IsInjective : Type 0
  IsInjective = (a b : Text) → In a asked → In b asked → model.digest a ≡ model.digest b → a ≡ b

  drop_first-AreVectors :
      (m : List (Text × Vector)) → IsDistinct m → AreVectors m → AreVectors (drop_first m)
  drop_first-AreVectors [] d h = h
  drop_first-AreVectors ((k, v) ∷ m) d h =
      λ query here vec e. h query here vec (lookup_of_tail (model.digest query) k v m vec d e)

  drop_first-IsDistinct : (m : List (Text × Vector)) → IsDistinct m → IsDistinct (drop_first m)
  drop_first-IsDistinct [] d = tt
  drop_first-IsDistinct ((k, v) ∷ m) d = d.1

  length-drop_first :
      (m : List (Text × Vector)) (n : ℕ) → 0 < n → length m ≤ n → length (drop_first m) < n
  length-drop_first [] n p h = p
  length-drop_first ((k, v) ∷ m) n p h = omega (arith, h)

  insert-AreVectors :
      IsInjective
      → (query : Text) → In query asked
      → (m : List (Text × Vector)) → AreVectors m
      → AreVectors (insert (model.digest query) (encode_one model true query) m)
  insert-AreVectors inj query here m h other there vec e =
      let v = encode_one model true query in
      let found = sym e ∙ lookup-insert (model.digest query) (model.digest other) v m in
      let decided = Text-discrete (model.digest query) (model.digest other) in
      let kept = lookup (model.digest other) m in
      let chosen : (same : model.digest query ≡ model.digest other)
          → ite decided (some v) kept ≡ some v =
        λ same. if_pos decided same (some v) kept in
      let passed : (other_key : model.digest query ≢ model.digest other)
          → ite decided (some v) kept ≡ kept =
        λ other_key. if_neg decided other_key (some v) kept in
      elim decided [
        | yes same ↦
            some-injective vec v (found ∙ chosen same)
            ∙ ap (encode_one model true) (inj query other here there same)
        | no other_key ↦ h other there vec (sym (found ∙ passed other_key))
      ]

  insert-IsFaithful :
      IsInjective
      → (query : Text) → In query asked
      → (m : List (Text × Vector)) → AreVectors m
      → length m < size
      → IsDistinct m
      → IsFaithful (record {
        cache_size = size;
        query_cache = insert (model.digest query) (encode_one model true query) m;
      })
  insert-IsFaithful inj query here m h short d =
      let key = model.digest query in
      let v = encode_one model true query in
      record {
        vectors = insert-AreVectors inj query here m h;
        sized = refl;
        bounded = ground (arith, length-insert key v m);
        distinct = insert-IsDistinct key v m d;
      }

  store_query-IsFaithful :
      IsInjective
      → (query : Text) → In query asked
      → (cache : List (Text × Vector)) → leb size 0 ≡ false
      → IsFaithful (record { cache_size = size; query_cache = cache })
      → IsFaithful (
          store_query model
            (model.digest query)
            (encode_one model true query)
            (record { cache_size = size; query_cache = cache }))
  unfolding store_query
  store_query-IsFaithful inj query here cache room h = elim (Bool-cases (leb size (length cache))) [
    | inl full ↦ rw full (
        insert-IsFaithful inj query here (drop_first cache)
          (drop_first-AreVectors cache h.distinct h.vectors)
          (length-drop_first cache size (leb→lt _ _ room) h.bounded)
          (drop_first-IsDistinct cache h.distinct))
    | inr space ↦
        rw space (insert-IsFaithful inj query here cache h.vectors (leb→lt _ _ space) h.distinct)
  ]

  -- The same for an embedder whose size is `size` only by an equation.
  stored-IsFaithful :
      IsInjective
      → (query : Text) → In query asked
      → (e : Embedder Vector) → leb e.cache_size 0 ≡ false
      → IsFaithful e
      → IsFaithful (store_query model (model.digest query) (encode_one model true query) e)
  stored-IsFaithful inj query here e room h =
      let store = store_query model (model.digest query) (encode_one model true query) in
      let same : e ≡ record { cache_size = size; query_cache = e.query_cache } =
        ap (λ n. record e { cache_size = n }) h.sized in
      subst (λ x. IsFaithful (store x)) (sym same)
        (store_query-IsFaithful inj query here e.query_cache
          (sym (ap (λ n. leb n 0) h.sized) ∙ room) (subst IsFaithful same h))

  encode_query-IsFaithful :
      IsInjective
      → (query : Text) → In query asked
      → (e : Embedder Vector) → IsFaithful e
      → ((encode_query model query e).0 ≡ encode_one model true query)
        × IsFaithful (encode_query model query e).1
  unfolding encode_query
  encode_query-IsFaithful inj query here e h = elim (Bool-cases (leb e.cache_size 0)) [
    | inl off ↦ rw off (refl, h)
    | inr on ↦ elim (Option-cases (lookup (model.digest query) e.query_cache)) [
      | inl missing ↦ rw (on, missing) (refl, stored-IsFaithful inj query here e on h)
      | inr (vec, found) ↦ rw (on, found) (h.vectors query here vec found, h)
    ]
  ]

  run-IsFaithful :
      IsInjective
      → (queries : List Text) → All (λ q. In q asked) queries
      → (e : Embedder Vector) → IsFaithful e
      → ((encode_queries model queries e).0 ≡ map (encode_one model true) queries)
        × IsFaithful (encode_queries model queries e).1
  unfolding encode_queries
  run-IsFaithful inj [] all e h = (refl, h)
  run-IsFaithful inj (query ∷ queries) all e h =
      let (same, h') = encode_query-IsFaithful inj query all.0 e h in
      let (rest, h'') = run-IsFaithful inj queries all.1 (encode_query model query e).1 h' in
      (cons_same same rest, h'')

module _ {Vector Float : Type 0} (model : Model Vector Float) where
  -- Any queries that follow each other on a new embedder get the vectors that encoding each of them
  -- afresh gives, and the cache never holds more entries than its size, where no two of the queries
  -- have one digest.
  pub encode_queries-refines :
      (cache_size : ℕ) (queries : List Text)
      → IsInjective model queries cache_size
      → let (vecs, e) = encode_queries model queries (init model cache_size) in
        (vecs ≡ map (encode_one model true) queries) × (length e.query_cache ≤ cache_size)
  unfolding init lookup
  encode_queries-refines cache_size queries inj =
      let start : IsFaithful model queries cache_size
          (record { cache_size = cache_size; query_cache = [] }) =
        record {
          vectors = λ query here vec e. absurd (none-ne-some _ e);
          sized = refl;
          bounded = omega arith;
          distinct = tt;
        } in
      let (same, h) =
        run-IsFaithful model queries cache_size inj queries (all_asked queries (λ x i. i)) _
          start in
      (same, h.bounded)
