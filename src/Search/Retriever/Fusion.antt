-- ===== src/Search/Retriever/Fusion.antt =====
-- Which documents `_rrf_fuse` returns (search/hybrid_retriever.py).
use axon_search.Base.{
  ℕ, suc, All, ◌≢◌, ◌≡◌, refl, sym, ap, ◌∙◌, ◌⊎◌, inl, inr, none, some, List, [], ◌∷◌, map, arith,
  In, if_pos, if_neg,
}
use native.Mathlib.Decide.{ℕ_discrete}
use mathlib.Core.Option.{none-ne-some}
use mathlib.Core.Path.{subst}
use axon_search.Base.Dict.{nat_key, lookup, insert, IsDistinct, insert-IsDistinct}
use axon_search.Base.Floats.{Floats}
use axon_search.Indexer.Collect.{IsNodup}
use axon_search.Search.Retriever.{
  Hit, Fused, SearchResult, Weights, add_score, fuse_bm25, fuse_dense, fuse_all, no_hits, result_of,
  rrf_fuse,
}

abbrev pub keys : {A : Type 0} → List (ℕ × A) → List ℕ
keys [] = []
keys ((k, x) ∷ m) = k ∷ keys m

keys-insert :
    {A : Type 0} (i k : ℕ) (v : A) (m : List (ℕ × A))
    → In i (keys (insert k v m))
    → (i ≡ k) ⊎ In i (keys m)
unfolding insert
keys-insert i k v [] h = h
keys-insert i k v ((j, w) ∷ m) h = ground (arith, keys-insert i k v m)

insert-keys :
    {A : Type 0} (i k : ℕ) (v : A) (m : List (ℕ × A))
    → (i ≡ k) ⊎ In i (keys m)
    → In i (keys (insert k v m))
unfolding insert
insert-keys i k v [] h = h
insert-keys i k v ((j, w) ∷ m) h = ground (arith, insert-keys i k v m)

pub In-map :
    {A B : Type 0} (g : A → B) (b : B) (xs : List A)
    → In b (map g xs)
    → (a : A) × In a xs × (b ≡ g a)
In-map g b [] i = absurd i
In-map g b (x ∷ xs) (inl e) = (x, inl refl, e)
In-map g b (x ∷ xs) (inr i) = let (a, at, e) = In-map g b xs i in (a, inr at, e)

pub map-In : {A B : Type 0} (g : A → B) (a : A) (xs : List A) → In a xs → In (g a) (map g xs)
map-In g a (x ∷ xs) (inl e) = inl (ap g e)
map-In g a (x ∷ xs) (inr i) = inr (map-In g a xs i)
map-In g a [] i = absurd i

keys-In : {A : Type 0} (k : ℕ) (m : List (ℕ × A)) → In k (keys m) → (x : A) × In (k, x) m
keys-In k [] i = absurd i
keys-In k ((j, x) ∷ m) (inl e) = (x, inl (ap (λ n. (n, x)) e))
keys-In k ((j, x) ∷ m) (inr i) = let (y, at) = keys-In k m i in (y, inr at)

In-keys : {A : Type 0} (p : ℕ × A) (m : List (ℕ × A)) → In p m → In p.0 (keys m)
In-keys p [] i = absurd i
In-keys p ((j, x) ∷ m) (inl e) = inl (ap (λ q. q.0) e)
In-keys p ((j, x) ∷ m) (inr i) = inr (In-keys p m i)

-- The documents of a list of hits.
module _ (f : Floats) where
  abbrev pub hit_ids : List (Hit f) → List ℕ
  hit_ids [] = []
  hit_ids (hit ∷ hits) = hit.0 ∷ hit_ids hits

module _ (f : Floats) where
  open f use {Float}

  fuse_bm25-keys :
      (w : Float) (rank : ℕ) (hits : List (Hit f)) (m : Fused f) (k : ℕ)
      → In k (keys (fuse_bm25 f w rank hits m).scores)
      → In k (hit_ids f hits) ⊎ In k (keys m.scores)
  unfolding fuse_bm25 add_score
  fuse_bm25-keys w rank [] m k i = inr i
  fuse_bm25-keys w rank ((d, s, meta) ∷ hits) m k i =
      elim (fuse_bm25-keys w (suc rank) hits _ k i) [
        | inl later ↦ inl (inr later)
        | inr now ↦ elim (keys-insert k d _ m.scores now) [
          | inl e ↦ inl (inl e)
          | inr old ↦ inr old
        ]
      ]

  keys-fuse_bm25 :
      (w : Float) (rank : ℕ) (hits : List (Hit f)) (m : Fused f) (k : ℕ)
      → In k (hit_ids f hits) ⊎ In k (keys m.scores)
      → In k (keys (fuse_bm25 f w rank hits m).scores)
  unfolding fuse_bm25 add_score
  keys-fuse_bm25 w rank [] m k (inl i) = absurd i
  keys-fuse_bm25 w rank [] m k (inr i) = i
  keys-fuse_bm25 w rank ((d, s, meta) ∷ hits) m k (inl (inl e)) =
      keys-fuse_bm25 w (suc rank) hits _ k (inr (insert-keys k d _ m.scores (inl e)))
  keys-fuse_bm25 w rank ((d, s, meta) ∷ hits) m k (inl (inr i)) =
      keys-fuse_bm25 w (suc rank) hits _ k (inl i)
  keys-fuse_bm25 w rank ((d, s, meta) ∷ hits) m k (inr i) =
      keys-fuse_bm25 w (suc rank) hits _ k (inr (insert-keys k d _ m.scores (inr i)))

  fuse_dense-keys :
      (w : Float) (rank : ℕ) (hits : List (Hit f)) (m : Fused f) (k : ℕ)
      → In k (keys (fuse_dense f w rank hits m).scores)
      → In k (hit_ids f hits) ⊎ In k (keys m.scores)
  unfolding fuse_dense add_score
  fuse_dense-keys w rank [] m k i = inr i
  fuse_dense-keys w rank ((d, s, meta) ∷ hits) m k i =
      elim (fuse_dense-keys w (suc rank) hits _ k i) [
        | inl later ↦ inl (inr later)
        | inr now ↦ elim (keys-insert k d _ m.scores now) [
          | inl e ↦ inl (inl e)
          | inr old ↦ inr old
        ]
      ]

  keys-fuse_dense :
      (w : Float) (rank : ℕ) (hits : List (Hit f)) (m : Fused f) (k : ℕ)
      → In k (hit_ids f hits) ⊎ In k (keys m.scores)
      → In k (keys (fuse_dense f w rank hits m).scores)
  unfolding fuse_dense add_score
  keys-fuse_dense w rank [] m k (inl i) = absurd i
  keys-fuse_dense w rank [] m k (inr i) = i
  keys-fuse_dense w rank ((d, s, meta) ∷ hits) m k (inl (inl e)) =
      keys-fuse_dense w (suc rank) hits _ k (inr (insert-keys k d _ m.scores (inl e)))
  keys-fuse_dense w rank ((d, s, meta) ∷ hits) m k (inl (inr i)) =
      keys-fuse_dense w (suc rank) hits _ k (inl i)
  keys-fuse_dense w rank ((d, s, meta) ∷ hits) m k (inr i) =
      keys-fuse_dense w (suc rank) hits _ k (inr (insert-keys k d _ m.scores (inr i)))

  fuse_bm25-IsDistinct :
      (w : Float) (rank : ℕ) (hits : List (Hit f)) (m : Fused f)
      → IsDistinct m.scores
      → IsDistinct (fuse_bm25 f w rank hits m).scores
  unfolding fuse_bm25 add_score
  fuse_bm25-IsDistinct w rank [] m h = h
  fuse_bm25-IsDistinct w rank ((d, s, meta) ∷ hits) m h =
      fuse_bm25-IsDistinct w (suc rank) hits _ (insert-IsDistinct d _ m.scores h)

  fuse_dense-IsDistinct :
      (w : Float) (rank : ℕ) (hits : List (Hit f)) (m : Fused f)
      → IsDistinct m.scores
      → IsDistinct (fuse_dense f w rank hits m).scores
  unfolding fuse_dense add_score
  fuse_dense-IsDistinct w rank [] m h = h
  fuse_dense-IsDistinct w rank ((d, s, meta) ∷ hits) m h =
      fuse_dense-IsDistinct w (suc rank) hits _ (insert-IsDistinct d _ m.scores h)

  -- The documents of the results, in their order.
  abbrev pub doc_ids : List (SearchResult f) → List ℕ
  doc_ids [] = []
  doc_ids (r ∷ rs) = r.doc_id ∷ doc_ids rs

  doc_ids-map :
      (m : Fused f) (scores : List (ℕ × Float)) → doc_ids (map (result_of f m) scores) ≡ keys scores
  unfolding result_of
  doc_ids-map m [] = refl
  doc_ids-map m ((d, x) ∷ scores) = ap (◌∷◌ d) (doc_ids-map m scores)

  keys-IsNodup : {A : Type 0} (m : List (ℕ × A)) → IsDistinct m → IsNodup (keys m)
  unfolding lookup
  keys-IsNodup [] h = tt
  keys-IsNodup ((k, x) ∷ m) h = (absent k m h.0, keys-IsNodup m h.1)
    where
      absent :
          {A : Type 0} (k : ℕ) (m : List (ℕ × A)) → lookup k m ≡ none → All (λ y. k ≢ y) (keys m)
      absent k [] h = tt
      absent k ((j, x) ∷ m) h = elim (ℕ_discrete j k) [
        | yes e ↦ absurd (none-ne-some _ (sym h ∙ if_pos (ℕ_discrete j k) e (some x) (lookup k m)))
        | no n ↦
            (λ e. n (sym e), absent k m (sym (if_neg (ℕ_discrete j k) n (some x) (lookup k m)) ∙ h))
      ]

  -- The fusion returns each document of the two lists of hits once, and no other document.
  pub rrf_fuse-doc_ids :
      (w : Weights f) (bm25_hits dense_hits : List (Hit f))
      → let ids = doc_ids (rrf_fuse f w bm25_hits dense_hits) in
        IsNodup ids
        × ((d : ℕ) → In d ids → In d (hit_ids f bm25_hits) ⊎ In d (hit_ids f dense_hits))
        × ((d : ℕ) → In d (hit_ids f bm25_hits) ⊎ In d (hit_ids f dense_hits) → In d ids)
  unfolding rrf_fuse fuse_all no_hits
  rrf_fuse-doc_ids w bm25_hits dense_hits =
      let sparse = fuse_bm25 f w.bm25_weight 0 bm25_hits (no_hits f) in
      let m = fuse_dense f w.dense_weight 0 dense_hits sparse in
      let same = doc_ids-map m m.scores in
      (
        subst IsNodup (sym same) (
            keys-IsNodup m.scores (
              fuse_dense-IsDistinct w.dense_weight 0 dense_hits sparse
                (fuse_bm25-IsDistinct w.bm25_weight 0 bm25_hits (no_hits f) tt))),
        λ d i. elim (fuse_dense-keys w.dense_weight 0 dense_hits sparse d (subst (In d) same i)) [
          | inl j ↦ inr j
          | inr j ↦ elim (fuse_bm25-keys w.bm25_weight 0 bm25_hits (no_hits f) d j) [
            | inl h ↦ inl h
            | inr h ↦ absurd h
          ]
        ],
        λ d h. subst (In d) (sym same) (
            keys-fuse_dense w.dense_weight 0 dense_hits sparse d (elim h [
              | inl b ↦ inr (keys-fuse_bm25 w.bm25_weight 0 bm25_hits (no_hits f) d (inl b))
              | inr e ↦ inl e
            ])),
      )
