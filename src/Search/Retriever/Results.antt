-- ===== src/Search/Retriever/Results.antt =====
-- What a retrieval returns (search/hybrid_retriever.py).
use axon_search.Base.{
  ℕ, ◌≡◌, refl, sym, ap, ◌∙◌, ◌⊎◌, inl, inr, Bool, true, not, ◌&&◌, ◌||◌, Option, none, some, List,
  [], ◌∷◌, arith, In, keep, Bool-cases, false, ◌++◌,
}
use mathlib.Core.Path.{subst}
use axon_search.Base.Dict.{nat_key, lookup}
use axon_search.Base.Text.{Text, lower, has_part, str_key}
use axon_search.Base.Sort.{IsOrder}
use axon_search.Base.Top.{IsTop, take-sort-IsTop}
use axon_search.Base.Floats.{Floats}
use axon_search.Indexer.Bm25.{Meta}
use axon_search.Search.Retriever.{
  any, all, Hit, SearchResult, Weights, ProcessedQuery, ParsedOperators, rrf_fuse, has_site,
  is_excluded, includes_all, matches_all, passes, apply_filters, boost, pagerank_boost, final_score,
  ranks_before, merge,
}
use axon_search.Search.Retriever.Fusion.{hit_ids, doc_ids, In-map, rrf_fuse-doc_ids}

In-keep :
    {A : Type 0} (p : A → Bool) (a : A) (xs : List A) → In a (keep p xs) → In a xs × (p a ≡ true)
unfolding keep
In-keep p a [] i = absurd i
In-keep p a (x ∷ xs) i = elim (Bool-cases (p x)) [
  | inl yes_it ↦ go (rw (yes_it, keep) at i) yes_it (λ j. In-keep p a xs j)
  | inr no_it ↦ let (j, h) = In-keep p a xs (rw (no_it, keep) at i) in (inr j, h)
]
  where
    go :
        (a ≡ x) ⊎ In a (keep p xs)
        → p x ≡ true
        → (In a (keep p xs) → In a xs × (p a ≡ true))
        → In a (x ∷ xs) × (p a ≡ true)
    go (inl e) h later = (inl e, ap p e ∙ h)
    go (inr j) h later = let (k, q) = later j in (inr k, q)

module _ (f : Floats) where
  open f use {Float}

  ranks_before-IsOrder : IsOrder (ranks_before f)
  unfolding ranks_before
  ranks_before-IsOrder = record {
    total = λ r s h. f.order.total (final_score f s) (final_score f r) h;
    trans = λ r s t h k. f.order.trans (final_score f t) (final_score f s) (final_score f r) k h;
  }

  matches_all-boost :
      (extra : Meta) (alpha : Float) (log_score : Text → Float) (r : SearchResult f)
      → matches_all f extra (boost f alpha log_score r) ≡ matches_all f extra r
  unfolding matches_all boost
  matches_all-boost [] alpha log_score r = refl
  matches_all-boost ((key, val) ∷ extra) alpha log_score r =
      ground (arith, matches_all-boost extra alpha log_score r)

  -- The boost changes no field that the filters read.
  passes-boost :
      (ops : ParsedOperators) (extra : Option Meta) (alpha : Float) (log_score : Text → Float)
      (r : SearchResult f)
      → passes f ops extra (boost f alpha log_score r) ≡ passes f ops extra r
  unfolding passes boost is_excluded includes_all
  passes-boost ops none alpha log_score r = refl
  passes-boost ops (some extra) alpha log_score r =
      ap
        (λ m.
          has_site f ops.site (lower r.url)
          && not (is_excluded f ops.exclude_terms r)
          && includes_all f ops.must_include r
          && m)
        (matches_all-boost extra alpha log_score r)

  doc_id-boost :
      (alpha : Float) (log_score : Text → Float) (r : SearchResult f)
      → (boost f alpha log_score r).doc_id ≡ r.doc_id
  unfolding boost
  doc_id-boost alpha log_score r = refl

  -- The results that pass the filters, with their PageRank boost.
  abbrev pub candidates :
      Weights f
      → Option (Text → Float)
      → List (Hit f)
      → List (Hit f)
      → ProcessedQuery
      → Option Meta
      → List (SearchResult f)
  candidates w log_score bm25_raw dense_raw query filters =
      pagerank_boost f w log_score (apply_filters f (rrf_fuse f w bm25_raw dense_raw) query filters)

  -- A candidate is a fused result that passes the filters, but for its score.
  In-pagerank_boost :
      (w : Weights f) (log_score : Option (Text → Float)) (rs : List (SearchResult f))
      (r : SearchResult f) (ops : ParsedOperators) (extra : Option Meta)
      → In r (pagerank_boost f w log_score rs)
      → (old : SearchResult f) × In old rs
        × (r.doc_id ≡ old.doc_id)
        × (passes f ops extra r ≡ passes f ops extra old)
  unfolding pagerank_boost
  In-pagerank_boost w none rs r ops extra i = (r, i, refl, refl)
  In-pagerank_boost w (some log_score) rs r ops extra i =
      elim (Bool-cases (f.leb w.pagerank_alpha f.zero)) [
        | inl off ↦ (r, rw off at i, refl, refl)
        | inr on ↦
            let (old, at, e) = In-map (boost f w.pagerank_alpha log_score) r rs (rw on at i) in
            (
              old,
              at,
              ap (λ x. x.doc_id) e ∙ doc_id-boost w.pagerank_alpha log_score old,
              ap (passes f ops extra) e ∙ passes-boost ops extra w.pagerank_alpha log_score old,
            )
      ]

  doc_ids-In :
      (r : SearchResult f) (rs : List (SearchResult f)) → In r rs → In r.doc_id (doc_ids f rs)
  doc_ids-In r [] i = absurd i
  doc_ids-In r (x ∷ rs) (inl e) = inl (ap (λ y. y.doc_id) e)
  doc_ids-In r (x ∷ rs) (inr i) = inr (doc_ids-In r rs i)

  -- What the operators and the filters ask of a result: the site is part of its URL; no excluded term
  -- is part of its URL or its title, and each required one is part of its title and URL; and its
  -- metadata have the value of each filter.
  abbrev pub HasValue : SearchResult f → Text × Text → Type 0
  HasValue r (key, val) = lookup key r.metadata ≡ some val

  pub record IsWanted (ops : ParsedOperators) (extra : Option Meta) (r : SearchResult f)
      : Type 0 where
    pub on_site :
        (c : ℕ) (cs : Text) → ops.site ≡ some (c ∷ cs) → has_part (lower r.url) (c ∷ cs) ≡ true
    pub without :
        (term : Text)
        → In term ops.exclude_terms
        → (has_part (lower r.url) (lower term) ≡ false)
          × (has_part (lower r.title) (lower term) ≡ false)
    pub including :
        (term : Text)
        → In term ops.must_include
        → has_part (lower r.title ++ 32 ∷ lower r.url) (lower term) ≡ true
    pub filtered :
        (filters : Meta)
        → extra ≡ some filters
        → (item : Text × Text) → In item filters
        → HasValue r item

  any-none :
      (p : Text → Bool) (xs : List Text) → any p xs ≡ false → (x : Text) → In x xs → p x ≡ false
  any-none p [] e x i = absurd i
  any-none p (y ∷ ys) e x (inl same) = ap p same ∙ ground (arith, e)
  any-none p (y ∷ ys) e x (inr i) = any-none p ys (ground (arith, e)) x i

  all-each :
      (p : Text → Bool) (xs : List Text) → all p xs ≡ true → (x : Text) → In x xs → p x ≡ true
  all-each p [] e x i = absurd i
  all-each p (y ∷ ys) e x (inl same) = ap p same ∙ ground (arith, e)
  all-each p (y ∷ ys) e x (inr i) = all-each p ys (ground (arith, e)) x i

  matches_all-each :
      (extra : Meta) (r : SearchResult f)
      → matches_all f extra r ≡ true
      → (item : Text × Text) → In item extra
      → HasValue r item
  unfolding matches_all
  matches_all-each [] r e item i = absurd i
  matches_all-each ((key, val) ∷ extra) r e item (inl same) =
      subst (HasValue r) (sym same) (ground (arith, e))
  matches_all-each ((key, val) ∷ extra) r e item (inr i) =
      matches_all-each extra r (ground (arith, e)) item i

  passes-each :
      (ops : ParsedOperators) (extra : Option Meta) (r : SearchResult f)
      → passes f ops extra r ≡ true
      → (has_site f ops.site (lower r.url) ≡ true)
        × (is_excluded f ops.exclude_terms r ≡ false)
        × (includes_all f ops.must_include r ≡ true)
        × (elim extra [ none ↦ true | some filters ↦ matches_all f filters r ] ≡ true)
  unfolding passes
  passes-each ops extra r e = ground (arith, e)

  passes-IsWanted :
      (ops : ParsedOperators) (extra : Option Meta) (r : SearchResult f)
      → passes f ops extra r ≡ true
      → IsWanted ops extra r
  unfolding passes has_site is_excluded includes_all
  passes-IsWanted ops extra r e =
      let (site, out, there, values) = passes-each ops extra r e in
      record {
        on_site = λ c cs s. ap (λ o. has_site f o (lower r.url)) (sym s) ∙ site;
        without = λ term i.
            let neither =
              any-none (λ t. has_part (lower r.url) (lower t) || has_part (lower r.title) (lower t))
                ops.exclude_terms out term i in
            (ground (arith, neither), ground (arith, neither));
        including = all-each _ ops.must_include there;
        filtered = λ filters s. matches_all-each filters r (
            ap (λ o. elim o [ none ↦ true | some extras ↦ matches_all f extras r ]) (sym s)
            ∙ values);
      }

  -- A retrieval returns the best `top_k` candidates, those with the highest final scores first; each of
  -- them is what the query's operators and the filters ask for, and is a document of one of the two
  -- searches.
  pub merge-IsTop :
      (w : Weights f) (log_score : Option (Text → Float)) (bm25_raw dense_raw : List (Hit f))
      (query : ProcessedQuery) (top_k : ℕ) (filters : Option Meta)
      → let results = merge f w log_score bm25_raw dense_raw query top_k filters in
        IsTop
          (λ r s. f.leb (final_score f s) (final_score f r))
          top_k
          (candidates w log_score bm25_raw dense_raw query filters)
          results
        × ((r : SearchResult f)
            → In r results
            → IsWanted query.operators filters r
              × (In r.doc_id (hit_ids f bm25_raw) ⊎ In r.doc_id (hit_ids f dense_raw)))
  unfolding merge apply_filters ranks_before
  merge-IsTop w log_score bm25_raw dense_raw query top_k filters =
      let fused = rrf_fuse f w bm25_raw dense_raw in
      let top =
        take-sort-IsTop (ranks_before f) ranks_before-IsOrder top_k
          (candidates w log_score bm25_raw dense_raw query filters) in
      (
        top,
        λ r i.
            let (old, at, same, alike) =
              In-pagerank_boost w log_score (keep (passes f query.operators filters) fused) r
                query.operators filters (top.some_of r i) in
            let (there, ok) = In-keep (passes f query.operators filters) old fused at in
            (
              passes-IsWanted query.operators filters r (alike ∙ ok),
              subst (λ d. In d (hit_ids f bm25_raw) ⊎ In d (hit_ids f dense_raw)) (sym same)
                  ((rrf_fuse-doc_ids f w bm25_raw dense_raw).1 old.doc_id
                    (doc_ids-In old fused there)),
            ),
      )
