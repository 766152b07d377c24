-- ===== src/Search/Retriever.antt =====
-- search/hybrid_retriever.py: `HybridRetriever`. The embedder and PageRank's `log_score` are
-- parameters of a retrieval; metadata are dictionaries of texts.
pub mod Fusion
pub mod Results
mod Tests
use axon_search.Base.{
  ℕ, suc, ◌+◌, Bool, true, false, not, ◌&&◌, ◌||◌, Option, none, some, List, [], ◌∷◌, ◌++◌, map,
  if◌then◌else◌, keep, take,
}
use axon_search.Base.Dict.{nat_key, lookup, insert}
use axon_search.Base.Text.{Text, codes, Text-discrete, str_key, lower, has_part}
use axon_search.Base.Sort.{sort}
use axon_search.Base.Floats.{Floats}
use axon_search.Indexer.Bm25.{Meta}

-- The fields of `ProcessedQuery.operators` and of `ProcessedQuery` that retrieval reads.
pub record ParsedOperators : Type 0 where
  pub site : Option Text
  pub exclude_terms : List Text
  pub must_include : List Text

pub record ProcessedQuery : Type 0 where
  pub normalised : Text
  pub expanded : Text
  pub operators : ParsedOperators

-- `meta.get(key, "")`
unfoldable pub field : Text → Meta → Text
field key meta = elim (lookup key meta) [ none ↦ [] | some v ↦ v ]

abbrev pub any : (Text → Bool) → List Text → Bool
any p [] = false
any p (t ∷ ts) = p t || any p ts

abbrev pub all : (Text → Bool) → List Text → Bool
all p [] = true
all p (t ∷ ts) = p t && all p ts

module _ (f : Floats) where
  open f use {Float}

  pub record SearchResult : Type 0 where
    pub doc_id : ℕ
    pub url : Text
    pub title : Text
    pub score : Float
    pub bm25_rank : Option ℕ
    pub dense_rank : Option ℕ
    pub rrf_score : Float
    pub pagerank : Float
    pub metadata : Meta
    pub snippet : Text
    pub rerank_score : Option Float

  -- The settings of `HybridRetriever`.
  pub record Weights : Type 0 where
    pub bm25_weight : Float
    pub dense_weight : Float
    pub pagerank_alpha : Float
    pub candidate_k : ℕ

  abbrev pub Hit : Type 0
  Hit = ℕ × Float × Meta

  -- The dictionaries of `_rrf_fuse`.
  pub record Fused : Type 0 where
    pub scores : List (ℕ × Float)
    pub meta_map : List (ℕ × Meta)
    pub bm25_rank_map : List (ℕ × ℕ)
    pub dense_rank_map : List (ℕ × ℕ)

module _ (f : Floats) where
  open f use {Float}

  unfoldable pub final_score : SearchResult f → Float
  final_score r = elim r.rerank_score [ none ↦ r.rrf_score | some s ↦ s ]

  -- `weight / (_RRF_K + rank + 1)`
  unfoldable pub rrf : Float → ℕ → Float
  rrf weight rank = f.div weight (f.of_ℕ (60 + rank + 1))

  -- `scores[doc_id] = scores.get(doc_id, 0.0) + rrf`
  unfoldable pub add_score : ℕ → Float → List (ℕ × Float) → List (ℕ × Float)
  add_score doc_id x scores =
      insert doc_id (f.add (elim (lookup doc_id scores) [ none ↦ f.zero | some s ↦ s ]) x) scores

  -- The two loops of `_rrf_fuse`, from a rank on.
  unfoldable pub fuse_bm25 : Float → ℕ → List (Hit f) → Fused f → Fused f
  unfolding rrf add_score
  fuse_bm25 weight rank [] m = m
  fuse_bm25 weight rank ((doc_id, _score, meta) ∷ hits) m =
      fuse_bm25 weight (suc rank) hits (record m {
        scores = add_score doc_id (rrf weight rank) m.scores;
        meta_map = insert doc_id meta m.meta_map;
        bm25_rank_map = insert doc_id (suc rank) m.bm25_rank_map;
      })

  -- `meta_map.setdefault(doc_id, meta)`
  unfoldable pub set_default : ℕ → Meta → List (ℕ × Meta) → List (ℕ × Meta)
  set_default doc_id meta m = elim (lookup doc_id m) [ none ↦ insert doc_id meta m | some old ↦ m ]

  unfoldable pub fuse_dense : Float → ℕ → List (Hit f) → Fused f → Fused f
  unfolding rrf add_score set_default
  fuse_dense weight rank [] m = m
  fuse_dense weight rank ((doc_id, _score, meta) ∷ hits) m =
      fuse_dense weight (suc rank) hits (record m {
        scores = add_score doc_id (rrf weight rank) m.scores;
        meta_map = set_default doc_id meta m.meta_map;
        dense_rank_map = insert doc_id (suc rank) m.dense_rank_map;
      })

  -- The result of one document at the end of `_rrf_fuse`.
  unfoldable pub result_of : Fused f → ℕ × Float → SearchResult f
  unfolding field
  result_of m (doc_id, rrf_score) =
      let meta : Meta = elim (lookup doc_id m.meta_map) [ none ↦ [] | some x ↦ x ] in
      record {
        doc_id = doc_id;
        url = field (codes "url") meta;
        title = field (codes "title") meta;
        score = rrf_score;
        bm25_rank = lookup doc_id m.bm25_rank_map;
        dense_rank = lookup doc_id m.dense_rank_map;
        rrf_score = rrf_score;
        pagerank = f.zero;
        metadata = meta;
        snippet = [];
        rerank_score = none;
      }

  unfoldable pub no_hits : Fused f
  no_hits = record { scores = []; meta_map = []; bm25_rank_map = []; dense_rank_map = [] }

  unfoldable pub fuse_all : Weights f → List (Hit f) → List (Hit f) → Fused f
  unfolding no_hits
  fuse_all w bm25_hits dense_hits =
      fuse_dense w.dense_weight 0 dense_hits (fuse_bm25 w.bm25_weight 0 bm25_hits no_hits)

  unfoldable pub rrf_fuse : Weights f → List (Hit f) → List (Hit f) → List (SearchResult f)
  unfolding fuse_all result_of
  rrf_fuse w bm25_hits dense_hits =
      let m = fuse_all w bm25_hits dense_hits in map (result_of m) m.scores

  -- The tests of `_apply_filters` on one result.
  unfoldable pub has_site : Option Text → Text → Bool
  has_site none url = true
  has_site (some []) url = true
  has_site (some (c ∷ cs)) url = has_part url (c ∷ cs)

  unfoldable pub is_excluded : List Text → SearchResult f → Bool
  is_excluded terms r =
      any (λ term. has_part (lower r.url) (lower term) || has_part (lower r.title) (lower term))
        terms

  unfoldable pub includes_all : List Text → SearchResult f → Bool
  includes_all terms r =
      all (λ term. has_part (lower r.title ++ 32 ∷ lower r.url) (lower term)) terms

  unfoldable pub matches_all : Meta → SearchResult f → Bool
  matches_all [] r = true
  matches_all ((key, val) ∷ extra) r = elim (lookup key r.metadata) [
    | none ↦ false
    | some v ↦ elim (Text-discrete v val) [ yes _ ↦ matches_all extra r | no _ ↦ false ]
  ]

  unfoldable pub passes : ParsedOperators → Option Meta → SearchResult f → Bool
  unfolding has_site is_excluded includes_all
  passes ops extra_filters r =
      has_site ops.site (lower r.url)
      && not (is_excluded ops.exclude_terms r)
      && includes_all ops.must_include r
      && (elim extra_filters [ none ↦ true | some extra ↦ matches_all extra r ])

  unfoldable pub apply_filters :
      List (SearchResult f) → ProcessedQuery → Option Meta → List (SearchResult f)
  unfolding passes
  apply_filters results query extra_filters = keep (passes query.operators extra_filters) results

  -- The body of the loop of `_pagerank_boost`, for the link graph's `log_score`.
  unfoldable pub boost : Float → (Text → Float) → SearchResult f → SearchResult f
  boost alpha log_score r =
      let pr = log_score r.url in
      let boosted = f.mul r.rrf_score (f.add (f.of_ℕ 1) (f.mul alpha pr)) in
      record r { pagerank = pr; rrf_score = boosted; score = boosted }

  -- `if self.link_graph and self.pagerank_alpha > 0: ...`
  unfoldable pub pagerank_boost :
      Weights f → Option (Text → Float) → List (SearchResult f) → List (SearchResult f)
  unfolding boost
  pagerank_boost w none results = results
  pagerank_boost w (some log_score) results =
      if f.leb w.pagerank_alpha f.zero
      then results
      else map (boost w.pagerank_alpha log_score) results

  -- The order of `fused.sort(key=lambda r: r.final_score, reverse=True)`.
  unfoldable pub ranks_before : SearchResult f → SearchResult f → Bool
  unfolding final_score
  ranks_before r s = f.leb (final_score s) (final_score r)

  -- `retrieve` behind the two searches.
  unfoldable pub merge :
      Weights f
      → Option (Text → Float)
      → List (Hit f)
      → List (Hit f)
      → ProcessedQuery
      → ℕ
      → Option Meta
      → List (SearchResult f)
  unfolding ranks_before
  merge w log_score bm25_raw dense_raw query top_k filters =
      let fused = apply_filters (rrf_fuse w bm25_raw dense_raw) query filters in
      take top_k (sort ranks_before (pagerank_boost w log_score fused))
