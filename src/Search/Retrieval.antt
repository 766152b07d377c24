-- ===== src/Search/Retrieval.antt =====
-- `HybridRetriever.retrieve` (search/hybrid_retriever.py) over the two indexes. The embedder's
-- `encode_query` is a parameter.
pub mod Live
use axon_search.Base.{ℕ, Option, none, some, List, [], ◌∷◌, if◌then◌else◌}
use axon_search.Base.Text.{Text}
use axon_search.Indexer.Bm25.{Env, Meta, Index}
use axon_search.Indexer.Bm25.Search.{search}
use axon_search.Indexer.VectorStore
use axon_search.Indexer.VectorStore.{Faiss, VectorStore}
use axon_search.Crawler.LinkGraph
use axon_search.Crawler.LinkGraph.{LinkGraph}
use axon_search.Search.Retriever.{
  Weights, ProcessedQuery, SearchResult, rrf_fuse, apply_filters, merge,
}

module _ (env : Env) (faiss : Faiss env.floats.Float) where
  open env use {floats}
  open floats use {Float}

  -- The link graph's `log_score`. A call on a graph that is not up to date computes the scores, which
  -- the later calls read.
  abbrev pub scorer : Option (LinkGraph floats) → Option (Text → Float)
  scorer none = none
  scorer (some g) = some (λ url. (LinkGraph.log_score floats url g).0)

  -- The graph after the boost, which calls `log_score` for each result, if there is one.
  unfoldable pub scored_graph :
      Weights floats
      → List (SearchResult floats)
      → Option (LinkGraph floats)
      → Option (LinkGraph floats)
  scored_graph w fused none = none
  scored_graph w [] (some g) = some g
  scored_graph w (r ∷ rs) (some g) =
      if floats.leb w.pagerank_alpha floats.zero then some g else some (LinkGraph.refresh floats g)

  -- The results, the BM25 index, which the search may have rebuilt, and the link graph.
  unfoldable pub retrieve :
      Weights floats
      → (Text → faiss.Vector)
      → ProcessedQuery
      → ℕ
      → Option Meta
      → VectorStore faiss
      → Index env
      → Option (LinkGraph floats)
      → List (SearchResult floats) × (Index env × Option (LinkGraph floats))
  unfolding scored_graph
  retrieve w encode_query query top_k filters store idx graph =
      let (bm25_raw, idx') = search env query.expanded w.candidate_k idx in
      let query_vec = encode_query query.normalised in
      let dense_raw = VectorStore.search faiss query_vec w.candidate_k store in
      let fused = apply_filters floats (rrf_fuse floats w bm25_raw dense_raw) query filters in
      (
        merge floats w (scorer graph) bm25_raw dense_raw query top_k filters,
        (idx', scored_graph w fused graph),
      )
