-- ===== src/Search/Retrieval/Live.antt =====
-- Deleted documents and the retrieval (search/hybrid_retriever.py).
use axon_search.Base.{
  ℕ, ◌≡◌, ◌<◌, ◌≢◌, refl, sym, ap, ◌∙◌, inl, inr, true, Option, List, [], ◌∷◌, In, All, All-of-In,
}
use mathlib.Core.Bool.{false≢true}
use axon_search.Base.Text.{Text}
use axon_search.Base.Floats.{Floats}
use axon_search.Indexer.Bm25.{Env, Meta, Index}
use axon_search.Indexer.Bm25.Search.{search, is_deleted}
use axon_search.Indexer.Bm25.State
use axon_search.Indexer.Bm25.Ranking
use axon_search.Indexer.Bm25.Ranking.{IsLive}
use axon_search.Indexer.Bm25.Results.{search-IsLive}
use axon_search.Indexer.VectorStore
use axon_search.Indexer.VectorStore.{Faiss, VectorStore}
use axon_search.Indexer.VectorStore.Results
use axon_search.Indexer.VectorStore.Results.{IsStored, search-IsStored}
use axon_search.Crawler.LinkGraph.{LinkGraph}
use axon_search.Search.Retriever.{Hit, Weights, ProcessedQuery, merge}
use axon_search.Search.Retriever.Fusion.{hit_ids}
use axon_search.Search.Retriever.Results.{merge-IsTop}
use axon_search.Search.Retrieval.{retrieve, scorer}

hit_ids-In :
    (f : Floats) (d : ℕ) (hits : List (Hit f))
    → In d (hit_ids f hits)
    → (hit : Hit f) × In hit hits × (d ≡ hit.0)
hit_ids-In f d [] i = absurd i
hit_ids-In f d (hit ∷ hits) (inl e) = (hit, inl refl, e)
hit_ids-In f d (hit ∷ hits) (inr i) = let (h, at, e) = hit_ids-In f d hits i in (h, inr at, e)

module _ (env : Env) (faiss : Faiss env.floats.Float) where
  -- A document that is deleted in both indexes is in no result of a retrieval.
  pub retrieve-deleted :
      (laws : Ranking.Laws env) (store_laws : Results.Laws faiss) (w : Weights env.floats)
      (encode_query : Text → faiss.Vector) (query : ProcessedQuery) (top_k : ℕ)
      (filters : Option Meta) (store : VectorStore faiss) (idx : Index env)
      (graph : Option (LinkGraph env.floats)) (d : ℕ)
      → 0 < w.candidate_k
      → State.IsValid env idx
      → Results.IsValid faiss store_laws store
      → is_deleted env d idx ≡ true
      → VectorStore.is_deleted faiss d store ≡ true
      → All
          (λ r. r.doc_id ≢ d)
          (retrieve env faiss w encode_query query top_k filters store idx graph).0
  unfolding retrieve
  retrieve-deleted laws store_laws w encode_query query top_k filters store idx graph d pos v vs
        gone gone' =
      let bm25_raw = (search env query.expanded w.candidate_k idx).0 in
      let dense_raw =
        VectorStore.search faiss (encode_query query.normalised) w.candidate_k store in
      let results =
        merge env.floats w (scorer env faiss graph) bm25_raw dense_raw query top_k filters in
      All-of-In (λ r. r.doc_id ≢ d) results
        (λ r i e.
          elim ((merge-IsTop env.floats w (scorer env faiss graph) bm25_raw dense_raw query top_k
              filters).1
            r i).1 [
              | inl sparse ↦
                  let (hit, at, p) = hit_ids-In env.floats r.doc_id bm25_raw sparse in
                  let live =
                    (search-IsLive env laws query.expanded w.candidate_k pos idx v).1 hit at in
                  false≢true (sym live.alive ∙ ap (λ n. is_deleted env n idx) (sym p ∙ e) ∙ gone)
              | inr dense ↦
                  let (hit, at, p) = hit_ids-In env.floats r.doc_id dense_raw dense in
                  let live =
                    (search-IsStored faiss store_laws (encode_query query.normalised) w.candidate_k
                        store pos vs).1
                      hit at in
                  false≢true (
                    sym live.alive
                    ∙ ap (λ n. VectorStore.is_deleted faiss n store) (sym p ∙ e)
                    ∙ gone')
            ])
