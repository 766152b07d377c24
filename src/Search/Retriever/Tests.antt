-- ===== src/Search/Retriever/Tests.antt =====
-- Instances of the theorems about fusion and ranking.
use axon_search.Base.{ℕ, ◌⊎◌, none, some, List, [], ◌∷◌, In}
use axon_search.Base.Text.{codes}
use axon_search.Base.Top.{IsTop}
use axon_search.Base.Samples.{hundredths}
use axon_search.Indexer.Collect.{IsNodup}
use axon_search.Search.Retriever.{
  Hit, Weights, ProcessedQuery, SearchResult, rrf_fuse, merge, final_score,
}
use axon_search.Search.Retriever.Fusion.{hit_ids, doc_ids, rrf_fuse-doc_ids}
use axon_search.Search.Retriever.Results.{candidates, merge-IsTop, IsWanted}

abbrev weights : Weights hundredths
weights = record { bm25_weight = 100; dense_weight = 100; pagerank_alpha = 10; candidate_k = 200 }

abbrev sparse : List (Hit hundredths)
sparse = (3, 250, (codes "url", codes "http://a/x") ∷ []) ∷ (1, 120, []) ∷ []

abbrev dense : List (Hit hundredths)
dense = (1, 90, []) ∷ (7, 60, []) ∷ []

abbrev query : ProcessedQuery
query = record {
  normalised = codes "x";
  expanded = codes "x";
  operators = record { site = none; exclude_terms = codes "spam" ∷ []; must_include = [] };
}

rrf_fuse-doc_ids_example :
    let ids = doc_ids hundredths (rrf_fuse hundredths weights sparse dense) in
    IsNodup ids
    × ((d : ℕ) → In d ids → In d (hit_ids hundredths sparse) ⊎ In d (hit_ids hundredths dense))
    × ((d : ℕ) → In d (hit_ids hundredths sparse) ⊎ In d (hit_ids hundredths dense) → In d ids)
rrf_fuse-doc_ids_example = rrf_fuse-doc_ids hundredths weights sparse dense

merge-IsTop_example :
    let results = merge hundredths weights (some (λ url. 100)) sparse dense query 2 none in
    IsTop
      (λ r s. hundredths.leb (final_score hundredths s) (final_score hundredths r))
      2
      (candidates hundredths weights (some (λ url. 100)) sparse dense query none)
      results
    × ((r : SearchResult hundredths)
        → In r results
        → IsWanted hundredths query.operators none r
          × (In r.doc_id (hit_ids hundredths sparse) ⊎ In r.doc_id (hit_ids hundredths dense)))
merge-IsTop_example = merge-IsTop hundredths weights (some (λ url. 100)) sparse dense query 2 none
