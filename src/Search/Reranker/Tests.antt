-- ===== src/Search/Reranker/Tests.antt =====
-- Instances of the theorems about the reranker.
use axon_search.Base.{ℕ, ◌≡◌, ◌≤◌, ◌<◌, refl, none, some, List, [], ◌∷◌, map, arith, length}
use axon_search.Base.Text.{Text, codes, lower, split}
use axon_search.Base.Top.{IsTop}
use axon_search.Base.Samples.{hundredths}
use axon_search.Search.Retriever.{SearchResult}
use axon_search.Search.Reranker.{passage_of, rerank, generate_snippet}
use axon_search.Search.Reranker.Order.{with_score, score_of, rerank-IsTop}
use axon_search.Search.Reranker.Snippet.{hits_at, shown_from, generate_snippet_lem}

abbrev result : ℕ → Text → SearchResult hundredths
result doc_id title = record {
  doc_id = doc_id;
  url = [];
  title = title;
  score = 1;
  bm25_rank = some 1;
  dense_rank = none;
  rrf_score = 1;
  pagerank = 0;
  metadata = [];
  snippet = [];
  rerank_score = none;
}

abbrev long_first : Text × Text → ℕ
long_first pair = length pair.1

abbrev results : List (SearchResult hundredths)
results = result 1 (codes "cat") ∷ result 2 (codes "a longer title") ∷ result 3 (codes "dog") ∷ []

rerank-IsTop_example :
    IsTop
      (λ r s. hundredths.leb (score_of hundredths s) (score_of hundredths r))
      2
      (map
        (λ r. with_score hundredths (long_first (codes "cat", passage_of hundredths none r)) r)
        results)
      (rerank hundredths (map long_first) 2 (codes "cat") results none (some 2))
rerank-IsTop_example =
    rerank-IsTop hundredths (map long_first) long_first (λ xs. refl) 2 (codes "cat") results none 2
      (omega arith) (omega arith)

generate_snippet_lem_example :
    let query_set = map lower (codes "Cat" ∷ []) in
    let tokens = split (codes "a dog and a cat") in
    let snippet = generate_snippet (codes "a dog and a cat") (codes "Cat" ∷ []) 2 10 in
    (length snippet ≤ 10)
    × ((start : ℕ) × (snippet ≡ shown_from tokens 2 10 start)
        × ((j : ℕ)
            → j < length tokens
            → hits_at query_set 2 j tokens ≤ hits_at query_set 2 start tokens))
generate_snippet_lem_example =
    generate_snippet_lem (codes "a dog and a cat") (codes "Cat" ∷ []) 2 10
