-- ===== src/Indexer/Embedder/Tests.antt =====
-- Queries on an embedder with a cache of one entry.
use axon_search.Base.{ℕ, ◌≤◌, ◌≡◌, true, List, [], ◌∷◌, map, length}
use axon_search.Base.Text.{Text, codes}
use axon_search.Indexer.Bm25.{get_or}
use axon_search.Indexer.Embedder.{Model, init, encode_one, encode_queries}
use axon_search.Indexer.Embedder.Cached.{IsInjective, encode_queries-refines}

-- A text is its own vector and its own digest.
abbrev texts_model : Model Text ℕ
texts_model = record {
  encode_rows = λ texts i. get_or texts i [];
  digest = λ text. text;
  dot = λ a b. length a;
}

-- The second query evicts the first, which is then encoded again.
abbrev queries : List Text
queries = codes "a" ∷ codes "b" ∷ codes "a" ∷ codes "a" ∷ []

queries-IsInjective : IsInjective texts_model queries 1
queries-IsInjective a b i j e = e

encode_queries-refines_example :
    let (vecs, e) = encode_queries texts_model queries (init texts_model 1) in
    (vecs ≡ map (encode_one texts_model true) queries) × (length e.query_cache ≤ 1)
encode_queries-refines_example = encode_queries-refines texts_model 1 queries queries-IsInjective
