-- ===== src/Search/NeuralFilter.antt =====
-- search/neural_filter.py: `NeuralFilter`. It writes `neural_sim` into a result's metadata, which is
-- the dictionary that the index itself holds; these entries are kept in a table of their own, by the
-- dictionary: that of the BM25 index for a document found there, that of the vector store otherwise.
use axon_search.Base.{
  ℕ, suc, ◌*◌, Option, none, some, List, [], ◌∷◌, ◌++◌, map, if◌then◌else◌, take, length, ◌==◌,
}
use axon_search.Base.Dict.{nat_key, lookup, insert}
use axon_search.Base.Text.{Text}
use axon_search.Base.Floats.{Floats}
use axon_search.Indexer.Embedder.{Model, Embedder, encode_query, encode_passages}
use axon_search.Search.Retriever.{SearchResult}

module _ (f : Floats) {Vector : Type 0} (model : Model Vector f.Float) where
  open f use {Float}

  -- `metadata["neural_sim"]` of the dictionaries that have it.
  abbrev pub Sims : Type 0
  Sims = List (ℕ × Float)

  -- The dictionary of a result's metadata: an even number in the BM25 index, an odd one in the store.
  unfoldable pub dictionary_of : SearchResult f → ℕ
  dictionary_of r = elim r.bm25_rank [ none ↦ suc (2 * r.doc_id) | some rank ↦ 2 * r.doc_id ]

  -- `metadata.get("neural_sim", 0.0)`
  unfoldable pub neural_sim : SearchResult f → Sims → Float
  unfolding dictionary_of
  neural_sim r sims = elim (lookup (dictionary_of r) sims) [ none ↦ f.zero | some sim ↦ sim ]

  unfoldable pub passage_of : Option (List (ℕ × Text)) → SearchResult f → Text
  passage_of none r = take 512 (r.title ++ 32 ∷ r.snippet)
  passage_of (some text_map) r = elim (lookup r.doc_id text_map) [
    | none ↦ take 512 (r.title ++ 32 ∷ r.snippet)
    | some text ↦ take 512 text
  ]

  -- The loop over the results, from a row of the similarities on.
  unfoldable pub judge :
      Float → (ℕ → Float) → ℕ → List (SearchResult f) → Sims → List (SearchResult f) × Sims
  unfolding dictionary_of
  judge threshold sims i [] table = ([], table)
  judge threshold sims i (r ∷ rs) table =
      let (passed, table') =
        judge threshold sims (suc i) rs (insert (dictionary_of r) (sims i) table) in
      (if f.leb threshold (sims i) then r ∷ passed else passed, table')

  -- `filter`, with the embedder and the table afterwards.
  unfoldable pub filter_results :
      Float
      → Text
      → List (SearchResult f)
      → Option (List (ℕ × Text))
      → Embedder Vector
      → Sims
      → List (SearchResult f) × (Embedder Vector × Sims)
  unfolding passage_of judge
  filter_results threshold query [] text_map e table = ([], (e, table))
  filter_results threshold query (r ∷ rs) text_map e table =
      let (query_vec, e') = encode_query model query e in
      let passages = map (passage_of text_map) (r ∷ rs) in
      let vecs = encode_passages model passages in
      let (passed, table') = judge threshold (λ i. model.dot (vecs i) query_vec) 0 (r ∷ rs) table in
      (passed, (e', table'))

  -- `score_pairs`, one similarity for each pair.
  unfoldable pub score_queries :
      List Text → (ℕ → Vector) → ℕ → Embedder Vector → List Float × Embedder Vector
  score_queries [] vecs i e = ([], e)
  score_queries (query ∷ queries) vecs i e =
      let (query_vec, e') = encode_query model query e in
      let (scores, e'') = score_queries queries vecs (suc i) e' in
      (model.dot query_vec (vecs i) ∷ scores, e'')

  -- `none` where the assertion fails.
  unfoldable pub score_pairs :
      List Text → List Text → Embedder Vector → Option (List Float × Embedder Vector)
  unfolding score_queries
  score_pairs queries passages e =
      if length queries == length passages
      then some (score_queries queries (encode_passages model passages) 0 e)
      else none
