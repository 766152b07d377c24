-- ===== src/Api/SearchRoute.antt =====
-- api/routes/search.py: `POST /search` and `GET /search/suggest`. Elapsed times are left out.
pub mod Paging
pub mod Keys
pub mod Repr
pub mod Samples
mod Types
mod Tests
pub use Types.*
use axon_search.Base.{
  ℕ, ◌+◌, ◌*◌, true, false, none, some, List, [], ◌∷◌, map, if◌then◌else◌, length, take, drop,
}
use axon_search.Base.Dict.{nat_key, lookup, insert}
use axon_search.Base.Text.{Text, codes, str_key}
use axon_search.Cache.Keys.{plain, dict, make_key}
use axon_search.Cache
use axon_search.Cache.{Cache}
use axon_search.Indexer.Bm25.{Index}
use axon_search.Indexer.Bm25.Search
use axon_search.Indexer.Embedder.{encode_query}
use axon_search.Search.Retriever.{SearchResult, final_score}
use axon_search.Search.Retrieval.{retrieve}
use axon_search.Search.QueryProcessor.{ProcessedQuery, process, for_retrieval}
use axon_search.Search.NeuralFilter.{Sims, neural_sim, filter_results}
use axon_search.Search.Reranker.{rerank, generate_snippet}

module _ (services : Services) where
  open services use {
    env, faiss, weights, lookups, query_proc, model, threshold, predict, batch_size, repr, round,
  }
  open env use {floats}

  -- `cache_key`
  unfoldable pub request_key : SearchRequest → Text
  request_key req = make_key repr (
      plain (text req.query)
      ∷ plain (number req.top_k)
      ∷ plain (number req.offset)
      ∷ plain (flag req.rerank)
      ∷ plain (flag req.neural_filter)
      ∷ dict req.filters
      ∷ [])

  abbrev pub Candidates : Type 0
  Candidates = List (SearchResult floats)

  -- The loop that builds `text_map`.
  unfoldable pub text_map_of : Index env → Candidates → List (ℕ × Text) → List (ℕ × Text)
  text_map_of idx [] texts = texts
  text_map_of idx (r ∷ rs) texts =
      let meta = Search.get_metadata env r.doc_id idx in
      let text : Text = elim (lookup (codes "text") meta) [ none ↦ r.title | some t ↦ t ] in
      text_map_of idx rs (insert r.doc_id text texts)

  -- The snippet of step 5, where the passage is not empty.
  abbrev snippet_for : Text → List Text → Text → Text
  snippet_for [] tokens old = old
  snippet_for (c ∷ cs) tokens old = generate_snippet (c ∷ cs) tokens 30 220

  unfoldable pub with_snippet :
      List (ℕ × Text) → List Text → SearchResult floats → SearchResult floats
  with_snippet texts tokens r =
      let passage : Text = elim (lookup r.doc_id texts) [ none ↦ [] | some t ↦ t ] in
      record r { snippet = snippet_for passage tokens r.snippet }

  unfoldable pub item_of : Sims floats model → SearchResult floats → ResultItem services
  item_of sims r = record {
    url = r.url;
    title = r.title;
    snippet = r.snippet;
    score = round 6 (final_score floats r);
    rrf_score = round 6 r.rrf_score;
    rerank_score = elim r.rerank_score [ none ↦ none | some s ↦ some (round 4 s) ];
    pagerank = round 6 r.pagerank;
    bm25_rank = r.bm25_rank;
    dense_rank = r.dense_rank;
    neural_sim = round 4 (neural_sim floats model r sims);
  }

  -- Step 3: the neural filter, if it is asked for.
  unfoldable pub filtered :
      SearchRequest
      → List (ℕ × Text)
      → Candidates
      → AppState services
      → Candidates × AppState services
  filtered req texts candidates s =
      let (passed, after) =
        filter_results floats model threshold req.query candidates (some texts) s.embedder s.sims in
      if req.neural_filter
      then (passed, record s { embedder = after.0; sims = after.1 })
      else (candidates, s)

  -- Step 4: the candidates reranked, or the window of them.
  unfoldable pub ranked : SearchRequest → ProcessedQuery → List (ℕ × Text) → Candidates → Candidates
  ranked req pq texts candidates =
      let window = req.offset + req.top_k in
      let reranked =
        rerank floats predict batch_size pq.normalised candidates (some texts) (some window) in
      let plain = take window candidates in if req.rerank then reranked else plain

  -- Steps 3 to 6, for candidates that there are.
  unfoldable pub respond :
      SearchRequest
      → ProcessedQuery
      → Candidates
      → AppState services
      → SearchResponse services × AppState services
  unfolding text_map_of with_snippet item_of filtered ranked
  respond req pq candidates s =
      let texts = text_map_of s.bm25 candidates [] in
      let (passed, s') = filtered req texts candidates s in
      let page = take req.top_k (drop req.offset (ranked req pq texts passed)) in
      (
        record {
          query = req.query;
          intent = pq.intent;
          expanded_query = pq.expanded;
          results = map (λ r. item_of s'.sims (with_snippet texts pq.tokens r)) page;
          total_retrieved = length candidates;
          cached = false;
        },
        s',
      )

  unfoldable pub answer :
      SearchRequest
      → ProcessedQuery
      → Candidates
      → AppState services
      → SearchResponse services × AppState services
  unfolding respond
  answer req pq [] s = (
    record {
      query = req.query;
      intent = pq.intent;
      expanded_query = pq.expanded;
      results = [];
      total_retrieved = 0;
      cached = false;
    },
    s,
  )
  answer req pq (c ∷ cs) s = respond req pq (c ∷ cs) s

  -- Step 2, on the state of the indexes.
  unfoldable pub candidates_for :
      SearchRequest → ProcessedQuery → AppState services → Candidates × AppState services
  candidates_for req pq s =
      let window = req.offset + req.top_k in
      let top_k = if req.rerank then window * 5 else window in
      let vector = λ (q : Text). (encode_query model q s.embedder).0 in
      let (found, after) =
        retrieve env faiss weights vector (for_retrieval pq) top_k (filters_of req.filters)
          s.vector_store s.bm25 s.link_graph in
      (
        found,
        record s {
          bm25 = after.0;
          link_graph = after.1;
          embedder = (encode_query model pq.normalised s.embedder).1;
        },
      )

  -- The route behind the cache.
  unfoldable pub compute :
      SearchRequest → AppState services → SearchResponse services × AppState services
  unfolding answer candidates_for
  compute req s =
      let pq = process lookups query_proc req.query in
      let (found, s') = candidates_for req pq s in answer req pq found s'

  -- `cache.set(cache_key, response)`
  unfoldable pub remember :
      ℕ → SearchRequest → SearchResponse services → AppState services → AppState services
  remember now req response s = elim s.search_cache [
    | none ↦ s
    | some c ↦ record s { search_cache = some (Cache.set now (request_key req) response c) }
  ]

  unfoldable pub serve :
      ℕ → SearchRequest → AppState services → SearchResponse services × AppState services
  unfolding compute remember
  serve now req s = let (response, s') = compute req s in (response, remember now req response s')

  -- `search`, with the clock's readings at the read of the cache and at the write.
  unfoldable pub search :
      ℕ → ℕ → SearchRequest → AppState services → SearchResponse services × AppState services
  unfolding serve
  search read written req s = elim s.search_cache [
    | none ↦ serve written req s
    | some c ↦
        let (found, c') = Cache.get read (request_key req) c in
        let s' = record s { search_cache = some c' } in
        elim found [
          | none ↦ serve written req s'
          | some response ↦ (record response { cached = true }, s')
        ]
  ]

  -- `suggest`
  unfoldable pub suggest : Text → ℕ → AppState services → List Text
  suggest q limit s = Search.suggest env q limit s.bm25
