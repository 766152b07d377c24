-- ===== src/Api/SearchRoute/Paging.antt =====
-- The pages of a search, and its cache (api/routes/search.py).
use axon_search.Base.{
  ℕ, ◌+◌, ◌≤◌, ◌<◌, ◌≡◌, refl, sym, ap, ◌∙◌, true, false, none, some, List, [], ◌∷◌, ◌++◌, map,
  if◌then◌else◌, take, drop, le→leb, Bool-cases, inl, inr,
}
use axon_search.Base.Slices.{
  take-drop-take, take-append, drop-drop, take-nil, drop-nil, map-map, map-append,
}
use axon_search.Base.Text.{Text, str_key}
use axon_search.Cache
use axon_search.Cache.{Cache}
use axon_search.Cache.Limits.{IsValid}
use axon_search.Cache.Eviction.{get-set}
use axon_search.Indexer.Bm25.{Meta}
use axon_search.Search.Retriever.{merge, rrf_fuse, apply_filters, pagerank_boost, ranks_before}
use axon_search.Search.Retrieval.{retrieve, scorer}
use axon_search.Search.QueryProcessor.{ProcessedQuery, process, for_retrieval}
use axon_search.Base.Sort.{sort}
use axon_search.Indexer.Bm25.Search
use axon_search.Indexer.VectorStore
use axon_search.Indexer.Embedder.{encode_query}
use axon_search.Api.SearchRoute.Keys.{IsSame, key_of_same}
use axon_search.Api.SearchRoute.{
  filters_of, request_key, SearchRequest, Services, SearchResponse, AppState, Candidates,
  with_snippet, item_of, filtered, ranked, respond, answer, candidates_for, compute, remember,
  serve, search,
}

module _ (services : Services) where
  -- A request for a page of the results as retrieval ranks them.
  abbrev pub page_request : Text → Meta → ℕ → ℕ → SearchRequest
  page_request query filters offset top_k = record {
    query = query;
    top_k = top_k;
    offset = offset;
    rerank = false;
    neural_filter = false;
    filters = filters;
  }

  abbrev pub urls : SearchResponse services → List Text
  urls response = map (λ item. item.url) response.results

  abbrev found_urls : Candidates services → List Text
  found_urls = map (λ r. r.url)

  answer-urls :
      (query : Text) (filters : Meta) (o k : ℕ) (pq : ProcessedQuery) (found : Candidates services)
      (s : AppState services)
      → urls (answer services (page_request query filters o k) pq found s).0
        ≡ found_urls (take k (drop o (take (o + k) found)))
  unfolding answer respond filtered ranked item_of with_snippet
  answer-urls query filters o k pq [] s =
      ap found_urls (sym (take-nil k _ (drop-nil o _ (take-nil (o + k) [] refl))))
  answer-urls query filters o k pq (c ∷ cs) s =
      map-map _ (λ item. item.url) (λ r. r.url) (take k (drop o (take (o + k) (c ∷ cs))))
        (λ r. refl)

  -- All that retrieval ranks for a query, of which a request takes the first ones.
  ranking : Text → Meta → AppState services → Candidates services
  ranking query filters s =
      let env = services.env in
      let pq = for_retrieval (process services.lookups services.query_proc query) in
      let w = services.weights in
      let bm25_raw = (Search.search env pq.expanded w.candidate_k s.bm25).0 in
      let vector = (encode_query services.model pq.normalised s.embedder).0 in
      let dense_raw = VectorStore.search services.faiss vector w.candidate_k s.vector_store in
      let fused =
        apply_filters env.floats (rrf_fuse env.floats w bm25_raw dense_raw) pq
          (filters_of filters) in
      sort (ranks_before env.floats)
        (pagerank_boost env.floats w (scorer env services.faiss s.link_graph) fused)

  page-urls :
      (query : Text) (filters : Meta) (o k : ℕ) (s : AppState services)
      → urls (compute services (page_request query filters o k) s).0
        ≡ found_urls (take k (drop o (ranking query filters s)))
  unfolding compute candidates_for retrieve merge ranking
  page-urls query filters o k s =
      let all = ranking query filters s in
      answer-urls query filters o k (process services.lookups services.query_proc query)
        (take (o + k) all) _
      ∙ ap found_urls
          (take-drop-take (o + k) o k (take (o + k) all) refl ∙ take-drop-take (o + k) o k all refl)

  -- Two pages that follow each other are the page of both: for requests of one state without
  -- reranking and neural filter, a page of `a` results and the page of `b` results after it show the
  -- URLs, in their order, that a page of `a + b` results shows.
  pub compute-append :
      (query : Text) (filters : Meta) (offset a b : ℕ) (s : AppState services)
      → urls (compute services (page_request query filters offset a) s).0
          ++ urls (compute services (page_request query filters (offset + a) b) s).0
        ≡ urls (compute services (page_request query filters offset (a + b)) s).0
  compute-append query filters offset a b s =
      let all = ranking query filters s in
      let rest = drop offset all in
      ap (λ us. us ++ urls (compute services (page_request query filters (offset + a) b) s).0)
        (page-urls query filters offset a s)
      ∙ ap (λ us. found_urls (take a rest) ++ us) (page-urls query filters (offset + a) b s)
      ∙ ap (λ ys. found_urls (take a rest) ++ found_urls (take b ys))
          (drop-drop (offset + a) offset a all refl)
      ∙ map-append _ (take a rest) (take b (drop a rest))
      ∙ ap found_urls (take-append (a + b) a b rest refl)
      ∙ sym (page-urls query filters offset (a + b) s)

  filtered-search_cache :
      (req : SearchRequest) (texts : List (ℕ × Text)) (found : Candidates services)
      (s : AppState services)
      → (filtered services req texts found s).1.search_cache ≡ s.search_cache
  unfolding filtered
  filtered-search_cache req texts found s = elim (Bool-cases req.neural_filter) [
    | inl e ↦ rw e refl
    | inr e ↦ rw e refl
  ]

  answer-search_cache :
      (req : SearchRequest) (pq : ProcessedQuery) (found : Candidates services)
      (s : AppState services)
      → (answer services req pq found s).1.search_cache ≡ s.search_cache
  unfolding answer respond
  answer-search_cache req pq [] s = refl
  answer-search_cache req pq (c ∷ cs) s = filtered-search_cache req _ (c ∷ cs) s

  compute-search_cache :
      (req : SearchRequest) (s : AppState services)
      → (compute services req s).1.search_cache ≡ s.search_cache
  unfolding compute candidates_for
  compute-search_cache req s =
      answer-search_cache req (process services.lookups services.query_proc req.query) _ _

  remember-some :
      (now : ℕ) (req : SearchRequest) (response : SearchResponse services) (s : AppState services)
      (c : Cache Text (SearchResponse services))
      → s.search_cache ≡ some c
      → (remember services now req response s).search_cache
        ≡ some (Cache.set now (request_key services req) response c)
  unfolding remember
  remember-some now req response s c e = rw (e, remember) refl

  search-hit :
      (read later : ℕ) (req : SearchRequest) (s : AppState services)
      (c : Cache Text (SearchResponse services)) (response : SearchResponse services)
      → s.search_cache ≡ some c
      → (Cache.get read (request_key services req) c).0 ≡ some response
      → (search services read later req s).0 ≡ record response { cached = true }
  unfolding search
  search-hit read later req s c response e hit = rw (e, search, hit) refl

  -- A response just computed is what a request that is the same, but for the order of its filters,
  -- gets until `ttl` ticks after the write, marked as cached, provided that the cache is switched on
  -- and that no other request, deletion or job comes in between.
  pub search-serve :
      (written read later : ℕ) (req req' : SearchRequest) (s : AppState services)
      (c : Cache Text (SearchResponse services))
      → IsSame req' req
      → s.search_cache ≡ some c
      → IsValid c
      → 0 < c.ttl
      → 0 < c.maxsize
      → read ≤ written + c.ttl
      → let (response, s') = serve services written req s in
        (search services read later req' s').0 ≡ record response { cached = true }
  unfolding serve
  search-serve written read later req req' s c same e v on room h =
      let key = request_key services req in
      let (response, s') = compute services req s in
      let c' = Cache.set written key response c in
      search-hit read later req' _ c' response
        (remember-some written req response s' c (compute-search_cache req s ∙ e))
        (ap (λ k. (Cache.get read k c').0) (key_of_same services req' req same)
          ∙ get-set written key response c read v on room
          ∙ ap (λ b. if b then some response else none) (le→leb read (written + c.ttl) h))
