-- ===== src/Api/Server/Searching.antt =====
-- What a search does to the state that it reads (api/routes/search.py).
use axon_search.Base.{
  ℕ, ◌≡◌, refl, ◌∙◌, ◌⊎◌, inl, inr, true, Option, none, some, List, [], ◌∷◌, Bool-cases,
  Option-cases,
}
use axon_search.Base.Text.{Text, str_key}
use axon_search.Cache
use axon_search.Indexer.Bm25.{refresh}
use axon_search.Indexer.Bm25.Search
use axon_search.Search.Retrieval.{retrieve}
use axon_search.Search.QueryProcessor.{ProcessedQuery, process}
use axon_search.Api.SearchRoute
use axon_search.Api.SearchRoute.{
  Services, SearchRequest, request_key, SearchResponse, AppState, Candidates, candidates_for,
  filtered, answer, respond, compute, remember, serve,
}

module _ (services : Services) where
  open services use {env}

  -- A search keeps the vector store and rebuilds the BM25 index, if it does anything to it.
  pub record IsSearched (s t : AppState services) : Type 0 where
    pub same : t.vector_store ≡ s.vector_store
    pub rebuilt : (t.bm25 ≡ s.bm25) ⊎ (t.bm25 ≡ refresh env s.bm25)

  filtered-same :
      (req : SearchRequest) (texts : List (ℕ × Text)) (found : Candidates services)
      (s : AppState services)
      → let t = (filtered services req texts found s).1 in
        (t.vector_store ≡ s.vector_store) × (t.bm25 ≡ s.bm25)
  unfolding filtered
  filtered-same req texts found s = elim (Bool-cases req.neural_filter) [
    | inl e ↦ rw e (refl, refl)
    | inr e ↦ rw e (refl, refl)
  ]

  answer-same :
      (req : SearchRequest) (pq : ProcessedQuery) (found : Candidates services)
      (s : AppState services)
      → let t = (answer services req pq found s).1 in
        (t.vector_store ≡ s.vector_store) × (t.bm25 ≡ s.bm25)
  unfolding answer respond
  answer-same req pq [] s = (refl, refl)
  answer-same req pq (c ∷ cs) s = filtered-same req _ (c ∷ cs) s

  remember-same :
      (now : ℕ) (req : SearchRequest) (response : SearchResponse services) (s : AppState services)
      → let t = remember services now req response s in
        (t.vector_store ≡ s.vector_store) × (t.bm25 ≡ s.bm25)
  unfolding remember
  remember-same now req response s = elim (Option-cases s.search_cache) [
    | inl e ↦ rw e (refl, refl)
    | inr (c, e) ↦ rw e (refl, refl)
  ]

  compute-IsSearched :
      (req : SearchRequest) (s : AppState services) → IsSearched s (compute services req s).1
  unfolding compute candidates_for retrieve Search.search
  compute-IsSearched req s =
      let pq = process services.lookups services.query_proc req.query in
      let (store, idx) =
        answer-same req pq (candidates_for services req pq s).0
          (candidates_for services req pq s).1 in
      record { same = store; rebuilt = inr idx }

  serve-IsSearched :
      (now : ℕ) (req : SearchRequest) (s : AppState services)
      → IsSearched s (serve services now req s).1
  unfolding serve
  serve-IsSearched now req s =
      let c = compute-IsSearched req s in
      let (store, idx) =
        remember-same now req (compute services req s).0 (compute services req s).1 in
      record {
        same = store ∙ c.same;
        rebuilt = elim c.rebuilt [ inl e ↦ inl (idx ∙ e) | inr e ↦ inr (idx ∙ e) ];
      }

  served-IsSearched :
      (now : ℕ) (req : SearchRequest) (o : Option (SearchResponse services)) (s : AppState services)
      → IsSearched s
          (elim o as (λ _. SearchResponse services × AppState services) [
            | none ↦ serve services now req s
            | some response ↦ (record response { cached = true }, s)
          ]).1
  served-IsSearched now req none s = serve-IsSearched now req s
  served-IsSearched now req (some response) s = record { same = refl; rebuilt = inl refl }

  pub search-IsSearched :
      (read written : ℕ) (req : SearchRequest) (s : AppState services)
      → IsSearched s (SearchRoute.search services read written req s).1
  unfolding SearchRoute.search
  search-IsSearched read written req s = elim (Option-cases s.search_cache) [
    | inl e ↦ rw e (serve-IsSearched written req (record s { search_cache = none }))
    | inr (c, e) ↦
        let (found, c') = Cache.get read (request_key services req) c in
        let i = served-IsSearched written req found (record s { search_cache = some c' }) in
        rw e (record { same = i.same; rebuilt = i.rebuilt })
  ]
