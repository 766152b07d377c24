-- ===== src/Api/SearchRoute/Types.antt =====
-- api/routes/search.py and api/schemas.py: the request, the response, and what the route calls.
use axon_search.Base.{ℕ, Bool, Option, none, some, List, [], ◌∷◌}
use axon_search.Base.Dict.{nat_key}
use axon_search.Base.Text.{Text, str_key}
use axon_search.Cache.Keys.{Normal}
use axon_search.Cache.{Cache}
use axon_search.Crawler.LinkGraph.{LinkGraph}
use axon_search.Indexer.Bm25.{Env, Meta, Index}
use axon_search.Indexer.VectorStore.{Faiss, VectorStore}
use axon_search.Indexer.Embedder.{Model, Embedder}
use axon_search.Search.Retriever.{Weights}
use axon_search.Search.QueryProcessor.{Lookups, QueryProcessor, Intent}
use axon_search.Search.NeuralFilter.{Sims}

pub record SearchRequest : Type 0 where
  pub query : Text
  pub top_k : ℕ
  pub offset : ℕ
  pub rerank : Bool
  pub neural_filter : Bool
  pub filters : Meta

-- `req.filters or None`
abbrev pub filters_of : Meta → Option Meta
filters_of [] = none
filters_of (m ∷ ms) = some (m ∷ ms)

-- The values of a key that are no dictionaries.
pub data Plain : Type 0 where
  text : Text → Plain
  number : ℕ → Plain
  flag : Bool → Plain

-- What the route calls: the retriever's settings, the patterns and WordNet, the bi-encoder, the
-- cross-encoder's `predict`, `repr` of the key, and `round` to a number of digits.
pub record Services : Type 1 where
  pub env : Env
  pub faiss : Faiss env.floats.Float
  pub weights : Weights env.floats
  pub lookups : Lookups
  pub query_proc : QueryProcessor
  pub model : Model faiss.Vector env.floats.Float
  pub threshold : env.floats.Float
  pub predict : List (Text × Text) → List env.floats.Float
  pub batch_size : ℕ
  pub repr : List (Normal Plain) → Text
  pub round : ℕ → env.floats.Float → env.floats.Float

module _ (services : Services) where
  open services use {env, faiss}
  open env use {floats}

  pub record ResultItem : Type 0 where
    pub url : Text
    pub title : Text
    pub snippet : Text
    pub score : floats.Float
    pub rrf_score : floats.Float
    pub rerank_score : Option floats.Float
    pub pagerank : floats.Float
    pub bm25_rank : Option ℕ
    pub dense_rank : Option ℕ
    pub neural_sim : floats.Float

module _ (services : Services) where
  open services use {
    env, faiss, weights, lookups, query_proc, model, threshold, predict, batch_size, repr, round,
  }
  open env use {floats}

  pub record SearchResponse : Type 0 where
    pub query : Text
    pub intent : Intent
    pub expanded_query : Text
    pub results : List (ResultItem services)
    pub total_retrieved : ℕ
    pub cached : Bool

  -- `app.state`, with the entries `neural_sim` of the metadata.
  pub record AppState : Type 0 where
    pub bm25 : Index env
    pub vector_store : VectorStore faiss
    pub link_graph : Option (LinkGraph floats)
    pub embedder : Embedder faiss.Vector
    pub sims : Sims floats model
    pub search_cache : Option (Cache Text SearchResponse)
