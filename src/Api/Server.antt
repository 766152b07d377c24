-- ===== src/Api/Server.antt =====
-- api/server.py: `_lifespan`, which builds the application's state and saves the indexes, and
-- `_build_pipeline` of api/routes/index.py, which makes a pipeline of that state. The state holds
-- the jobs too, which are a global of api/routes/index.py.
pub mod Loop
pub mod Searching
pub mod Requests
pub mod Keeping
pub mod Sound
pub mod Restart
pub mod Turns
pub mod CallTurns
pub mod JobLife
pub mod Counts
mod Tests
use Prim.Native.String.{String}
use axon_search.Base.{ℕ, Bool, true, false, Option, none, some, List, [], ◌∷◌, ◌⊎◌, inl, inr, ite}
use axon_search.Base.Dict.{text_discrete}
use axon_search.Base.Text.{Text}
use axon_search.Cache
use axon_search.Config.{Decimal, decimal, Settings}
use axon_search.Utils.QualityScorer.{Calls}
use axon_search.Utils.Dedup
use axon_search.Utils.Dedup.{Lsh, DedupFilter}
use axon_search.Crawler.Extractor.{Html}
use axon_search.Crawler.LinkGraph
use axon_search.Indexer.Bm25
use axon_search.Indexer.Bm25.{Env, Meta, Index}
use axon_search.Indexer.Bm25.Search
use axon_search.Indexer.Bm25.Search.{Pickle}
use axon_search.Indexer.VectorStore
use axon_search.Indexer.VectorStore.{Faiss, IndexType, flat, ivf, hnsw, VectorStore}
use axon_search.Indexer.Embedder
use axon_search.Indexer.Embedder.{Model, Embedder}
use axon_search.Indexer.Batching.{Parts}
use axon_search.Indexer.Pipeline
use axon_search.Indexer.Pipeline.{Run}
use axon_search.Search.QueryProcessor.{Lookups}
use axon_search.Search.NeuralFilter.{Sims}
use axon_search.Api.IndexRoutes.{App, Jobs}
use axon_search.Cache.Keys.{Normal}
use axon_search.Api.SearchRoute.{Plain, Services, SearchResponse}

-- `pickle.dump` and `pickle.load` of a value, by the bytes of the file.
pub record Pickler (A : Type 0) : Type 1 where
  pub Bytes : Type 0
  pub dump : A → Bytes
  pub load : Bytes → A

-- What the program calls and does not define: models by their names, MinHash's index by its
-- threshold and its number of permutations, floating-point literals, and the libraries of the parts.
pub record Libraries : Type 1 where
  pub env : Env
  pub faiss : Faiss env.floats.Float
  pub html : Html env.floats
  pub calls : Calls env.floats
  pub float : Decimal → env.floats.Float
  pub lsh : env.floats.Float → ℕ → Lsh env.floats.Float
  pub model : String → Model faiss.Vector env.floats.Float
  pub cross_encoder : String → List (Text × Text) → List env.floats.Float
  pub lookups : Lookups
  pub repr : List (Normal Plain) → Text
  pub round : ℕ → env.floats.Float → env.floats.Float
  pub number : ℕ → Text
  pub bm25_pickler : Pickler (Pickle env)
  pub meta_pickler : Pickler (List ℕ × List Meta × List ℕ)

-- The constructor of `VectorStore` knows three types, and raises for any other.
unfoldable pub index_type_of : String → Option IndexType
index_type_of name =
    ite (text_discrete name "flat") (some flat)
      (ite (text_discrete name "hnsw") (some hnsw) (ite (text_discrete name "ivf") (some ivf) none))

-- The exceptions of the start: an unknown type of index, and a store without its `meta.pkl`.
pub data StartError : Type 0 where
  unknown_index_type : StartError
  no_meta_file : StartError

module _ (lib : Libraries) (settings : Settings) where
  open lib use {env, faiss, html, calls, float, lsh, model, cross_encoder, lookups, number}

  -- The parts that the start passes to the search route. The retriever's `candidate_k`, the query
  -- processor and the reranker's batch size are their constructors' defaults.
  abbrev pub services_of : Services
  services_of = record {
    env = env;
    faiss = faiss;
    weights = record {
      bm25_weight = float settings.bm25_weight;
      dense_weight = float settings.dense_weight;
      pagerank_alpha = float settings.pagerank_alpha;
      candidate_k = 200;
    };
    lookups = lookups;
    query_proc = record { expand_synonyms = true; max_expansion = 3 };
    model = model settings.embed_model;
    threshold = float settings.neural_filter_threshold;
    predict = cross_encoder settings.rerank_model;
    batch_size = 32;
    repr = lib.repr;
    round = lib.round;
  }

  -- The parts of `_build_pipeline`. The quality scorer has its constructor's defaults.
  abbrev pub parts_of : Parts
  parts_of = record {
    env = env;
    faiss = faiss;
    html = html;
    calls = calls;
    quality = record {
      threshold = float (decimal 35 2);
      min_words = 80;
      max_link_density = float (decimal 4 1);
    };
    lsh = lsh (float settings.dedup_threshold) settings.dedup_num_perm;
    encode = Embedder.encode (model settings.embed_model) false;
    number = number;
  }

module _ (lib : Libraries) (settings : Settings) where
  open lib use {env, faiss}
  open env use {floats}

  -- The directory of the indexes: `bm25.pkl`, `vectors/faiss.index` and `vectors/meta.pkl`. The
  -- entries `neural_sim` of the metadata, which are a table of their own here, are in the pickles.
  pub record Files : Type 0 where
    pub bm25_pkl : Option (lib.bm25_pickler.Bytes)
    pub faiss_index : Option faiss.File
    pub meta_pkl : Option (lib.meta_pickler.Bytes)
    pub sims : Sims floats (lib.model settings.embed_model)

  -- A background job that waits for its turn, a run of the pipeline that a batch job or a request for
  -- one URL waits for, with the reading of the clock at its start, and a run that none waits for: its
  -- stages go on where an exception of one of them has ended the wait.
  pub data Task : Type 0 where
    queued : Task
    batch_run : ℕ → Run (parts_of lib settings) → Task
    url_run : ℕ → Run (parts_of lib settings) → Task
    left : Run (parts_of lib settings) → Task

  pub record State : Type 0 where
    pub app : App env faiss (SearchResponse (services_of lib settings))
    pub embedder : Embedder faiss.Vector
    pub sims : Sims floats (lib.model settings.embed_model)
    pub dedup : DedupFilter (parts_of lib settings).lsh
    pub jobs : Jobs
    pub tasks : List (Text × Task)

module _ (lib : Libraries) (settings : Settings) where
  open lib use {env, faiss, float}
  open env use {floats}

  unfoldable pub open_bm25 : Option lib.bm25_pickler.Bytes → Index env
  open_bm25 none = Bm25.init env (float (decimal 15 1)) (float (decimal 75 2))
  open_bm25 (some bytes) = Search.load env (lib.bm25_pickler.load bytes)

  -- `VectorStore.load` where there is a `faiss.index`, and an empty store otherwise.
  unfoldable pub open_store : IndexType → Files lib settings → StartError ⊎ VectorStore faiss
  open_store index_type files = elim files.faiss_index [
    | none ↦ inr (VectorStore.init faiss settings.embed_dim index_type)
    | some index ↦ elim files.meta_pkl [
      | none ↦ inl no_meta_file
      | some bytes ↦
          let (doc_ids, meta, deleted) = lib.meta_pickler.load bytes in
          inr (VectorStore.load faiss (index, doc_ids, meta, deleted) settings.embed_dim index_type)
    ]
  ]

  -- `app.state` over the two indexes: the other parts are new.
  unfoldable pub fresh :
      Index env
      → VectorStore faiss
      → Sims floats (lib.model settings.embed_model)
      → State lib settings
  fresh idx store sims = record {
    app = record {
      bm25 = idx;
      vector_store = store;
      link_graph = LinkGraph.init floats (float (decimal 85 2)) 50 (float (decimal 1 6));
      search_cache = some (Cache.init settings.search_cache_size settings.search_cache_ttl_s);
    };
    embedder = Embedder.init (lib.model settings.embed_model) 4096;
    sims = sims;
    dedup = Dedup.init (parts_of lib settings).lsh 5;
    jobs = [];
    tasks = [];
  }

  unfoldable pub startup : Files lib settings → StartError ⊎ State lib settings
  unfolding index_type_of open_bm25 open_store fresh
  startup files = elim (index_type_of settings.vector_index_type) [
    | none ↦ inl unknown_index_type
    | some index_type ↦ elim (open_store index_type files) [
      | inl error ↦ inl error
      | inr store ↦ inr (fresh (open_bm25 files.bm25_pkl) store files.sims)
    ]
  ]

  unfoldable pub shutdown : State lib settings → Files lib settings
  shutdown s =
      let (index, doc_ids, meta, deleted) = VectorStore.save faiss s.app.vector_store in
      record {
        bm25_pkl = some (lib.bm25_pickler.dump (Search.save env s.app.bm25).0);
        faiss_index = some index;
        meta_pkl = some (lib.meta_pickler.dump (doc_ids, meta, deleted));
        sims = s.sims;
      }
