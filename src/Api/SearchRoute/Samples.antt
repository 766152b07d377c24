-- ===== src/Api/SearchRoute/Samples.antt =====
-- An application with two documents, for the tests of the search route.
use axon_search.Base.{◌+◌, true, none, some, [], ◌∷◌, length}
use axon_search.Base.Text.{Text, codes, str_key}
use axon_search.Base.Samples.{hundredths}
use axon_search.Cache.{Cache}
use axon_search.Crawler.LinkGraph.{LinkGraph}
use axon_search.Crawler.LinkGraph
use axon_search.Indexer.Samples.{sample_env}
use axon_search.Indexer.Bm25.{get_or}
use axon_search.Indexer.VectorStore.{flat}
use axon_search.Indexer.VectorStore.Samples.{lists}
use axon_search.Api.SearchRoute.Repr.{repr}
use axon_search.Api.SearchRoute.{Services, SearchResponse, AppState}

abbrev pub services : Services
services = record {
  env = sample_env;
  faiss = lists;
  weights = record { bm25_weight = 100; dense_weight = 100; pagerank_alpha = 0; candidate_k = 4 };
  lookups = record {
    search = λ pattern q. none;
    sub = λ pattern by q. q;
    excluded = λ q. [];
    must_groups = λ q. [];
    synsets = λ word. [];
  };
  query_proc = record { expand_synonyms = true; max_expansion = 3 };
  model = record {
    encode_rows = λ texts i. length (get_or texts i []);
    digest = λ text. text;
    dot = λ a b. a + b;
  };
  threshold = 25;
  predict = λ pairs. [];
  batch_size = 8;
  repr = repr;
  round = λ digits x. x;
}

abbrev pub blank_cache : Cache Text (SearchResponse services)
blank_cache = record { maxsize = 8; ttl = 30; items = []; hits = 0; misses = 0 }

abbrev pub app : AppState services
app = record {
  bm25 = record {
    k1 = 150;
    b = 75;
    corpus = (codes "cat" ∷ []) ∷ (codes "cat" ∷ codes "dog" ∷ []) ∷ [];
    metadata = ((codes "url", codes "a") ∷ []) ∷ ((codes "url", codes "b") ∷ []) ∷ [];
    bm25 = none;
    dirty = true;
    deleted = [];
    url_to_id = [];
    vocab_freq = [];
  };
  vector_store = record {
    dim = 1;
    index_type = flat;
    index = 7 ∷ 8 ∷ [];
    meta = ((codes "url", codes "a") ∷ []) ∷ ((codes "url", codes "b") ∷ []) ∷ [];
    doc_ids = 0 ∷ 1 ∷ [];
    deleted = [];
  };
  link_graph = some (LinkGraph.init hundredths 85 50 1);
  embedder = record { cache_size = 4; query_cache = [] };
  sims = [];
  search_cache = some blank_cache;
}
