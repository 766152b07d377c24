-- ===== src/Config.antt =====
-- config.py: `Settings` and its defaults. A floating-point literal is kept as its digits and the
-- number of its decimals, and a time in seconds as nanoseconds. Environment variables and the .env
-- file, which pydantic reads, change fields of the record.
use Prim.Native.String.{String}
use axon_search.Base.{ℕ, Bool, false, List, []}

-- `decimal 35 2` is 0.35.
pub record Decimal : Type 0 where
  pub digits : ℕ
  pub decimals : ℕ

abbrev pub decimal : ℕ → ℕ → Decimal
decimal digits decimals = record { digits = digits; decimals = decimals }

pub record Settings : Type 0 where
  pub index_dir : String
  pub embed_model : String
  pub embed_dim : ℕ
  pub embed_batch_size : ℕ
  pub embed_max_length : ℕ
  pub embed_device : String
  pub rerank_model : String
  pub rerank_batch_size : ℕ
  pub rerank_max_length : ℕ
  pub rerank_device : String
  pub vector_index_type : String
  pub hnsw_m : ℕ
  pub hnsw_ef_construction : ℕ
  pub hnsw_ef_search : ℕ
  pub crawl_delay : ℕ
  pub crawl_concurrency : ℕ
  pub crawl_max_depth : ℕ
  pub crawl_max_pages : ℕ
  pub crawl_request_timeout : ℕ
  pub crawl_max_response_mb : ℕ
  pub quality_threshold : Decimal
  pub min_words : ℕ
  pub max_link_density : Decimal
  pub dedup_threshold : Decimal
  pub dedup_num_perm : ℕ
  pub neural_filter_threshold : Decimal
  pub bm25_weight : Decimal
  pub dense_weight : Decimal
  pub pagerank_alpha : Decimal
  pub api_host : String
  pub api_port : ℕ
  pub api_workers : ℕ
  pub api_reload : Bool
  pub log_level : String
  pub cors_allow_origins : List String
  pub api_keys : List String
  pub rate_limit_per_minute : ℕ
  pub search_cache_ttl_s : ℕ
  pub search_cache_size : ℕ
  pub suggest_max_results : ℕ

abbrev pub defaults : Settings
defaults = record {
  index_dir = "./data/index";
  embed_model = "BAAI/bge-large-en-v1.5";
  embed_dim = 1024;
  embed_batch_size = 64;
  embed_max_length = 512;
  embed_device = "cpu";
  rerank_model = "cross-encoder/ms-marco-MiniLM-L-12-v2";
  rerank_batch_size = 32;
  rerank_max_length = 512;
  rerank_device = "cpu";
  vector_index_type = "hnsw";
  hnsw_m = 32;
  hnsw_ef_construction = 200;
  hnsw_ef_search = 64;
  crawl_delay = 1_000_000_000;
  crawl_concurrency = 32;
  crawl_max_depth = 3;
  crawl_max_pages = 10_000;
  crawl_request_timeout = 15_000_000_000;
  crawl_max_response_mb = 5;
  quality_threshold = decimal 35 2;
  min_words = 80;
  max_link_density = decimal 4 1;
  dedup_threshold = decimal 8 1;
  dedup_num_perm = 128;
  neural_filter_threshold = decimal 25 2;
  bm25_weight = decimal 10 1;
  dense_weight = decimal 10 1;
  pagerank_alpha = decimal 1 1;
  api_host = "0.0.0.0";
  api_port = 8000;
  api_workers = 1;
  api_reload = false;
  log_level = "INFO";
  cors_allow_origins = [];
  api_keys = [];
  rate_limit_per_minute = 0;
  search_cache_ttl_s = 30_000_000_000;
  search_cache_size = 512;
  suggest_max_results = 10;
}
