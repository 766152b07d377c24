-- ===== src/Api/Schemas.antt =====
-- api/schemas.py: what the request models accept, and the query parameters of api/routes/. `none`
-- stands for the answer 422. An integer may be negative; a field that is left out is `none`. A URL's
-- check is pydantic's.
pub mod Bounds
mod Tests
use axon_search.Base.{
  ℕ, Bool, true, false, ◌&&◌, Option, none, some, List, [], ◌∷◌, leb, if◌then◌else◌, length,
}
use axon_search.Base.Text.{Text, strip}
use axon_search.Indexer.Bm25.{Meta}
use axon_search.Api.SearchRoute.{SearchRequest}

pub data ℤ : Type 0 where
  pos : ℕ → ℤ
  negsuc : ℕ → ℤ

abbrev pub in_range : ℕ → ℕ → ℕ → Bool
in_range lo hi n = leb lo n && leb n hi

-- `Field(default, ge=lo, le=hi)`
unfoldable pub int_field : ℕ → ℕ → ℕ → Option ℤ → Option ℕ
int_field default lo hi none = some default
int_field default lo hi (some (negsuc n)) = none
int_field default lo hi (some (pos n)) = if in_range lo hi n then some n else none

-- `Field(..., min_length=lo, max_length=hi)`, of a text or of a list
unfoldable pub sized_field {ℓ} : {A : Type ℓ} → ℕ → ℕ → Option (List A) → Option (List A)
sized_field lo hi none = none
sized_field lo hi (some xs) = if in_range lo hi (length xs) then some xs else none

abbrev pub or_default {ℓ} : {A : Type ℓ} → A → Option A → A
or_default default none = default
or_default default (some a) = a

infixl 5 ◌>>=◌
abbrev pub ◌>>=◌ {ℓ κ} : {A : Type ℓ} {B : Type κ} → Option A → (A → Option B) → Option B
none >>= f = none
some a >>= f = f a

-- The body of `POST /search`.
pub record SearchBody : Type 0 where
  pub query : Option Text
  pub top_k : Option ℤ
  pub offset : Option ℤ
  pub rerank : Option Bool
  pub neural_filter : Option Bool
  pub filters : Option Meta

-- `SearchRequest`; `strip_query` runs after the check of the length.
unfoldable pub search_request : SearchBody → Option SearchRequest
unfolding int_field sized_field
search_request body = do
  query ← sized_field 1 1024 body.query
  top_k ← int_field 10 1 100 body.top_k
  offset ← int_field 0 0 10_000 body.offset
  some (record {
    query = strip query;
    top_k = top_k;
    offset = offset;
    rerank = or_default true body.rerank;
    neural_filter = or_default true body.neural_filter;
    filters = or_default [] body.filters;
  })

-- The body of `POST /index/url`, and `IndexURLRequest`.
pub record UrlBody : Type 0 where
  pub url : Option Text
  pub depth : Option ℤ

pub record UrlRequest : Type 0 where
  pub url : Text
  pub depth : ℕ

-- The body of `POST /index/batch`, and `IndexBatchRequest`.
pub record BatchBody : Type 0 where
  pub seeds : Option (List Text)
  pub max_pages : Option ℤ
  pub max_depth : Option ℤ
  pub concurrency : Option ℤ

pub record BatchRequest : Type 0 where
  pub seeds : List Text
  pub max_pages : ℕ
  pub max_depth : ℕ
  pub concurrency : ℕ

-- What a route makes an `AsyncCrawler` with.
pub record CrawlLimits : Type 0 where
  pub max_depth : ℕ
  pub max_pages : ℕ
  pub concurrency : ℕ

module _ (http_url : Text → Option Text) where
  -- Every item of the list has to be a URL.
  unfoldable pub all_urls : List Text → Option (List Text)
  all_urls [] = some []
  all_urls (t ∷ ts) = do url ← http_url t; urls ← all_urls ts; some (url ∷ urls)

  unfoldable pub url_request : UrlBody → Option UrlRequest
  unfolding int_field
  url_request body = do
    text ← body.url
    url ← http_url text
    depth ← int_field 0 0 5 body.depth
    some (record { url = url; depth = depth })

  unfoldable pub batch_request : BatchBody → Option BatchRequest
  unfolding int_field sized_field all_urls
  batch_request body = do
    texts ← sized_field 1 500 body.seeds
    seeds ← all_urls texts
    max_pages ← int_field 1000 1 100_000 body.max_pages
    max_depth ← int_field 3 0 10 body.max_depth
    concurrency ← int_field 16 1 64 body.concurrency
    some (record {
      seeds = seeds;
      max_pages = max_pages;
      max_depth = max_depth;
      concurrency = concurrency;
    })

-- The crawlers of `index_url` and of `_run_batch_job`.
unfoldable pub url_limits : UrlRequest → CrawlLimits
url_limits req = record { max_depth = req.depth; max_pages = 500; concurrency = 8 }

unfoldable pub batch_limits : BatchRequest → CrawlLimits
batch_limits req = record {
  max_depth = req.max_depth;
  max_pages = req.max_pages;
  concurrency = req.concurrency;
}

-- The query parameters of `GET /index/jobs` and of `GET /search/suggest`.
unfoldable pub jobs_limit : Option ℤ → Option ℕ
unfolding int_field
jobs_limit = int_field 50 1 500

unfoldable pub suggest_params : Option Text → Option ℤ → Option (Text × ℕ)
unfolding int_field sized_field
suggest_params q limit = do
  prefix ← sized_field 1 100 q
  n ← int_field 10 1 50 limit
  some (prefix, n)
