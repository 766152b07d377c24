-- ===== src/Lib.antt =====
-- Axon Search: a search engine that crawls pages, keeps each page in a BM25 index and in a dense
-- vector store, fuses the answers of both, and serves them over HTTP. All paths below are in the
-- repository's src/ folder.
--
-- The parts and their files:
--   Base       shared names: lists over native numbers, dictionaries in insertion order
--              (Base.Dict), texts as code points (Base.Text), counters, the stable sort and its
--              first k items (Base.Sort, Base.Top), orders that tell all items apart (Base.Strict), slices
--              of lists (Base.Slices), floating-point numbers as an abstract type with an order
--              (Base.Floats).
--   Cache      utils/cache.py, `TTLCache`: the ordered dictionary is a list, least recently used
--              first; the clock readings are arguments. Cache.Keys is `make_key`, with `repr` as a
--              parameter.
--   Api        api/auth.py, api/rate_limit.py, api/metrics.py: each middleware is a function around
--              a handler with a state; Api.Stack puts them together as `create_app` of
--              api/server.py does; Api.Metrics.Prometheus is the text of a scrape.
--              Api.IndexRoutes: api/routes/index.py, deletion and jobs;
--              Api.SearchRoute: api/routes/search.py, from the cache to the items of a page.
--              Api.Schemas: api/schemas.py, which requests are accepted. Api.Server: the start and
--              the shutdown in api/server.py; Api.Server.Loop is the server as a whole, where the
--              requests and the pipelines of several jobs take turns on one state.
--   Config     config.py, the settings and their defaults.
--   Indexer    indexer/bm25.py (Indexer.Bm25) and indexer/vector_store.py (Indexer.VectorStore);
--              Indexer.Collect is the result loop that both searches share.
--              Indexer.Embedder: indexer/embedder.py, `encode` and the cache of queries.
--              Indexer.Pipeline: indexer/pipeline.py, the stages of `IndexPipeline.run` with their
--              queues, one event for each stretch between two waits of a stage; Indexer.Batching, the
--              batches that its last stage embeds and adds to both indexes.
--   Crawler    crawler/async_crawler.py: Crawler.Crawl is the generator `crawl` with its workers as
--              a state machine, Crawler.Fetch a fetch with its guards; crawler/content_extractor.py
--              (Crawler.Extractor); crawler/link_graph.py (Crawler.LinkGraph); the cache of
--              crawler/robots.py (Crawler.Robots), with its locks (Crawler.Robots.Locks).
--   Search     search/hybrid_retriever.py: fusion, filters and ranking (Search.Retriever), and
--              `retrieve` over both indexes and the link graph (Search.Retrieval);
--              search/reranker.py (Search.Reranker); search/query_processor.py
--              (Search.QueryProcessor); search/neural_filter.py (Search.NeuralFilter), whose
--              entries in the metadata are a table beside the indexes.
--   Utils      utils/quality_scorer.py (Utils.QualityScorer), utils/dedup.py (Utils.Dedup) and
--              utils/text_cleaner.py (Utils.TextCleaner), which no other part calls.
--
-- A method is a function that takes the state last and returns its result with the new state. A
-- lock is held for the whole of a method's change, so a call is one step, and histories of calls
-- are lists. Loops are structural recursion over the lists that they run through; PageRank's loop
-- recurses on its number of iterations, and the reranker's batches on the number of pairs, which
-- bounds the number of batches; the pieces of a long sentence are cut on its length, where each
-- step has at least one character. The crawler's main loop and the pipeline's stages are not run
-- to an end: a state is what any list of events leads to, and an event whose wait is not over
-- changes nothing. Exceptions: a FAISS index may refuse rows, as an IVF index does that is not
-- trained, which ends the indexing stage after the page is in BM25 (`lost` counts the pages that
-- the exception keeps out); `urljoin` may refuse a link, which ends a worker of the crawler before
-- its signal (`died`); and a handler may raise, which is the answer `none` of a middleware. Where
-- a definition recurses on a number of rounds left, its caller gives a length.
--
-- Numbers: counts, positions and clock readings are natural numbers; a negative limit, `ttl` or
-- `maxsize` takes the branch of 0. Scores are floating-point numbers of which nothing is assumed
-- but that their order is total, so that no NaN occurs.
--
-- Parameters: nltk's stop words and stemmer, BM25Okapi and numpy's partial sort (`Env` in
-- Indexer.Bm25, its documented results in Indexer.Bm25.Ranking), FAISS (`Faiss` in
-- Indexer.VectorStore, documented in Indexer.VectorStore.Results), the cross-encoder's `predict`,
-- the parser of robots.txt, the quality scorer's library calls, URL and HTML parsing, name
-- resolution and IP addresses (`Library` in Crawler.Fetch, `Html` in Crawler.Extractor), the
-- matches of the query patterns and WordNet (`Lookups` in Search.QueryProcessor), the fingerprints
-- of URLs, pickle (`Pickler` in Api.Server, documented in Api.Server.Restart), MinHash with its
-- LSH index (`Lsh` in Utils.Dedup, documented in Utils.Dedup.Seen) and the sentence transformer
-- (`Model` in Indexer.Embedder). For retrieval the embedder's `encode_query`, and for
-- Api.IndexRoutes the indexing pipeline, are arguments, for any behaviour of theirs;
-- Api.Server.Loop has the pipeline itself. Each set of hypotheses is shown to hold of concrete
-- functions in the Samples and Tests modules. `str.lower` changes the letters A to Z only.
--
-- The numbers that `uuid4` gives to jobs are arguments of the calls, and a theorem that needs them
-- to be new says so.
--
-- Not modelled: the crawler's `output_queue`, timeouts and limit of concurrent fetches; FastAPI's
-- routing and CORS; files but those of the indexes, logging and the wording of log messages.
pub mod Base
pub mod Cache
pub mod Config
pub mod Api
pub mod Indexer
pub mod Crawler
pub mod Search
pub mod Utils
