-- ===== src/Indexer/Pipeline.antt =====
-- indexer/pipeline.py: `IndexPipeline.run` as a state machine. Each event is one stage, from one
-- point where it waits to the next; the stages and the extraction tasks go on in any order. A
-- semaphore bounds only how many pages are extracted at a time. `elapsed` is left out.
pub mod Moves
pub mod Batches
pub mod Keeping
pub mod Aligned
pub mod Pages
pub mod Queues
pub mod Accounts
pub mod Weight
pub mod Progress
mod Tests
use axon_search.Base.{
  ℕ, zero, suc, ◌+◌, Bool, true, false, not, ◌&&◌, Option, none, some, List, [], ◌∷◌, ◌++◌, map,
  leb, ltb, if◌then◌else◌, length, get_elem?, ◌||◌,
}
use axon_search.Base.Text.{Text, codes}
use axon_search.Base.Floats.{Floats}
use axon_search.Utils.QualityScorer.{Calls, Scorer, score}
use axon_search.Utils.Dedup.{Lsh, DedupFilter, is_duplicate}
use axon_search.Crawler.Crawl.{CrawlResult, drop_at}
use axon_search.Crawler.Extractor.{Html, ExtractedPage, extract}
use axon_search.Crawler.LinkGraph.{LinkGraph, add_page, compute_pagerank}
use axon_search.Indexer.Bm25
use axon_search.Indexer.Bm25.{Env, Meta, Index}
use axon_search.Indexer.VectorStore
use axon_search.Indexer.VectorStore.{Faiss, VectorStore}
use axon_search.Indexer.Batching.{Parts, Page, Indexes, flush, batch_page, is_raised}

-- Whether the extraction stage still takes pages, has read the sentinel, or has sent its own.
pub data Stage : Type 0 where
  taking : Stage
  closing : Stage
  closed : Stage

-- What happens next in a run: the crawler yields a page, or ends; a stage's wait for room in a queue
-- or for an entry ends; or a page's extraction does.
pub data Event : Type 0 where
  crawl_page : CrawlResult → Event
  put_result : Event
  end_crawl : Event
  take_result : Event
  end_extract : ℕ → Event
  put_page : ℕ → Event
  end_extracting : Event
  take_page : Event

-- `IndexStats`, without the count of the pages indexed.
pub record IndexStats : Type 0 where
  pub crawled : ℕ
  pub extracted : ℕ
  pub deduped : ℕ
  pub quality_dropped : ℕ

-- Both queues hold 256 entries at most.
abbrev pub has_room {ℓ} : {A : Type ℓ} → List A → Bool
has_room queue = ltb (length queue) 256

module _ (parts : Parts) where
  open parts use {env, faiss, html, calls, quality, lsh}
  open env use {floats}

  pub record Run : Type 0 where
    pub stats : IndexStats
    pub crawling : Bool
    pub offered : Option CrawlResult
    pub crawl_q : List (Option CrawlResult)
    pub stage : Stage
    pub extracting : List CrawlResult
    pub putting : List (Page parts)
    pub extract_q : List (Option (Page parts))
    pub batch : List (Page parts)
    pub finished : Bool
    pub indexes : Indexes parts
    pub dedup : DedupFilter lsh
    pub link_graph : LinkGraph floats

module _ (parts : Parts) where
  open parts use {env, faiss, html, calls, quality, lsh}
  open env use {floats}

  -- The quality gate and the duplicate gate of `_extract_one`.
  unfoldable pub dedup_gate : Page parts → Bool × DedupFilter lsh → Run parts → Run parts
  dedup_gate page (true, d) s = record s {
    stats = record s.stats { deduped = suc s.stats.deduped };
    dedup = d;
  }
  dedup_gate page (false, d) s = record s {
    stats = record s.stats { extracted = suc s.stats.extracted };
    dedup = d;
    putting = s.putting ++ page ∷ [];
  }

  unfoldable pub passes : Page parts → Bool
  passes page = floats.leb quality.threshold (
      score floats calls quality (record {
        text = page.text;
        word_count = page.word_count;
        link_density = page.link_density;
        avg_sentence_len = page.avg_sentence_len;
      }))

  unfoldable pub quality_gate : Option (Page parts) → Run parts → Run parts
  unfolding dedup_gate passes
  quality_gate none s = s
  quality_gate (some page) s =
      if passes page
      then dedup_gate page (is_duplicate lsh page.text s.dedup) s
      else record s { stats = record s.stats { quality_dropped = suc s.stats.quality_dropped } }

  -- `_stage_crawl`: a page of the crawler, its `put`, and the sentinel.
  unfoldable pub crawl_result : CrawlResult → Run parts → Run parts
  crawl_result result s = elim s.offered [
    | some waiting ↦ s
    | none ↦
        if s.crawling
        then record s {
          stats = record s.stats { crawled = suc s.stats.crawled };
          offered = some result;
        }
        else s
  ]

  unfoldable pub offer : Run parts → Run parts
  offer s = elim s.offered [
    | none ↦ s
    | some result ↦
        if has_room s.crawl_q
        then record s { offered = none; crawl_q = s.crawl_q ++ some result ∷ [] }
        else s
  ]

  unfoldable pub end_of_crawl : Run parts → Run parts
  end_of_crawl s = elim s.offered [
    | some waiting ↦ s
    | none ↦
        if s.crawling && has_room s.crawl_q
        then record s { crawling = false; crawl_q = s.crawl_q ++ none ∷ [] }
        else s
  ]

  -- `_stage_extract` takes an entry of its queue.
  unfoldable pub take_from : List (Option CrawlResult) → Run parts → Run parts
  take_from [] s = s
  take_from (none ∷ queue) s = record s { crawl_q = queue; stage = closing }
  take_from (some result ∷ queue) s = record s {
    crawl_q = queue;
    extracting = s.extracting ++ result ∷ [];
  }

  unfoldable pub receive : Stage → Run parts → Run parts
  unfolding take_from
  receive taking s = take_from s.crawl_q s
  receive closing s = s
  receive closed s = s

  -- `_extract_one` up to its `put`, and from there to its end.
  unfoldable pub gates : ℕ → Run parts → Run parts
  unfolding quality_gate
  gates i s = elim (get_elem? s.extracting i) [
    | none ↦ s
    | some result ↦
        quality_gate (extract floats html result) (record s { extracting = drop_at i s.extracting })
  ]

  unfoldable pub put_one : ℕ → Run parts → Run parts
  put_one i s = elim (get_elem? s.putting i) [
    | none ↦ s
    | some page ↦
        if has_room s.extract_q
        then record s {
          putting = drop_at i s.putting;
          extract_q = s.extract_q ++ some page ∷ [];
          link_graph = add_page floats page.url page.outlinks s.link_graph;
        }
        else s
  ]

  abbrev pub all_done : Run parts → Bool
  all_done s = leb (length s.extracting + length s.putting) 0

  -- The sentinel of `_stage_extract`, after `gather`.
  unfoldable pub close_stage : Stage → Run parts → Run parts
  close_stage taking s = s
  close_stage closing s =
      if all_done s && has_room s.extract_q
      then record s { stage = closed; extract_q = s.extract_q ++ none ∷ [] }
      else s
  close_stage closed s = s

  -- `_stage_index` takes an entry of its queue.
  unfoldable pub index_from : ℕ → List (Option (Page parts)) → Run parts → Run parts
  unfolding batch_page flush
  index_from embed_batch [] s = s
  index_from embed_batch (none ∷ queue) s = record s {
    extract_q = queue;
    batch = [];
    indexes = flush parts s.batch s.indexes;
    finished = true;
  }
  index_from embed_batch (some page ∷ queue) s =
      let (batch, x) = batch_page parts embed_batch page (s.batch, s.indexes) in
      record s { extract_q = queue; batch = batch; indexes = x }

  unfoldable pub step : ℕ → Event → Run parts → Run parts
  unfolding crawl_result offer end_of_crawl receive gates put_one close_stage index_from
  step embed_batch (crawl_page result) s = crawl_result result s
  step embed_batch put_result s = offer s
  step embed_batch end_crawl s = end_of_crawl s
  step embed_batch take_result s = receive s.stage s
  step embed_batch (end_extract i) s = gates i s
  step embed_batch (put_page i) s = put_one i s
  step embed_batch end_extracting s = close_stage s.stage s
  step embed_batch take_page s =
      if s.finished || is_raised parts s.indexes then s else index_from embed_batch s.extract_q s

  -- The state in which `run` starts its stages.
  unfoldable pub start :
      Index env → VectorStore faiss → DedupFilter lsh → LinkGraph floats → Run parts
  start idx store d graph = record {
    stats = record { crawled = 0; extracted = 0; deduped = 0; quality_dropped = 0 };
    crawling = true;
    offered = none;
    crawl_q = [];
    stage = taking;
    extracting = [];
    putting = [];
    extract_q = [];
    batch = [];
    finished = false;
    indexes = record { bm25 = idx; vector_store = store; indexed = 0; lost = 0 };
    dedup = d;
    link_graph = graph;
  }

  unfoldable pub run : ℕ → List Event → Run parts → Run parts
  unfolding step
  run embed_batch [] s = s
  run embed_batch (e ∷ es) s = run embed_batch es (step embed_batch e s)

  -- Whether all stages have ended, none with an exception.
  abbrev pub has_ended : Run parts → Bool
  has_ended s = s.finished && not (is_raised parts s.indexes)

  -- The link graph when `run` returns.
  unfoldable pub ranked : Run parts → LinkGraph floats
  ranked s = compute_pagerank floats s.link_graph
