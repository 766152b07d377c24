-- ===== src/Indexer/Pipeline/Tests.antt =====
-- A run of the pipeline, and instances of the theorems about it.
use axon_search.Indexer.Pipeline.Pages.{total, weigh, passed, mass}
use axon_search.Base.{
  ℕ, ◌+◌, ◌≤◌, ◌≡◌, refl, ap, true, false, none, some, List, [], ◌∷◌, length, keep,
}
use axon_search.Base.Text.{Text, Text-discrete, codes, strip, split, lower}
use axon_search.Base.Dict.{contains}
use axon_search.Base.Samples.{hundredths}
use axon_search.Utils.QualityScorer.{score}
use axon_search.Crawler.Crawl.{drop_at}
use axon_search.Crawler.Extractor.{extract}
use axon_search.Utils.Dedup.{Lsh}
use axon_search.Utils.Dedup
use axon_search.Crawler.Extractor.Samples.{html, result}
use axon_search.Crawler.LinkGraph
use axon_search.Indexer.Bm25
use axon_search.Indexer.Bm25.{get_or, Meta}
use axon_search.Indexer.VectorStore
use axon_search.Indexer.VectorStore.{flat}
use axon_search.Indexer.VectorStore.Samples.{lists, lists-Laws}
use axon_search.Indexer.Samples.{sample_env}
use axon_search.Indexer.Batching.{Parts, Page}
use axon_search.Indexer.Pipeline.{
  Run, Event, crawl_page, put_result, end_crawl, take_result, end_extract, put_page, end_extracting,
  take_page, start, run, has_ended,
}
use axon_search.Indexer.Pipeline.Batches.{index_each, index_pages, IsRowwise, index_pages-each}
use axon_search.Indexer.Pipeline.Accounts.{run-Accounts}
use axon_search.Indexer.Pipeline.Queues.{entries, waiting}
use axon_search.Indexer.Pipeline.Progress.{CanFinish, run-CanFinish, IsReady}

-- No text is a duplicate, and the vector of a text is its length.
abbrev never : Lsh ℕ
never = record {
  MinHash = ℕ;
  Handle = ℕ;
  blank = 0;
  update = λ s mh. mh;
  jaccard = λ a b. 0;
  empty = 0;
  query = λ mh h. [];
  insert = λ key mh h. h;
}

abbrev parts : Parts
parts = record {
  env = sample_env;
  faiss = lists;
  html = html;
  calls = record {
    decay = λ n. 1;
    round4 = λ x. x;
    is_digit = λ c. false;
    is_upper = λ c. false;
    boilerplate = λ text. 0;
  };
  quality = record { threshold = 10; min_words = 1; max_link_density = 100 };
  lsh = never;
  encode = λ texts i. length (get_or texts i []);
  number = λ n. codes "n";
}

abbrev blank_run : Run parts
blank_run =
    start parts (Bm25.init sample_env 120 75) (VectorStore.init lists 1 flat) (Dedup.init never 5)
      (LinkGraph.init hundredths 85 50 1)

-- One page is crawled, extracted, kept and indexed, and the stages end.
abbrev events : List Event
events =
    crawl_page result
    ∷ put_result
    ∷ take_result
    ∷ end_crawl
    ∷ end_extract 0
    ∷ put_page 0
    ∷ take_result
    ∷ end_extracting
    ∷ take_page
    ∷ take_page
    ∷ []

abbrev ended : Run parts
ended = run parts 2 events blank_run

ended_after_one : (ended.indexes.indexed ≡ 1) × (ended.finished ≡ true)
unfolding run start extract strip score split keep contains Text-discrete lower Dedup.is_duplicate
    drop_at VectorStore.add
ended_after_one = (refl, refl)

run-Accounts_example :
    (ended.stats.quality_dropped
        + ended.stats.deduped
        + ended.stats.extracted
        + length ended.extracting
        + entries ended.crawl_q
        + waiting ended.offered
      ≤ ended.stats.crawled)
    × (ended.stats.extracted
        ≡ ended.indexes.indexed
          + ended.indexes.lost
          + length ended.batch
          + entries ended.extract_q
          + length ended.putting)
    × (ended.indexes.lost ≡ 0
        → (q : Meta → ℕ)
        → mass parts q ended
          ≡ total q (Bm25.init sample_env 120 75).metadata
            + weigh parts q (passed parts 2 events blank_run))
    × (has_ended parts ended ≡ true
        → (ended.indexes.indexed ≡ ended.stats.extracted)
          × (ended.batch ≡ [])
          × (ended.extract_q ≡ [])
          × (length ended.putting ≡ 0))
run-Accounts_example =
    run-Accounts parts 2 events (Bm25.init sample_env 120 75) (VectorStore.init lists 1 flat)
      (Dedup.init never 5) (LinkGraph.init hundredths 85 50 1)

abbrev page : Page parts
page = record {
  url = codes "u";
  canonical_url = codes "u";
  title = [];
  text = codes "one two";
  description = [];
  author = [];
  language = codes "en";
  publish_date = [];
  outlinks = [];
  word_count = 2;
  char_count = 7;
  link_density = 0;
  avg_sentence_len = 100;
}

length-IsRowwise : IsRowwise parts (λ text. length text)
length-IsRowwise texts i text e =
    ap (λ o. length (elim o as (λ _. Text) [ none ↦ [] | some t ↦ t ])) e

index_pages-each_example :
    index_pages parts 2 (page ∷ page ∷ page ∷ []) ([], blank_run.indexes)
    ≡ index_each parts (λ text. length text) (page ∷ page ∷ page ∷ []) blank_run.indexes
index_pages-each_example =
    index_pages-each parts 2 (λ text. length text) (page ∷ page ∷ page ∷ []) blank_run.indexes
      length-IsRowwise

-- Two pages wait when the crawler has ended: one for its extraction, one in the crawl's queue.
abbrev begun : List Event
begun =
    crawl_page result ∷ put_result ∷ take_result ∷ crawl_page result ∷ put_result ∷ end_crawl ∷ []

begun-run-IsReady : IsReady parts lists-Laws 2 (run parts 2 begun blank_run)
unfolding run start Bm25.init VectorStore.init drop_at
begun-run-IsReady = record { off = refl; none_lost = refl; trained = refl }

run-CanFinish_example : CanFinish parts 2 (run parts 2 begun blank_run)
run-CanFinish_example =
    run-CanFinish parts lists-Laws 2 begun (Bm25.init sample_env 120 75)
      (VectorStore.init lists 1 flat) (Dedup.init never 5) (LinkGraph.init hundredths 85 50 1)
      begun-run-IsReady
