-- ===== src/Indexer/Pipeline/Moves.antt =====
-- What an event changes (indexer/pipeline.py).
use axon_search.Base.{
  ℕ, suc, ◌+◌, ◌≡◌, refl, inl, inr, Bool, true, false, ◌&&◌, Option, none, some, List, [], ◌∷◌,
  ◌++◌, arith, if◌then◌else◌, length, get_elem?, Bool-cases, Option-cases, ◌||◌,
}
use axon_search.Crawler.Crawl.{CrawlResult, drop_at}
use axon_search.Crawler.Extractor.{extract}
use axon_search.Crawler.LinkGraph.{add_page}
use axon_search.Indexer.Batching.{Parts, Page, flush, batch_page, is_raised}
use axon_search.Indexer.Pipeline.{
  Stage, taking, closing, closed, Run, has_room, Event, crawl_page, put_result, end_crawl,
  take_result, end_extract, put_page, end_extracting, take_page, quality_gate, crawl_result, offer,
  end_of_crawl, take_from, receive, gates, put_one, all_done, close_stage, index_from, step, run,
}

module _ (parts : Parts) (embed_batch : ℕ) where
  open parts use {env, lsh}

  pub data Move (s t : Run parts) : Type 0 where
    wait : t ≡ s → Move s t
    yield :
        (result : CrawlResult)
        → s.offered ≡ none
        → t ≡ record s {
          stats = record s.stats { crawled = suc s.stats.crawled };
          offered = some result;
        }
        → Move s t
    enqueue :
        (result : CrawlResult)
        → s.offered ≡ some result
        → t ≡ record s { offered = none; crawl_q = s.crawl_q ++ some result ∷ [] }
        → Move s t
    stop : t ≡ record s { crawling = false; crawl_q = s.crawl_q ++ none ∷ [] } → Move s t
    see_end :
        (queue : List (Option CrawlResult))
        → s.crawl_q ≡ none ∷ queue
        → s.stage ≡ taking
        → t ≡ record s { crawl_q = queue; stage = closing }
        → Move s t
    begin_extract :
        (result : CrawlResult) (queue : List (Option CrawlResult))
        → s.crawl_q ≡ some result ∷ queue
        → s.stage ≡ taking
        → t ≡ record s { crawl_q = queue; extracting = s.extracting ++ result ∷ [] }
        → Move s t
    extract_page :
        (i : ℕ) (result : CrawlResult)
        → get_elem? s.extracting i ≡ some result
        → t
          ≡ quality_gate parts
              (extract env.floats parts.html result)
              (record s { extracting = drop_at i s.extracting })
        → Move s t
    send_page :
        (i : ℕ) (page : Page parts)
        → get_elem? s.putting i ≡ some page
        → t ≡ record s {
          putting = drop_at i s.putting;
          extract_q = s.extract_q ++ some page ∷ [];
          link_graph = add_page env.floats page.url page.outlinks s.link_graph;
        }
        → Move s t
    close :
        s.stage ≡ closing
        → length s.extracting + length s.putting ≡ 0
        → t ≡ record s { stage = closed; extract_q = s.extract_q ++ none ∷ [] }
        → Move s t
    flush_rest :
        (queue : List (Option (Page parts)))
        → s.extract_q ≡ none ∷ queue
        → s.finished ≡ false
        → t ≡ record s {
          extract_q = queue;
          batch = [];
          indexes = flush parts s.batch s.indexes;
          finished = true;
        }
        → Move s t
    index :
        (page : Page parts) (queue : List (Option (Page parts)))
        → s.extract_q ≡ some page ∷ queue
        → s.finished ≡ false
        → t ≡ record s {
          extract_q = queue;
          batch = (batch_page parts embed_batch page (s.batch, s.indexes)).0;
          indexes = (batch_page parts embed_batch page (s.batch, s.indexes)).1;
        }
        → Move s t

  crawl_result-Move : (result : CrawlResult) (s : Run parts) → Move s (crawl_result parts result s)
  unfolding crawl_result
  crawl_result-Move result s = go s.offered refl s.crawling
    where
      go :
          (o : Option CrawlResult)
          → s.offered ≡ o
          → (on : Bool)
          → Move s (elim o [
            | some waiting ↦ s
            | none ↦
                if on
                then record s {
                  stats = record s.stats { crawled = suc s.stats.crawled };
                  offered = some result;
                }
                else s
          ])
      go (some waiting) e on = wait refl
      go none e true = yield result e refl
      go none e false = wait refl

  offer-Move : (s : Run parts) → Move s (offer parts s)
  unfolding offer
  offer-Move s = go s.offered refl
    where
      go :
          (o : Option CrawlResult)
          → s.offered ≡ o
          → Move s (elim o [
            | none ↦ s
            | some result ↦
                if has_room s.crawl_q
                then record s { offered = none; crawl_q = s.crawl_q ++ some result ∷ [] }
                else s
          ])
      go none e = wait refl
      go (some result) e = elim (Bool-cases (has_room s.crawl_q)) [
        | inl room ↦ rw room (enqueue result e refl)
        | inr full ↦ rw full (wait refl)
      ]

  end_of_crawl-Move : (s : Run parts) → Move s (end_of_crawl parts s)
  unfolding end_of_crawl
  end_of_crawl-Move s = go s.offered refl
    where
      go :
          (o : Option CrawlResult)
          → s.offered ≡ o
          → Move s (elim o [
            | some waiting ↦ s
            | none ↦
                if s.crawling && has_room s.crawl_q
                then record s { crawling = false; crawl_q = s.crawl_q ++ none ∷ [] }
                else s
          ])
      go (some waiting) e = wait refl
      go none e = elim (Bool-cases (s.crawling && has_room s.crawl_q)) [
        | inl room ↦ rw room (stop refl)
        | inr full ↦ rw full (wait refl)
      ]

  take_from-Move :
      (queue : List (Option CrawlResult)) (s : Run parts)
      → s.crawl_q ≡ queue
      → s.stage ≡ taking
      → Move s (take_from parts queue s)
  unfolding take_from
  take_from-Move [] s e st = wait refl
  take_from-Move (none ∷ queue) s e st = see_end queue e st refl
  take_from-Move (some result ∷ queue) s e st = begin_extract result queue e st refl

  receive-Move : (stage : Stage) (s : Run parts) → s.stage ≡ stage → Move s (receive parts stage s)
  unfolding receive
  receive-Move taking s e = take_from-Move s.crawl_q s refl e
  receive-Move closing s e = wait refl
  receive-Move closed s e = wait refl

  gates-Move : (i : ℕ) (s : Run parts) → Move s (gates parts i s)
  unfolding gates
  gates-Move i s = elim (Option-cases (get_elem? s.extracting i)) [
    | inl e ↦ rw (e, gates) (wait refl)
    | inr (result, e) ↦ rw (e, gates) (extract_page i result e refl)
  ]

  put_one-Move : (i : ℕ) (s : Run parts) → Move s (put_one parts i s)
  unfolding put_one
  put_one-Move i s = go (get_elem? s.putting i) refl
    where
      go :
          (o : Option (Page parts))
          → get_elem? s.putting i ≡ o
          → Move s (elim o [
            | none ↦ s
            | some page ↦
                if has_room s.extract_q
                then record s {
                  putting = drop_at i s.putting;
                  extract_q = s.extract_q ++ some page ∷ [];
                  link_graph = add_page env.floats page.url page.outlinks s.link_graph;
                }
                else s
          ])
      go none e = wait refl
      go (some page) e = elim (Bool-cases (has_room s.extract_q)) [
        | inl room ↦ rw room (send_page i page e refl)
        | inr full ↦ rw full (wait refl)
      ]

  close_stage-Move :
      (stage : Stage) (s : Run parts) → s.stage ≡ stage → Move s (close_stage parts stage s)
  unfolding close_stage
  close_stage-Move taking s e = wait refl
  close_stage-Move closing s e = elim (Bool-cases (all_done parts s && has_room s.extract_q)) [
    | inl over ↦ rw over (close e (ground arith) refl)
    | inr open_still ↦ rw open_still (wait refl)
  ]
  close_stage-Move closed s e = wait refl

  index_from-Move :
      (queue : List (Option (Page parts))) (s : Run parts)
      → s.extract_q ≡ queue
      → s.finished ≡ false
      → Move s (index_from parts embed_batch queue s)
  unfolding index_from
  index_from-Move [] s e n = wait refl
  index_from-Move (none ∷ queue) s e n = flush_rest queue e n refl
  index_from-Move (some page ∷ queue) s e n = index page queue e n refl

  take_page-Move :
      (done raised : Bool) (s : Run parts)
      → s.finished ≡ done
      → Move s (if done || raised then s else index_from parts embed_batch s.extract_q s)
  take_page-Move true raised s e = wait refl
  take_page-Move false true s e = wait refl
  take_page-Move false false s e = index_from-Move s.extract_q s refl e

  pub step-Move : (e : Event) (s : Run parts) → Move s (step parts embed_batch e s)
  unfolding step
  step-Move (crawl_page result) s = crawl_result-Move result s
  step-Move put_result s = offer-Move s
  step-Move end_crawl s = end_of_crawl-Move s
  step-Move take_result s = receive-Move s.stage s refl
  step-Move (end_extract i) s = gates-Move i s
  step-Move (put_page i) s = put_one-Move i s
  step-Move end_extracting s = close_stage-Move s.stage s refl
  step-Move take_page s = take_page-Move s.finished (is_raised parts s.indexes) s refl

  -- What every move keeps holds after any events.
  pub run-keep :
      (P : Run parts → Type 0)
      → ((s t : Run parts) → Move s t → P s → P t)
      → (es : List Event) (s : Run parts) → P s
      → P (run parts embed_batch es s)
  unfolding run
  run-keep P keep [] s h = h
  run-keep P keep (e ∷ es) s h =
      run-keep P keep es (step parts embed_batch e s)
        (keep s (step parts embed_batch e s) (step-Move e s) h)
