-- ===== src/Indexer/Pipeline/Accounts.antt =====
-- The counts of a run, and its end (indexer/pipeline.py).
use axon_search.Indexer.Pipeline.Pages.Steps.{run-mass, start-mass}
use axon_search.Indexer.Pipeline.Pages.{total, weigh, passed, mass}
use axon_search.Base.{
  ℕ, ◌+◌, ◌≤◌, ◌<◌, ◌≡◌, ◌≢◌, refl, sym, ap, ◌∙◌, inl, inr, Bool, true, false, Option, none, some,
  List, [], ◌∷◌, arith, length, length-append, Bool-cases,
}
use mathlib.Core.Path.{subst}
use mathlib.Core.Bool.{false≢true}
use axon_search.Utils.Dedup.{DedupFilter, is_duplicate}
use axon_search.Crawler.Crawl.{CrawlResult}
use axon_search.Crawler.Crawl.Accounts.{length-drop_at}
use axon_search.Crawler.LinkGraph.{LinkGraph}
use axon_search.Indexer.Bm25.{Index, Meta}
use axon_search.Indexer.VectorStore.{VectorStore}
use axon_search.Indexer.Pipeline.Queues.{
  entries, entries-append, waiting, IsOpen, IsEnded, IsOpen-append, IsEnded-append, Stage-cases,
  indexed-flush, indexed-batch_page,
}
use axon_search.Indexer.Pipeline.Moves.{
  Move, wait, yield, enqueue, stop, see_end, begin_extract, extract_page, send_page, close,
  flush_rest, index, run-keep,
}
use axon_search.Indexer.Batching.{Parts, Page}
use axon_search.Indexer.Pipeline.{
  Stage, taking, closed, Run, Event, passes, dedup_gate, quality_gate, start, run, has_ended,
}

module _ (parts : Parts) where
  pub has_ended-kept :
      (s : Run parts) → has_ended parts s ≡ true → (s.finished ≡ true) × (s.indexes.lost ≡ 0)
  has_ended-kept s h = ground (arith, h)

  -- The counts, and how far the stages have come.
  pub record Accounts (s : Run parts) : Type 0 where
    pub judged :
        s.stats.quality_dropped
          + s.stats.deduped
          + s.stats.extracted
          + length s.extracting
          + entries s.crawl_q
          + waiting s.offered
        ≤ s.stats.crawled
    pub kept :
        s.stats.extracted
        ≡ s.indexes.indexed
          + s.indexes.lost
          + length s.batch
          + entries s.extract_q
          + length s.putting
    pub quiet : s.stage ≡ closed → length s.extracting + length s.putting ≡ 0
    pub open_still : s.stage ≢ closed → IsOpen s.extract_q × (s.finished ≡ false)
    pub ended : s.stage ≡ closed → s.finished ≡ false → IsEnded s.extract_q
    pub over : s.finished ≡ true → (s.extract_q ≡ []) × (s.batch ≡ [])

  -- What a run whose extraction stage still goes on has to keep.
  going :
      (s : Run parts)
      → s.stage ≢ closed
      → IsOpen s.extract_q × (s.finished ≡ false)
      → s.stats.quality_dropped
          + s.stats.deduped
          + s.stats.extracted
          + length s.extracting
          + entries s.crawl_q
          + waiting s.offered
        ≤ s.stats.crawled
      → s.stats.extracted
        ≡ s.indexes.indexed
          + s.indexes.lost
          + length s.batch
          + entries s.extract_q
          + length s.putting
      → Accounts s
  going s n o j k = record {
    judged = j;
    kept = k;
    quiet = λ c. absurd (n c);
    open_still = λ m. o;
    ended = λ c. absurd (n c);
    over = λ f. absurd (false≢true (sym o.1 ∙ f));
  }

  dedup_gate-Accounts :
      (page : Page parts) (answer : Bool × DedupFilter parts.lsh) (s : Run parts)
      → s.stage ≢ closed
      → IsOpen s.extract_q × (s.finished ≡ false)
      → s.stats.quality_dropped
          + s.stats.deduped
          + s.stats.extracted
          + length s.extracting
          + entries s.crawl_q
          + waiting s.offered
        < s.stats.crawled
      → s.stats.extracted
        ≡ s.indexes.indexed
          + s.indexes.lost
          + length s.batch
          + entries s.extract_q
          + length s.putting
      → Accounts (dedup_gate parts page answer s)
  unfolding dedup_gate
  dedup_gate-Accounts page (true, d) s n o j k = going _ n o (omega (arith, j)) k
  dedup_gate-Accounts page (false, d) s n o j k =
      going _ n o (omega (arith, j)) (omega (arith, k, length-append {0} s.putting (page ∷ [])))

  quality_gate-Accounts :
      (page : Option (Page parts)) (s : Run parts)
      → s.stage ≢ closed
      → IsOpen s.extract_q × (s.finished ≡ false)
      → s.stats.quality_dropped
          + s.stats.deduped
          + s.stats.extracted
          + length s.extracting
          + entries s.crawl_q
          + waiting s.offered
        < s.stats.crawled
      → s.stats.extracted
        ≡ s.indexes.indexed
          + s.indexes.lost
          + length s.batch
          + entries s.extract_q
          + length s.putting
      → Accounts (quality_gate parts page s)
  unfolding quality_gate
  quality_gate-Accounts none s n o j k = going s n o (omega (arith, j)) k
  quality_gate-Accounts (some page) s n o j k = elim (Bool-cases (passes parts page)) [
    | inl e ↦ rw e (dedup_gate-Accounts page (is_duplicate parts.lsh page.text s.dedup) s n o j k)
    | inr e ↦ rw e (going _ n o (omega (arith, j)) k)
  ]

  waiting-none : {o : Option CrawlResult} → o ≡ none → waiting o ≡ 0
  waiting-none e = ap waiting e

  waiting-some : {o : Option CrawlResult} (r : CrawlResult) → o ≡ some r → waiting o ≡ 1
  waiting-some r e = ap waiting e

  taking_open : (stage : Stage) → stage ≡ taking → stage ≢ closed
  taking_open stage e = λ c. ground (arith, e, c)

  pub Move-Accounts : (n : ℕ) (s t : Run parts) → Move parts n s t → Accounts s → Accounts t
  unfolding entries
  Move-Accounts n s t (wait e) h = subst Accounts (sym e) h
  Move-Accounts n s t (yield result o e) h = subst Accounts (sym e) (record {
    judged = omega (arith, h.judged, waiting-none o);
    kept = h.kept;
    quiet = h.quiet;
    open_still = h.open_still;
    ended = h.ended;
    over = h.over;
  })
  Move-Accounts n s t (enqueue result o e) h = subst Accounts (sym e) (record {
    judged =
        omega (arith, h.judged, waiting-some result o, entries-append s.crawl_q (some result ∷ []));
    kept = h.kept;
    quiet = h.quiet;
    open_still = h.open_still;
    ended = h.ended;
    over = h.over;
  })
  Move-Accounts n s t (stop e) h = subst Accounts (sym e) (record {
    judged = omega (arith, h.judged, entries-append s.crawl_q (none ∷ []));
    kept = h.kept;
    quiet = h.quiet;
    open_still = h.open_still;
    ended = h.ended;
    over = h.over;
  })
  Move-Accounts n s t (see_end queue q st e) h = subst Accounts (sym e) (
      going _ (λ c. ground (arith, c)) (h.open_still (taking_open s.stage st))
        (omega (arith, h.judged, ap entries q)) h.kept)
  Move-Accounts n s t (begin_extract result queue q st e) h = subst Accounts (sym e) (
      going _ (taking_open s.stage st) (h.open_still (taking_open s.stage st))
        (omega (arith, h.judged, ap entries q, length-append {0} s.extracting (result ∷ [])))
        h.kept)
  Move-Accounts n s t (extract_page i result g e) h =
      let one_less = length-drop_at i s.extracting result g in
      let still : s.stage ≢ closed = λ c. omega (arith, h.quiet c, one_less) in
      subst Accounts (sym e) (
        quality_gate-Accounts _ _ still (h.open_still still) (omega (arith, h.judged, one_less))
          h.kept)
  Move-Accounts n s t (send_page i page g e) h =
      let one_less = length-drop_at i s.putting page g in
      let still : s.stage ≢ closed = λ c. omega (arith, h.quiet c, one_less) in
      let (is_open, f) = h.open_still still in
      subst Accounts (sym e) (
        going _ still (IsOpen-append s.extract_q page is_open, f) h.judged
          (omega (arith, h.kept, one_less, entries-append s.extract_q (some page ∷ []))))
  Move-Accounts n s t (close st none_left e) h =
      let still : s.stage ≢ closed = λ c. ground (arith, st, c) in
      let (is_open, f) = h.open_still still in
      subst Accounts (sym e) (record {
        judged = h.judged;
        kept = omega (arith, h.kept, entries-append s.extract_q (none ∷ []));
        quiet = λ c. none_left;
        open_still = λ m. absurd (m refl);
        ended = λ c g. IsEnded-append s.extract_q is_open;
        over = λ g. absurd (false≢true (sym f ∙ g));
      })
  Move-Accounts n s t (flush_rest queue q f e) h =
      let shut : s.stage ≡ closed = elim (Stage-cases s.stage) [
        | inl c ↦ c
        | inr m ↦ absurd (subst IsOpen q (h.open_still m).0)
      ] in
      let rest : queue ≡ [] = subst IsEnded q (h.ended shut f) in
      subst Accounts (sym e) (record {
        judged = h.judged;
        kept = omega (arith, h.kept, ap entries q, indexed-flush parts s.batch s.indexes);
        quiet = h.quiet;
        open_still = λ m. absurd (m shut);
        ended = λ c g. absurd (false≢true (sym g));
        over = λ g. (rest, refl);
      })
  Move-Accounts n s t (index page queue q f e) h = subst Accounts (sym e) (record {
    judged = h.judged;
    kept = omega (arith, h.kept, ap entries q, indexed-batch_page parts n page s.batch s.indexes);
    quiet = h.quiet;
    open_still = λ m. (subst IsOpen q (h.open_still m).0, f);
    ended = λ c g. subst IsEnded q (h.ended c f);
    over = λ g. absurd (false≢true (sym f ∙ g));
  })

  pub start-Accounts :
      (idx : Index parts.env) (store : VectorStore parts.faiss) (d : DedupFilter parts.lsh)
      (g : LinkGraph parts.env.floats)
      → Accounts (start parts idx store d g)
  unfolding start entries
  start-Accounts idx store d g =
      going _ (λ c. ground (arith, c)) (tt, refl) (omega arith) (omega arith)

  -- In every state of a run, the pages that the gates have judged, and those that wait for them, are
  -- not more than the crawler has yielded, and the number of the pages that passed the gates is that
  -- of those indexed, lost with an exception of the vector store, in the batch, in the queue before
  -- it, and waiting for room in it. As long as there is no such exception, each page, counted by its
  -- metadata in BM25, stands in the BM25 index or in one of these three exactly as often as it has
  -- passed the gates, besides what was indexed before the run. When the run has ended, without such
  -- an exception, as many pages are indexed as passed the gates, and none is left in the batch, in the
  -- queue or before it.
  pub run-Accounts :
      (embed_batch : ℕ) (es : List Event) (idx : Index parts.env) (store : VectorStore parts.faiss)
      (d : DedupFilter parts.lsh) (g : LinkGraph parts.env.floats)
      → let s = run parts embed_batch es (start parts idx store d g) in
        (s.stats.quality_dropped
            + s.stats.deduped
            + s.stats.extracted
            + length s.extracting
            + entries s.crawl_q
            + waiting s.offered
          ≤ s.stats.crawled)
        × (s.stats.extracted
            ≡ s.indexes.indexed
              + s.indexes.lost
              + length s.batch
              + entries s.extract_q
              + length s.putting)
        × (s.indexes.lost ≡ 0
            → (q : Meta → ℕ)
            → mass parts q s
              ≡ total q idx.metadata
                + weigh parts q (passed parts embed_batch es (start parts idx store d g)))
        × (has_ended parts s ≡ true
            → (s.indexes.indexed ≡ s.stats.extracted)
              × (s.batch ≡ [])
              × (s.extract_q ≡ [])
              × (length s.putting ≡ 0))
  unfolding entries
  run-Accounts n es idx store d g =
      let s = run parts n es (start parts idx store d g) in
      let a = run-keep parts n Accounts (Move-Accounts n) es _ (start-Accounts idx store d g) in
      (
        a.judged,
        a.kept,
        λ none_lost q. omega (
          arith,
          run-mass parts q n es (start parts idx store d g) none_lost,
          start-mass parts q idx store d g,
        ),
        λ over.
            let (f, none_lost) = has_ended-kept s over in
            let (q, b) = a.over f in
            let shut : _ ≡ closed = elim (Stage-cases _) [
              | inl c ↦ c
              | inr m ↦ absurd (false≢true (sym (a.open_still m).1 ∙ f))
            ] in
            let none_left = a.quiet shut in
            (
              omega (arith, a.kept, ap entries q, ap length b, none_left, none_lost),
              b,
              q,
              omega (arith, none_left),
            ),
      )
