-- ===== src/Indexer/Pipeline/Progress.antt =====
-- A run of the pipeline can always go on to its end (indexer/pipeline.py).
use axon_search.Indexer.Pipeline.Pages.Steps.{run-mass, mass_of_ended}
use axon_search.Indexer.Pipeline.Pages.{total, weigh, passed, mass}
use axon_search.Indexer.Pipeline.Aligned.{is_trained, index_page_trained}
use axon_search.Indexer.Pipeline.Keeping.{step-keep}
use axon_search.Base.{
  ℕ, zero, suc, ◌<◌, ◌≡◌, refl, sym, ap, ◌∙◌, inl, inr, Bool, true, false, Option, none, some, List,
  [], ◌∷◌, ◌++◌, arith, Bool-cases, All, ltb, ◌+◌,
}
use mathlib.Core.Path.{subst}
use mathlib.Core.Bool.{false≢true}
use mathlib.Core.List.{cons≢nil}
use axon_search.Utils.Dedup.{DedupFilter}
use axon_search.Crawler.LinkGraph.{LinkGraph}
use axon_search.Crawler.Extractor.{extract}
use axon_search.Indexer.Bm25.{Index, Meta}
use axon_search.Indexer.VectorStore.Results
use axon_search.Indexer.VectorStore.{VectorStore}
use axon_search.Indexer.Pipeline.Accounts.{
  Accounts, Move-Accounts, start-Accounts, run-Accounts, has_ended-kept,
}
use axon_search.Indexer.Pipeline.Moves.{
  Move, wait, yield, enqueue, stop, see_end, begin_extract, extract_page, send_page, close,
  flush_rest, index, step-Move, run-keep,
}
use axon_search.Crawler.Crawl.{CrawlResult, drop_at}
use axon_search.Indexer.Pipeline.Queues.{IsEnded}
use axon_search.Indexer.Batching.{Parts, Page, Indexes, index_page}
use axon_search.Indexer.Pipeline.{
  Stage, taking, closing, closed, Run, Event, crawl_page, put_result, end_crawl, take_result,
  end_extract, put_page, end_extracting, take_page, quality_gate, dedup_gate, step, start, run,
  has_ended,
}
use axon_search.Indexer.Pipeline.Weight.{
  weight, weight-put_result, weight-take_result, weight-end_extracting, weight-put_page,
  weight-end_extract, weight-take_page,
}

-- Whether a queue has the sentinel.
abbrev has_end : {A : Type 0} → List (Option A) → Bool
has_end [] = false
has_end (none ∷ queue) = true
has_end (some x ∷ queue) = has_end queue

-- Any event but those of the crawler.
abbrev pub IsInternal : Event → Type 0
IsInternal (crawl_page result) = ⊥
IsInternal put_result = Unit
IsInternal end_crawl = ⊥
IsInternal take_result = Unit
IsInternal (end_extract i) = Unit
IsInternal (put_page i) = Unit
IsInternal end_extracting = Unit
IsInternal take_page = Unit

has_end-some : {A : Type 0} (q : List (Option A)) (x : A) → has_end (q ++ some x ∷ []) ≡ has_end q
has_end-some [] x = refl
has_end-some (none ∷ q) x = refl
has_end-some (some y ∷ q) x = has_end-some q x

has_end-none : {A : Type 0} (q : List (Option A)) → has_end (q ++ none ∷ []) ≡ true
has_end-none [] = refl
has_end-none (none ∷ q) = refl
has_end-none (some y ∷ q) = has_end-none q

module _ (parts : Parts) where
  -- Some events of the stages alone lead from a state of a run to its end. There as many pages are
  -- indexed as passed the gates, and each page that was indexed before or on its way from the gates,
  -- or has passed them since, stands in the BM25 index just as often.
  abbrev pub CanFinish : ℕ → Run parts → Type 0
  CanFinish n s =
      (more : List Event) × (All IsInternal more
        × let t = run parts n more s in
          (has_ended parts t ≡ true)
          × (t.indexes.indexed ≡ t.stats.extracted)
          × ((q : Meta → ℕ)
              → total q t.indexes.bm25.metadata
                ≡ mass parts q s + weigh parts q (passed parts n more s)))

  -- After the end of the crawl, its sentinel is on the way to the extraction stage.
  abbrev IsSignalled : Run parts → Type 0
  IsSignalled s = s.crawling ≡ false → s.stage ≡ taking → has_end s.crawl_q ≡ true

module _ (parts : Parts) (laws : Results.Laws parts.faiss) (n : ℕ) where
  Signalled-same :
      (s t : Run parts)
      → t.crawling ≡ s.crawling
      → t.stage ≡ s.stage
      → t.crawl_q ≡ s.crawl_q
      → IsSignalled parts s
      → IsSignalled parts t
  Signalled-same s t c st q h off at = ap has_end q ∙ h (sym c ∙ off) (sym st ∙ at)

  quality_gate-same :
      (p : Option (Page parts)) (s : Run parts)
      → let t = quality_gate parts p s in
        (t.crawling ≡ s.crawling) × (t.stage ≡ s.stage) × (t.crawl_q ≡ s.crawl_q)
  unfolding quality_gate dedup_gate
  quality_gate-same none s = ground arith
  quality_gate-same (some p) s = ground arith

  Move-IsSignalled :
      (s t : Run parts) → Move parts n s t → IsSignalled parts s → IsSignalled parts t
  Move-IsSignalled s t (wait e) h = subst (IsSignalled parts) (sym e) h
  Move-IsSignalled s t (yield result o e) h = subst (IsSignalled parts) (sym e) h
  Move-IsSignalled s t (enqueue result o e) h =
      subst (IsSignalled parts) (sym e) (λ off at. has_end-some s.crawl_q result ∙ h off at)
  Move-IsSignalled s t (stop e) h =
      subst (IsSignalled parts) (sym e) (λ off at. has_end-none s.crawl_q)
  Move-IsSignalled s t (see_end queue q st e) h =
      subst (IsSignalled parts) (sym e) (λ off at. ground (arith, at))
  Move-IsSignalled s t (begin_extract result queue q st e) h =
      subst (IsSignalled parts) (sym e) (λ off at. sym (ap has_end q) ∙ h off at)
  Move-IsSignalled s t (extract_page i result g e) h =
      let (c, st, q) =
        quality_gate-same (extract parts.env.floats parts.html result)
          (record s { extracting = drop_at i s.extracting }) in
      subst (IsSignalled parts) (sym e) (λ off at. ap has_end q ∙ h (sym c ∙ off) (sym st ∙ at))
  Move-IsSignalled s t (send_page i page g e) h = subst (IsSignalled parts) (sym e) h
  Move-IsSignalled s t (close st none_left e) h =
      subst (IsSignalled parts) (sym e) (λ off at. ground (arith, at))
  Move-IsSignalled s t (flush_rest queue q f e) h = subst (IsSignalled parts) (sym e) h
  Move-IsSignalled s t (index page queue q f e) h = subst (IsSignalled parts) (sym e) h

  -- The crawler has ended, the vector store is trained, and no exception has ended the stage.
  pub record IsReady (s : Run parts) : Type 0 where
    pub off : s.crawling ≡ false
    pub none_lost : s.indexes.lost ≡ 0
    pub trained : is_trained parts s.indexes ≡ true

  Move-off : (s t : Run parts) → Move parts n s t → s.crawling ≡ false → t.crawling ≡ false
  Move-off s t (wait e) h = ap (λ u. u.crawling) e ∙ h
  Move-off s t (yield result o e) h = ap (λ u. u.crawling) e ∙ h
  Move-off s t (enqueue result o e) h = ap (λ u. u.crawling) e ∙ h
  Move-off s t (stop e) h = ap (λ u. u.crawling) e
  Move-off s t (see_end queue q st e) h = ap (λ u. u.crawling) e ∙ h
  Move-off s t (begin_extract result queue q st e) h = ap (λ u. u.crawling) e ∙ h
  Move-off s t (extract_page i result g e) h =
      ap (λ u. u.crawling) e
      ∙ (quality_gate-same (extract parts.env.floats parts.html result)
          (record s { extracting = drop_at i s.extracting })).0
      ∙ h
  Move-off s t (send_page i page g e) h = ap (λ u. u.crawling) e ∙ h
  Move-off s t (close st none_left e) h = ap (λ u. u.crawling) e ∙ h
  Move-off s t (flush_rest queue q f e) h = ap (λ u. u.crawling) e ∙ h
  Move-off s t (index page queue q f e) h = ap (λ u. u.crawling) e ∙ h

  -- A page in both indexes, the vector store still trained.
  index_page-takes :
      (page : Page parts) (v : parts.faiss.Vector) (x : Indexes parts)
      → (x.lost ≡ 0) × (is_trained parts x ≡ true)
      → let y = index_page parts page v x in (y.lost ≡ 0) × (is_trained parts y ≡ true)
  index_page-takes page v x (none_lost, trained) =
      let (h, e, t) = index_page_trained parts laws page v x trained (ap (ltb 0) none_lost) in
      (ap (λ y. y.lost) e ∙ none_lost, ap (is_trained parts) e ∙ t)

  step-IsReady : (e : Event) (s : Run parts) → IsReady s → IsReady (step parts n e s)
  step-IsReady e s r =
      let (none_lost, trained) =
        step-keep parts (λ x. (x.lost ≡ 0) × (is_trained parts x ≡ true)) index_page-takes n e s
          (r.none_lost, r.trained) in
      record {
        off = Move-off s (step parts n e s) (step-Move parts n e s) r.off;
        none_lost = none_lost;
        trained = trained;
      }

  -- An event of the pipeline itself that brings a run nearer to its end.
  record Next (s : Run parts) : Type 0 where
    event : Event
    internal : IsInternal event
    nearer : weight parts n (step parts n event s) < weight parts n s

  next_crawled :
      (s : Run parts) (q : List (Option CrawlResult)) (o : Option CrawlResult)
      → s.crawl_q ≡ q
      → s.offered ≡ o
      → s.crawling ≡ false
      → s.stage ≡ taking
      → IsSignalled parts s
      → Next s
  next_crawled s (e ∷ q) o eq eo ec st h = record {
    event = take_result;
    internal = tt;
    nearer = weight-take_result parts n s st (λ z. cons≢nil (sym eq ∙ z));
  }
  next_crawled s [] (some r) eq eo ec st h = record {
    event = put_result;
    internal = tt;
    nearer = weight-put_result parts n s r eo eq;
  }
  next_crawled s [] none eq eo ec st h = absurd (false≢true (sym (ap has_end eq) ∙ h ec st))

  next_stage :
      (s : Run parts) (stage : Stage)
      → s.stage ≡ stage
      → s.extract_q ≡ []
      → s.putting ≡ []
      → s.extracting ≡ []
      → s.finished ≡ false
      → Accounts parts s
      → IsSignalled parts s
      → IsReady s
      → Next s
  next_stage s taking st q p x f a h r = next_crawled s s.crawl_q s.offered refl refl r.off st h
  next_stage s closing st q p x f a h r = record {
    event = end_extracting;
    internal = tt;
    nearer = weight-end_extracting parts n s st x p q;
  }
  next_stage s closed st q p x f a h r = absurd (subst IsEnded q (a.ended st f))

  next :
      (s : Run parts) (q : List (Option (Page parts))) (ps : List (Page parts))
      (xs : List CrawlResult)
      → s.extract_q ≡ q
      → s.putting ≡ ps
      → s.extracting ≡ xs
      → s.finished ≡ false
      → Accounts parts s
      → IsSignalled parts s
      → IsReady s
      → Next s
  next s (e ∷ q) ps xs eq ep ex f a h r = record {
    event = take_page;
    internal = tt;
    nearer = weight-take_page parts n s e q f r.none_lost eq;
  }
  next s [] (p ∷ ps) xs eq ep ex f a h r = record {
    event = put_page 0;
    internal = tt;
    nearer = weight-put_page parts n s p ps ep eq;
  }
  next s [] [] (x ∷ xs) eq ep ex f a h r = record {
    event = end_extract 0;
    internal = tt;
    nearer = weight-end_extract parts n s x xs ex;
  }
  next s [] [] [] eq ep ex f a h r = next_stage s s.stage refl eq ep ex f a h r

  ends_within :
      (fuel : ℕ) (s : Run parts)
      → weight parts n s < fuel
      → Accounts parts s
      → IsSignalled parts s
      → IsReady s
      → (more : List Event) × (All IsInternal more × (has_ended parts (run parts n more s) ≡ true))
  unfolding run
  ends_within zero s w a h r = absurd (omega arith)
  ends_within (suc fuel) s w a h r = elim (Bool-cases s.finished) [
    | inl f ↦ ([], (tt, ground (arith, f, r.none_lost)))
    | inr f ↦
        let go = next s s.extract_q s.putting s.extracting refl refl refl f a h r in
        let t = step parts n go.event s in
        let m = step-Move parts n go.event s in
        let (more, (inner, over)) =
          ends_within fuel t (omega (arith, go.nearer)) (Move-Accounts parts n s t m a)
            (Move-IsSignalled s t m h) (step-IsReady go.event s r) in
        (go.event ∷ more, ((go.internal, inner), over))
  ]

  run-append :
      (es fs : List Event) (s : Run parts)
      → run parts n (es ++ fs) s ≡ run parts n fs (run parts n es s)
  unfolding run
  run-append [] fs s = refl
  run-append (e ∷ es) fs s = run-append es fs (step parts n e s)

  start-IsSignalled :
      (idx : Index parts.env) (store : VectorStore parts.faiss) (d : DedupFilter parts.lsh)
      (g : LinkGraph parts.env.floats)
      → IsSignalled parts (start parts idx store d g)
  unfolding start
  start-IsSignalled idx store d g = λ off. absurd (false≢true (sym off))

  -- Where the crawler has ended, the vector store is trained and no exception has ended the stage,
  -- the stages do not wait for each other for ever, whatever they have done so far: with no event but
  -- theirs the run can go on to its end. There as many pages are indexed as passed the gates, and each
  -- page, counted by its metadata in BM25, is indexed as often as it was indexed before, on its way
  -- from the gates, or has passed them since.
  pub run-CanFinish :
      (es : List Event) (idx : Index parts.env) (store : VectorStore parts.faiss)
      (d : DedupFilter parts.lsh) (g : LinkGraph parts.env.floats)
      → IsReady (run parts n es (start parts idx store d g))
      → CanFinish parts n (run parts n es (start parts idx store d g))
  run-CanFinish es idx store d g ready =
      let s = start parts idx store d g in
      let a =
        run-keep parts n (Accounts parts) (Move-Accounts parts n) es s
          (start-Accounts parts idx store d g) in
      let h =
        run-keep parts n (IsSignalled parts) Move-IsSignalled es s
          (start-IsSignalled idx store d g) in
      let t = run parts n es s in
      let (more, (inner, over)) = ends_within (suc (weight parts n t)) t (omega arith) a h ready in
      let same = run-append es more s in
      let over' : has_ended parts (run parts n (es ++ more) s) ≡ true =
        ap (has_ended parts) same ∙ over in
      let (_, _, _, at_end) = run-Accounts parts n (es ++ more) idx store d g in
      let (all, b, e, p) = at_end over' in
      (
        more,
        (
          inner,
          (
            over,
            sym (ap (λ u. u.indexes.indexed) same) ∙ all ∙ ap (λ u. u.stats.extracted) same,
            λ q.
                sym (ap (λ u. total q u.indexes.bm25.metadata) same)
                ∙ sym (mass_of_ended parts q (run parts n (es ++ more) s) b e p)
                ∙ ap (mass parts q) same
                ∙ run-mass parts q n more t (has_ended-kept parts (run parts n more t) over).1,
          ),
        ),
      )
