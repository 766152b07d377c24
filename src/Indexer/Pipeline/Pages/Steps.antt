-- ===== src/Indexer/Pipeline/Pages/Steps.antt =====
-- The pages of a run, step by step (indexer/pipeline.py).
use axon_search.Crawler.LinkGraph.{LinkGraph}
use axon_search.Indexer.Pipeline.Keeping.{step-keep}
use axon_search.Base.{
  ℕ, ◌+◌, ◌≡◌, refl, ap, ◌∙◌, inl, inr, Bool, true, false, not, Option, none, some, List, [], ◌∷◌,
  ◌++◌, arith, get_elem?, length, Bool-cases, Option-cases, if◌then◌else◌, ◌||◌, ◌<◌, ltb,
}
use axon_search.Utils.Dedup.{DedupFilter, is_duplicate}
use axon_search.Crawler.Crawl.{CrawlResult, drop_at}
use axon_search.Crawler.Extractor.{extract}
use axon_search.Indexer.Bm25.{Meta, Index}
use axon_search.Indexer.VectorStore.{VectorStore}
use axon_search.Indexer.Batching.{Parts, Page, Indexes, index_page, is_raised}
use axon_search.Indexer.Pipeline.Aligned.{described}
use axon_search.Indexer.Pipeline.{
  Stage, taking, closing, closed, Run, Event, crawl_page, put_result, end_crawl, take_result,
  end_extract, put_page, end_extracting, take_page, passes, dedup_gate, quality_gate, step, run,
  start, has_room, crawl_result, offer, end_of_crawl, take_from, receive, gates, put_one,
  close_stage, index_from,
}
use axon_search.Indexer.Pipeline.Pages.{
  total, total-append, total-drop_at, queued, queued-append, admitted_page, admitted_of, admitted,
  passed, weigh, mass, known-flush, known-batch_page,
}

module _ (parts : Parts) (q : Meta → ℕ) where
  open parts use {env, faiss}

  crawl_result-mass :
      (result : CrawlResult) (s : Run parts)
      → mass parts q (crawl_result parts result s) ≡ mass parts q s
  unfolding crawl_result
  crawl_result-mass result s = ground arith

  offer-mass : (s : Run parts) → mass parts q (offer parts s) ≡ mass parts q s
  unfolding offer
  offer-mass s = ground arith

  end_of_crawl-mass : (s : Run parts) → mass parts q (end_of_crawl parts s) ≡ mass parts q s
  unfolding end_of_crawl
  end_of_crawl-mass s = ground arith

  take_from-mass :
      (queue : List (Option CrawlResult)) (s : Run parts)
      → mass parts q (take_from parts queue s) ≡ mass parts q s
  unfolding take_from
  take_from-mass [] s = refl
  take_from-mass (none ∷ queue) s = refl
  take_from-mass (some result ∷ queue) s = refl

  receive-mass :
      (stage : Stage) (s : Run parts) → mass parts q (receive parts stage s) ≡ mass parts q s
  unfolding receive
  receive-mass taking s = take_from-mass s.crawl_q s
  receive-mass closing s = refl
  receive-mass closed s = refl

  weigh-snoc :
      (pages : List (Page parts)) (page : Page parts)
      → weigh parts q (pages ++ page ∷ []) ≡ weigh parts q pages + q (described parts page)
  weigh-snoc pages page = omega (arith, total-append (λ p. q (described parts p)) pages (page ∷ []))

  weigh-queue :
      (queue : List (Option (Page parts))) (o : Option (Page parts))
      → weigh parts q (queued (queue ++ o ∷ []))
        ≡ weigh parts q (queued queue) + weigh parts q (queued (o ∷ []))
  weigh-queue queue o =
      ap (weigh parts q) (queued-append queue (o ∷ []))
      ∙ total-append (λ p. q (described parts p)) (queued queue) (queued (o ∷ []))

  dedup_gate-mass :
      (page : Page parts) (answer : Bool × DedupFilter parts.lsh) (s : Run parts)
      → mass parts q (dedup_gate parts page answer s)
        ≡ mass parts q s + weigh parts q (if not answer.0 then page ∷ [] else [])
  unfolding dedup_gate
  dedup_gate-mass page (true, d) s = omega arith
  dedup_gate-mass page (false, d) s = omega (arith, weigh-snoc s.putting page)

  quality_gate-mass :
      (page : Option (Page parts)) (s : Run parts)
      → mass parts q (quality_gate parts page s)
        ≡ mass parts q s + weigh parts q (admitted_page parts page s.dedup)
  unfolding quality_gate
  quality_gate-mass none s = omega arith
  quality_gate-mass (some page) s = elim (Bool-cases (passes parts page)) [
    | inl yes_it ↦ rw yes_it (dedup_gate-mass page (is_duplicate parts.lsh page.text s.dedup) s)
    | inr no_it ↦ rw no_it (omega arith)
  ]

  put_one-mass : (i : ℕ) (s : Run parts) → mass parts q (put_one parts i s) ≡ mass parts q s
  unfolding put_one
  put_one-mass i s = elim (Option-cases (get_elem? s.putting i)) [
    | inl e ↦ rw (e, put_one) refl
    | inr (page, e) ↦ elim (Bool-cases (has_room s.extract_q)) [
      | inl room ↦
          rw (e, put_one, room)
            (omega (
              arith,
              weigh-queue s.extract_q (some page),
              total-drop_at (λ p. q (described parts p)) i s.putting page e,
            ))
      | inr full ↦ rw (e, put_one, full) refl
    ]
  ]

  close_stage-mass :
      (stage : Stage) (s : Run parts) → mass parts q (close_stage parts stage s) ≡ mass parts q s
  unfolding close_stage
  close_stage-mass taking s = refl
  close_stage-mass closing s = ground (arith, weigh-queue s.extract_q none)
  close_stage-mass closed s = refl

  index_from-mass :
      (n : ℕ) (queue : List (Option (Page parts))) (s : Run parts)
      → s.extract_q ≡ queue
      → (index_from parts n queue s).indexes.lost ≡ 0
      → (s.indexes.lost ≡ 0) × (mass parts q (index_from parts n queue s) ≡ mass parts q s)
  unfolding index_from
  index_from-mass n [] s e ok = (ok, refl)
  index_from-mass n (none ∷ queue) s e ok =
      let (ok', flushed) = known-flush parts q s.batch s.indexes ok in
      (ok', omega (arith, flushed, ap (λ o. weigh parts q (queued o)) e))
  index_from-mass n (some page ∷ queue) s e ok =
      let (ok', more) = known-batch_page parts q n page s.batch s.indexes ok in
      (ok', omega (arith, more, ap (λ o. weigh parts q (queued o)) e))

  gates-mass :
      (i : ℕ) (s : Run parts)
      → mass parts q (gates parts i s)
        ≡ mass parts q s + weigh parts q (admitted parts (end_extract i) s)
  unfolding gates
  gates-mass i s = elim (Option-cases (get_elem? s.extracting i)) [
    | inl e ↦ rw (e, gates) (omega (arith, ap (λ o. weigh parts q (admitted_of parts o s)) e))
    | inr (result, e) ↦
        rw (e, gates)
          (quality_gate-mass (extract env.floats parts.html result)
            (record s { extracting = drop_at i s.extracting }))
  ]

  index_page-lost :
      (page : Page parts) (v : faiss.Vector) (x : Indexes parts)
      → 0 < x.lost
      → 0 < (index_page parts page v x).lost
  unfolding index_page
  index_page-lost page v x h = ground arith

  none_lost_before :
      (n : ℕ) (e : Event) (s : Run parts) → (step parts n e s).indexes.lost ≡ 0 → s.indexes.lost ≡ 0
  none_lost_before n e s ok = elim (Bool-cases (ltb 0 s.indexes.lost)) [
    | inl some_lost ↦
        let still = step-keep parts (λ x. 0 < x.lost) index_page-lost n e s (ground arith) in
        absurd (omega (arith, still, ok))
    | inr none_lost ↦ ground arith
  ]

  step-mass :
      (n : ℕ) (e : Event) (s : Run parts)
      → (step parts n e s).indexes.lost ≡ 0
      → (s.indexes.lost ≡ 0)
        × (mass parts q (step parts n e s) ≡ mass parts q s + weigh parts q (admitted parts e s))
  unfolding step
  step-mass n (crawl_page result) s ok =
      (none_lost_before n (crawl_page result) s ok, omega (arith, crawl_result-mass result s))
  step-mass n put_result s ok = (none_lost_before n put_result s ok, omega (arith, offer-mass s))
  step-mass n end_crawl s ok =
      (none_lost_before n end_crawl s ok, omega (arith, end_of_crawl-mass s))
  step-mass n take_result s ok =
      (none_lost_before n take_result s ok, omega (arith, receive-mass s.stage s))
  step-mass n (end_extract i) s ok = (none_lost_before n (end_extract i) s ok, gates-mass i s)
  step-mass n (put_page i) s ok =
      (none_lost_before n (put_page i) s ok, omega (arith, put_one-mass i s))
  step-mass n end_extracting s ok =
      (none_lost_before n end_extracting s ok, omega (arith, close_stage-mass s.stage s))
  step-mass n take_page s ok = elim (Bool-cases (s.finished || is_raised parts s.indexes)) [
    | inl over ↦ (rw over at ok, rw over (omega arith))
    | inr going ↦
        let (ok', same) = index_from-mass n s.extract_q s refl (rw going at ok) in
        (ok', rw going (omega (arith, same)))
  ]

  -- As long as no exception is raised, each page is indexed or on its way as often as it has passed
  -- the gates.
  pub run-mass :
      (n : ℕ) (es : List Event) (s : Run parts)
      → (run parts n es s).indexes.lost ≡ 0
      → mass parts q (run parts n es s) ≡ mass parts q s + weigh parts q (passed parts n es s)
  unfolding run
  run-mass n es s ok = (go es s ok).1
    where
      go :
          (es : List Event) (s : Run parts)
          → (run parts n es s).indexes.lost ≡ 0
          → (s.indexes.lost ≡ 0)
            × (mass parts q (run parts n es s)
                ≡ mass parts q s + weigh parts q (passed parts n es s))
      go [] s ok = (ok, omega arith)
      go (e ∷ es) s ok =
          let (ok', later) = go es (step parts n e s) ok in
          let (ok'', here) = step-mass n e s ok' in
          (
            ok'',
            omega (
              arith,
              later,
              here,
              total-append (λ p. q (described parts p)) (admitted parts e s)
                  (passed parts n es (step parts n e s)),
            ),
          )

  pub start-mass :
      (idx : Index parts.env) (store : VectorStore parts.faiss) (d : DedupFilter parts.lsh)
      (g : LinkGraph parts.env.floats)
      → mass parts q (start parts idx store d g) ≡ total q idx.metadata
  unfolding start
  start-mass idx store d g = omega arith

  weigh-none : (pages : List (Page parts)) → length pages ≡ 0 → weigh parts q pages ≡ 0
  weigh-none [] e = refl
  weigh-none (page ∷ pages) e = absurd (ground (arith, e))

  -- Where nothing is on its way, the pages are those in the index.
  pub mass_of_ended :
      (s : Run parts)
      → s.batch ≡ []
      → s.extract_q ≡ []
      → length s.putting ≡ 0
      → mass parts q s ≡ total q s.indexes.bm25.metadata
  mass_of_ended s b e p =
      omega
        (arith, ap (weigh parts q) b, ap (λ o. weigh parts q (queued o)) e, weigh-none s.putting p)
