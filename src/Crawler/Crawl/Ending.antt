-- ===== src/Crawler/Crawl/Ending.antt =====
-- How a crawl ends (crawler/async_crawler.py).
use axon_search.Base.{
  ℕ, zero, suc, ◌-◌, ◌≡◌, refl, sym, ap, ◌∙◌, Option, none, some, List, [], ◌∷◌, ◌++◌, arith,
  length, ◌==◌, if◌then◌else◌,
}
use mathlib.Core.Path.{subst}
use mathlib.Core.List.{append-nil, append_assoc}
use axon_search.Base.Text.{Text}
use axon_search.Crawler.Crawl.{
  CrawlResult, draining, collecting, remaining, finished, Crawl, give, collect, drain, read_result,
  drain_rest, main, Event, run_main, step, run, Reach,
}
use axon_search.Crawler.Crawl.Accounts.{signals, Reach-Accounts}
use axon_search.Crawler.Crawl.Unique.{pages_in}

-- The generator, resumed so many times.
abbrev pub resume : ℕ → List Event
resume zero = []
resume (suc n) = run_main ∷ resume n

module _ (hash : Text → ℕ) (max_depth max_pages : ℕ) where
  main-remaining :
      (s : Crawl) → s.phase ≡ remaining → main hash max_depth max_pages s ≡ drain_rest s
  unfolding main
  main-remaining s p =
      ap
        (λ phase. elim phase as (λ _. Crawl) [
          | draining ↦ drain hash max_depth max_pages s
          | collecting ↦ collect s.results s
          | remaining ↦ drain_rest s
          | finished ↦ s
        ])
        p

  drain_rest_is :
      (s : Crawl) (queue : List (Option CrawlResult))
      → s.results ≡ queue
      → drain_rest s ≡ read_result queue s
  unfolding drain_rest
  drain_rest_is s queue e = ap (λ results. read_result results s) e

  idle_ends :
      (s : Crawl)
      → s.active ≡ 0
      → (if s.active == 0 then record s { phase = finished } else s) ≡ record s { phase = finished }
  idle_ends s a = ap (λ n. if n == 0 then record s { phase = finished } else s) a

  drain_rest-ends :
      (queue : List (Option CrawlResult)) (s : Crawl)
      → s.results ≡ queue
      → s.phase ≡ remaining
      → s.active ≡ signals queue
      → let t = run hash max_depth max_pages (resume (suc (length queue))) s in
        (t.phase ≡ finished) × (t.yielded ≡ s.yielded ++ pages_in queue)
  unfolding run step signals pages_in give read_result
  drain_rest-ends [] s e p a =
      let done = main-remaining s p ∙ drain_rest_is s [] e ∙ idle_ends s a in
      (ap (λ t. t.phase) done, ap (λ t. t.yielded) done ∙ sym (append-nil s.yielded))
  drain_rest-ends (none ∷ queue) s e p a =
      let next = main-remaining s p ∙ drain_rest_is s (none ∷ queue) e in
      subst
        (λ t.
          let u = run hash max_depth max_pages (resume (suc (length queue))) t in
          (u.phase ≡ finished) × (u.yielded ≡ s.yielded ++ pages_in queue))
        (sym next)
        (drain_rest-ends queue (record s { results = queue; active = s.active - 1 }) refl p
          (omega arith))
  drain_rest-ends (some r ∷ queue) s e p a =
      let next = main-remaining s p ∙ drain_rest_is s (some r ∷ queue) e in
      let given = give r (record s { results = queue }) in
      let (ended, all) = drain_rest-ends queue given refl p a in
      subst
        (λ t.
          let u = run hash max_depth max_pages (resume (suc (length queue))) t in
          (u.phase ≡ finished) × (u.yielded ≡ s.yielded ++ r ∷ pages_in queue))
        (sym next) (ended, all ∙ append_assoc s.yielded (r ∷ []) (pages_in queue))

  -- A crawl whose frontier is left and whose workers have all ended, none with an exception, comes
  -- to its end when its generator is resumed once for each result that waits and once more; it
  -- then has yielded all the pages that waited, in their order.
  pub Reach-ends :
      (seeds : List Text) {s : Crawl}
      → Reach hash max_depth max_pages seeds s
      → s.phase ≡ remaining
      → s.working ≡ []
      → s.died ≡ 0
      → let t = run hash max_depth max_pages (resume (suc (length s.results))) s in
        (t.phase ≡ finished) × (t.yielded ≡ s.yielded ++ pages_in s.results)
  Reach-ends seeds {s} r p idle alive =
      drain_rest-ends s.results s refl p
        (omega (arith, (Reach-Accounts hash max_depth max_pages seeds r).0, ap length idle, alive))
