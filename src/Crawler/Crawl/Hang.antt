-- ===== src/Crawler/Crawl/Hang.antt =====
-- A crawl that never ends (crawler/async_crawler.py).
use axon_search.Base.{
  ℕ, zero, suc, ◌<◌, ◌≡◌, refl, sym, ap, Option, none, some, List, [], ◌∷◌, lt→ltb,
}
use mathlib.Core.Path.{subst}
use axon_search.Base.Text.{Text}
use axon_search.Crawler.Crawl.{
  Item, CrawlResult, Page, draining, Crawl, drop_at, seed, start, discovered, result_of, end_worker,
  worker, collect, drain, main, Event, run_main, run_worker, step, Reach, begin, later, dies,
}

module _ (hash : Text → ℕ) (max_pages : ℕ) (room : 0 < max_pages) (url : Text) where
  abbrev first : Item
  first = record { url = url; depth = 0; parent = [] }

  -- The seed is taken and its worker at work.
  abbrev taken : Crawl
  taken = record {
    frontier = [];
    seen = hash url ∷ [];
    working = first ∷ [];
    results = [];
    active = 1;
    died = 0;
    pages = 0;
    yielded = [];
    phase = draining;
  }

  -- Its worker has ended, and nobody reads its results.
  abbrev unread : List (Option CrawlResult) → Crawl
  unread queue = record taken { working = []; results = queue }

  data IsHanging (s : Crawl) : Type 0 where
    at_start : s ≡ start hash 0 max_pages (url ∷ []) → IsHanging s
    at_taken : s ≡ taken → IsHanging s
    at_unread : (queue : List (Option CrawlResult)) → s ≡ unread queue → IsHanging s

  drain-start : drain hash 0 max_pages (start hash 0 max_pages (url ∷ [])) ≡ taken
  unfolding drain start seed collect
  drain-start = rw (lt→ltb 0 max_pages room) refl

  drain-taken : drain hash 0 max_pages taken ≡ taken
  unfolding drain
  drain-taken = rw (lt→ltb 0 max_pages room) refl

  drain-unread :
      (queue : List (Option CrawlResult)) → drain hash 0 max_pages (unread queue) ≡ unread queue
  unfolding drain
  drain-unread queue = rw (lt→ltb 0 max_pages room) refl

  worker-taken : (i : ℕ) (got : Option Page) → IsHanging (worker hash 0 max_pages i got taken)
  unfolding worker drop_at end_worker discovered dies
  worker-taken zero none = at_unread (none ∷ []) refl
  worker-taken zero (some page) = at_unread (some (result_of first page) ∷ none ∷ []) refl
  worker-taken (suc i) got = at_taken refl

  step-IsHanging : (e : Event) (s : Crawl) → IsHanging s → IsHanging (step hash 0 max_pages e s)
  unfolding step main worker start
  step-IsHanging run_main s (at_start e) =
      subst (λ t. IsHanging (main hash 0 max_pages t)) (sym e) (at_taken drain-start)
  step-IsHanging run_main s (at_taken e) =
      subst (λ t. IsHanging (main hash 0 max_pages t)) (sym e) (at_taken drain-taken)
  step-IsHanging run_main s (at_unread queue e) =
      subst (λ t. IsHanging (main hash 0 max_pages t)) (sym e)
        (at_unread queue (drain-unread queue))
  step-IsHanging (run_worker i got) s (at_start e) =
      subst (λ t. IsHanging (worker hash 0 max_pages i got t)) (sym e) (at_start refl)
  step-IsHanging (run_worker i got) s (at_taken e) =
      subst (λ t. IsHanging (worker hash 0 max_pages i got t)) (sym e) (worker-taken i got)
  step-IsHanging (run_worker i got) s (at_unread queue e) =
      subst (λ t. IsHanging (worker hash 0 max_pages i got t)) (sym e) (at_unread queue refl)

  Reach-IsHanging : {s : Crawl} → Reach hash 0 max_pages (url ∷ []) s → IsHanging s
  Reach-IsHanging begin = at_start refl
  Reach-IsHanging (later {s} r e) = step-IsHanging e s (Reach-IsHanging r)

  IsHanging-draining : (s : Crawl) → IsHanging s → (s.phase ≡ draining) × (s.yielded ≡ [])
  unfolding start
  IsHanging-draining s (at_start e) = (ap (λ t. t.phase) e, ap (λ t. t.yielded) e)
  IsHanging-draining s (at_taken e) = (ap (λ t. t.phase) e, ap (λ t. t.yielded) e)
  IsHanging-draining s (at_unread queue e) = (ap (λ t. t.phase) e, ap (λ t. t.yielded) e)

  -- A crawl of a single seed to depth 0, for a positive number of pages, never ends and never yields
  -- a page, whatever its worker gets and whatever the event loop runs.
  pub Reach-draining :
      {s : Crawl} → Reach hash 0 max_pages (url ∷ []) s → (s.phase ≡ draining) × (s.yielded ≡ [])
  Reach-draining {s} r = IsHanging-draining s (Reach-IsHanging r)
