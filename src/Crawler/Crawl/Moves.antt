-- ===== src/Crawler/Crawl/Moves.antt =====
-- The steps of the crawl as sequences of small moves (crawler/async_crawler.py).
use axon_search.Base.{
  ℕ, suc, ◌-◌, ◌<◌, ◌≡◌, ◌≢◌, refl, inl, inr, Option, none, some, List, [], ◌∷◌, ◌++◌, arith,
  get_elem?, ltb, ltb→lt, ◌==◌, if◌then◌else◌, Bool-cases, Option-cases,
}
use axon_search.Base.Text.{Text}
use axon_search.Crawler.Crawl.{
  Item, CrawlResult, Page, Phase, draining, collecting, remaining, finished, Crawl, drop_at, start,
  end_worker, worker, give, collect, drain, read_result, drain_rest, main, Event, run_main,
  run_worker, step, Reach, begin, later,
}

module _ (hash : Text → ℕ) (max_depth max_pages : ℕ) where
  -- What changes at a time: the place where the generator stands, an entry of the frontier that
  -- becomes a task, a signal or a page that is read, and a worker that ends.
  pub data Move (s t : Crawl) : Type 0 where
    turn : (p : Phase) → p ≢ finished → s.phase ≢ finished → t ≡ record s { phase = p } → Move s t
    halt : s.active ≡ 0 → s.results ≡ [] → t ≡ record s { phase = finished } → Move s t
    take_item :
        (item : Item) (rest : List Item)
        → s.frontier ≡ item ∷ rest
        → s.pages < max_pages
        → s.phase ≢ finished
        → t ≡ record s { frontier = rest; working = s.working ++ item ∷ []; active = suc s.active }
        → Move s t
    read_signal :
        (queue : List (Option CrawlResult))
        → s.results ≡ none ∷ queue
        → s.phase ≢ finished
        → t ≡ record s { results = queue; active = s.active - 1 }
        → Move s t
    read_page :
        (r : CrawlResult) (queue : List (Option CrawlResult))
        → s.results ≡ some r ∷ queue
        → s.phase ≢ finished
        → t ≡ give r (record s { results = queue })
        → Move s t
    end_task :
        (i : ℕ) (item : Item) (got : Option Page)
        → get_elem? s.working i ≡ some item
        → t
          ≡ end_worker hash max_depth max_pages item got
              (record s { working = drop_at i s.working })
        → Move s t

  pub data Moves (s : Crawl) : Crawl → Type 0 where
    still : Moves s s
    more : {t u : Crawl} → Moves s t → Move t u → Moves s u

  Moves-append : {s t u : Crawl} → Moves s t → Moves t u → Moves s u
  Moves-append m still = m
  Moves-append m (more n move) = more (Moves-append m n) move

  one : {s t : Crawl} → Move s t → Moves s t
  one m = more still m

  collect-Moves :
      (queue : List (Option CrawlResult)) (s : Crawl)
      → s.results ≡ queue
      → s.phase ≢ finished
      → Moves s (collect queue s)
  unfolding collect
  collect-Moves [] s e n = one (turn draining (λ q. ground arith) n refl)
  collect-Moves (none ∷ queue) s e n =
      Moves-append (one (read_signal queue e n refl)) (collect-Moves queue _ refl n)
  collect-Moves (some r ∷ queue) s e n =
      Moves-append (one (turn collecting (λ q. ground arith) n refl))
        (one (read_page r queue e (λ q. ground arith) refl))

  drain-Moves : (s : Crawl) → s.phase ≢ finished → Moves s (drain hash max_depth max_pages s)
  unfolding drain
  drain-Moves s n = elim (Bool-cases (ltb s.pages max_pages)) [
    | inr full ↦ rw full (one (turn remaining (λ q. ground arith) n refl))
    | inl room ↦ rw room (go s.frontier refl (ltb→lt s.pages max_pages room))
  ]
    where
      go :
          (items : List Item)
          → s.frontier ≡ items
          → s.pages < max_pages
          → Moves s (elim items [
            | [] ↦ if s.active == 0 then record s { phase = remaining } else s
            | item ∷ rest ↦ collect s.results (record s {
              frontier = rest;
              working = s.working ++ item ∷ [];
              active = suc s.active;
            })
          ])
      go [] e h = elim (Bool-cases (s.active == 0)) [
        | inl idle ↦ rw idle (one (turn remaining (λ q. ground arith) n refl))
        | inr busy ↦ rw busy still
      ]
      go (item ∷ rest) e h =
          Moves-append (one (take_item item rest e h n refl)) (collect-Moves s.results _ refl n)

  drain_rest-Moves : (s : Crawl) → s.phase ≢ finished → Moves s (drain_rest s)
  unfolding drain_rest read_result
  drain_rest-Moves s n = go s.results refl
    where
      go : (queue : List (Option CrawlResult)) → s.results ≡ queue → Moves s (read_result queue s)
      go [] e = elim (Bool-cases (s.active == 0)) [
        | inl idle ↦ rw idle (one (halt (ground arith) e refl))
        | inr busy ↦ rw busy still
      ]
      go (none ∷ rest) e = one (read_signal rest e n refl)
      go (some r ∷ rest) e = one (read_page r rest e n refl)

  worker-Moves :
      (i : ℕ) (got : Option Page) (s : Crawl) → Moves s (worker hash max_depth max_pages i got s)
  unfolding worker
  worker-Moves i got s = elim (Option-cases (get_elem? s.working i)) [
    | inl e ↦ rw (e, worker) still
    | inr (item, e) ↦ rw (e, worker) (one (end_task i item got e refl))
  ]

  main-Moves : (s : Crawl) → Moves s (main hash max_depth max_pages s)
  unfolding main
  main-Moves s = go s.phase refl
    where
      go :
          (p : Phase)
          → s.phase ≡ p
          → Moves s (elim p [
            | draining ↦ drain hash max_depth max_pages s
            | collecting ↦ collect s.results s
            | remaining ↦ drain_rest s
            | finished ↦ s
          ])
      go draining e = drain-Moves s (λ q. ground arith)
      go collecting e = collect-Moves s.results s refl (λ q. ground arith)
      go remaining e = drain_rest-Moves s (λ q. ground arith)
      go finished e = still

  pub step-Moves : (e : Event) (s : Crawl) → Moves s (step hash max_depth max_pages e s)
  unfolding step
  step-Moves run_main s = main-Moves s
  step-Moves (run_worker i got) s = worker-Moves i got s

  Moves-keep :
      (P : Crawl → Type 0)
      → ((s t : Crawl) → Move s t → P s → P t)
      → {s t : Crawl} → Moves s t
      → P s
      → P t
  Moves-keep P keep still h = h
  Moves-keep P keep (more {t} {u} m move) h = keep t u move (Moves-keep P keep m h)

  -- What every move keeps holds of every state that the crawl comes to.
  pub Reach-keep :
      (P : Crawl → Type 0) (seeds : List Text)
      → ((s t : Crawl) → Move s t → P s → P t)
      → P (start hash max_depth max_pages seeds)
      → {s : Crawl} → Reach hash max_depth max_pages seeds s
      → P s
  Reach-keep P seeds keep h begin = h
  Reach-keep P seeds keep h (later {s} r e) =
      Moves-keep P keep (step-Moves e s) (Reach-keep P seeds keep h r)
