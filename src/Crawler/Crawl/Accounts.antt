-- ===== src/Crawler/Crawl/Accounts.antt =====
-- No worker and no page is lost (crawler/async_crawler.py).
use axon_search.Base.{
  ℕ, zero, suc, ◌+◌, ◌≡◌, refl, sym, ap, ◌∙◌, Option, none, some, List, [], ◌∷◌, ◌++◌, arith,
  length, get_elem?, length-append, inl, inr, Bool-cases,
}
use mathlib.Core.Path.{subst}
use mathlib.Core.Option.{none-ne-some}
use axon_search.Base.Text.{Text}
use axon_search.Crawler.Crawl.Moves.{
  Move, turn, halt, take_item, read_signal, read_page, end_task, Reach-keep,
}
use axon_search.Crawler.Crawl.{
  Item, CrawlResult, Page, finished, Crawl, drop_at, start, result_of, end_worker, give, Reach,
  dies,
}

-- The signals of ended workers, and the pages, that wait in the queue of results.
unfoldable pub signals : List (Option CrawlResult) → ℕ
signals [] = 0
signals (none ∷ queue) = suc (signals queue)
signals (some r ∷ queue) = signals queue

signals-append : (xs ys : List (Option CrawlResult)) → signals (xs ++ ys) ≡ signals xs + signals ys
unfolding signals
signals-append [] ys = omega arith
signals-append (none ∷ xs) ys = omega (arith, signals-append xs ys)
signals-append (some r ∷ xs) ys = omega (arith, signals-append xs ys)

pub length-drop_at :
    {A : Type 0} (i : ℕ) (xs : List A) (x : A)
    → get_elem? xs i ≡ some x
    → suc (length (drop_at i xs)) ≡ length xs
unfolding drop_at
length-drop_at i [] x e = absurd (none-ne-some _ e)
length-drop_at zero (y ∷ xs) x e = refl
length-drop_at (suc i) (y ∷ xs) x e = ap suc (length-drop_at i xs x e)

-- `active` counts the workers at work and the signals not read yet, and `pages` the pages yielded;
-- at the end there is neither worker nor result left.
pub record Accounts (s : Crawl) : Type 0 where
  pub active_is : s.active ≡ length s.working + signals s.results + s.died
  pub pages_is : s.pages ≡ length s.yielded
  pub all_read : s.phase ≡ finished → (s.active ≡ 0) × (s.results ≡ [])

module _ (hash : Text → ℕ) (max_depth max_pages : ℕ) where
  end_worker-counts :
      (item : Item) (got : Option Page) (s : Crawl)
      → let t = end_worker hash max_depth max_pages item got s in
        (t.active ≡ s.active)
        × (length t.working ≡ length s.working)
        × (signals t.results + t.died ≡ suc (signals s.results + s.died))
        × (t.pages ≡ s.pages)
        × (t.yielded ≡ s.yielded)
        × (t.phase ≡ s.phase)
  unfolding end_worker signals
  end_worker-counts item none s =
      (refl, refl, omega (arith, signals-append s.results (none ∷ [])), refl, refl, refl)
  end_worker-counts item (some page) s = (
    refl,
    refl,
    elim (Bool-cases (dies hash max_depth max_pages item page)) [
      | inl dead ↦
          rw dead (omega (arith, signals-append s.results (some (result_of item page) ∷ [])))
      | inr alive ↦
          rw alive
            (omega (arith, signals-append s.results (some (result_of item page) ∷ none ∷ [])))
    ],
    refl,
    refl,
    refl,
  )

  Move-Accounts : (s t : Crawl) → Move hash max_depth max_pages s t → Accounts s → Accounts t
  unfolding signals give
  Move-Accounts s t (turn p n m e) a =
      subst Accounts (sym e)
        (record { active_is = a.active_is; pages_is = a.pages_is; all_read = λ q. absurd (n q) })
  Move-Accounts s t (halt idle blank e) a =
      subst Accounts (sym e)
        (record { active_is = a.active_is; pages_is = a.pages_is; all_read = λ q. (idle, blank) })
  Move-Accounts s t (take_item item rest f h n e) a = subst Accounts (sym e) (record {
    active_is = omega (arith, a.active_is, length-append s.working (item ∷ []));
    pages_is = a.pages_is;
    all_read = λ q. absurd (n q);
  })
  Move-Accounts s t (read_signal queue q n e) a = subst Accounts (sym e) (record {
    active_is = omega (arith, a.active_is, ap signals q);
    pages_is = a.pages_is;
    all_read = λ p. absurd (n p);
  })
  Move-Accounts s t (read_page r queue q n e) a = subst Accounts (sym e) (record {
    active_is = omega (arith, a.active_is, ap signals q);
    pages_is = omega (arith, a.pages_is, length-append s.yielded (r ∷ []));
    all_read = λ p. absurd (n p);
  })
  Move-Accounts s t (end_task i item got at e) a =
      let s' = record s { working = drop_at i s.working } in
      let (active, working, waiting, pages, yielded, phase) = end_worker-counts item got s' in
      let fewer = length-drop_at i s.working item at in
      subst Accounts (sym e) (record {
        active_is = omega (arith, active, working, waiting, fewer, a.active_is);
        pages_is = omega (arith, pages, ap length yielded, a.pages_is);
        all_read = λ p. absurd (omega (arith, fewer, a.active_is, (a.all_read (sym phase ∙ p)).0));
      })

  start-Accounts : (seeds : List Text) → Accounts (start hash max_depth max_pages seeds)
  unfolding start signals
  start-Accounts seeds = record { active_is = refl; pages_is = refl; all_read = λ e. ground arith }

  signals-blank : (q : List (Option CrawlResult)) → q ≡ [] → signals q ≡ 0
  unfolding signals
  signals-blank q e = ap signals e

  -- In every state that a crawl comes to, `active` is the number of workers at work, of signals not
  -- read yet and of workers that an exception has ended before their signal, and `pages_crawled` the
  -- number of pages yielded. When the crawl ends, no worker is at work, no result is left unread,
  -- and no exception has ended a worker.
  pub Reach-Accounts :
      (seeds : List Text) {s : Crawl}
      → Reach hash max_depth max_pages seeds s
      → (s.active ≡ length s.working + signals s.results + s.died)
        × (s.pages ≡ length s.yielded)
        × (s.phase ≡ finished → (s.working ≡ []) × (s.results ≡ []) × (s.died ≡ 0))
  Reach-Accounts seeds {s} r =
      let a =
        Reach-keep hash max_depth max_pages Accounts seeds Move-Accounts (start-Accounts seeds) r in
      (
        a.active_is,
        a.pages_is,
        λ e.
            let (idle, blank) = a.all_read e in
            (
              length-blank s.working (omega (arith, a.active_is, idle)),
              blank,
              omega (arith, a.active_is, idle),
            ),
      )
    where
      length-blank : {A : Type 0} (xs : List A) → length xs ≡ 0 → xs ≡ []
      length-blank [] h = refl
      length-blank (x ∷ xs) h = absurd (omega arith)
