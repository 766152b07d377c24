-- ===== src/Crawler/Crawl/Depth.antt =====
-- How deep a crawl goes (crawler/async_crawler.py).
use axon_search.Base.{
  ℕ, zero, suc, ◌≤◌, ◌≡◌, sym, inl, inr, Option, none, some, List, [], ◌∷◌, ◌++◌, arith, All, ltb,
  ltb→lt, get_elem?, Bool-cases, Bool, true, false, if◌then◌else◌,
}
use mathlib.Core.Path.{subst}
use mathlib.Core.Option.{none-ne-some, some-injective}
use axon_search.Base.Dict.{nat_key, contains}
use axon_search.Base.Text.{Text}
use axon_search.Crawler.Crawl.Moves.{
  Move, turn, halt, take_item, read_signal, read_page, end_task, Reach-keep,
}
use axon_search.Crawler.Crawl.{
  Item, CrawlResult, Page, Crawl, drop_at, seed, start, discover, discovered, result_of, end_worker,
  give, Reach, dies,
}

All-append : {A : Type 0} (P : A → Type 0) (xs ys : List A) → All P xs → All P ys → All P (xs ++ ys)
All-append P [] ys hx hy = hy
All-append P (x ∷ xs) ys hx hy = (hx.0, All-append P xs ys hx.1 hy)

All-drop_at : {A : Type 0} (P : A → Type 0) (i : ℕ) (xs : List A) → All P xs → All P (drop_at i xs)
unfolding drop_at
All-drop_at P i [] h = tt
All-drop_at P zero (x ∷ xs) h = h.1
All-drop_at P (suc i) (x ∷ xs) h = (h.0, All-drop_at P i xs h.1)

All-get :
    {A : Type 0} (P : A → Type 0) (i : ℕ) (xs : List A) (x : A)
    → All P xs
    → get_elem? xs i ≡ some x
    → P x
All-get P i [] x h e = absurd (none-ne-some _ e)
All-get P zero (y ∷ xs) x h e = subst P (some-injective _ _ e) h.0
All-get P (suc i) (y ∷ xs) x h e = All-get P i xs x h.1 e

module _ (hash : Text → ℕ) (max_depth max_pages : ℕ) where
  abbrev IsShallowItem : Item → Type 0
  IsShallowItem item = item.depth ≤ max_depth

  abbrev IsShallowPage : CrawlResult → Type 0
  IsShallowPage r = r.depth ≤ max_depth

  abbrev IsShallowResult : Option CrawlResult → Type 0
  IsShallowResult none = Unit
  IsShallowResult (some r) = IsShallowPage r

  record IsShallow (s : Crawl) : Type 0 where
    waiting : All IsShallowItem s.frontier
    working : All IsShallowItem s.working
    read_later : All IsShallowResult s.results
    given : All IsShallowPage s.yielded

  discover-IsShallow :
      (item : Item) (links : List Text) (seen : List ℕ)
      → suc item.depth ≤ max_depth
      → All IsShallowItem (discover hash max_depth max_pages item links seen).0
  unfolding discover
  discover-IsShallow item [] seen h = tt
  discover-IsShallow item (link ∷ links) seen h = elim (Bool-cases (contains (hash link) seen)) [
    | inl old ↦ rw old (discover-IsShallow item links seen h)
    | inr fresh ↦ rw fresh (h, discover-IsShallow item links (hash link ∷ seen) h)
  ]

  discovered-IsShallow :
      (item : Item) (page : Page) (seen : List ℕ)
      → All IsShallowItem (discovered hash max_depth max_pages item page seen).0
  unfolding discovered
  discovered-IsShallow item page seen = elim (Bool-cases (ltb item.depth max_depth)) [
    | inl deeper ↦ rw deeper (go page.links (ltb→lt item.depth max_depth deeper))
    | inr deepest ↦ rw deepest tt
  ]
    where
      go :
          (found : Option (List Text))
          → suc item.depth ≤ max_depth
          → All IsShallowItem
              (elim found as (λ _. List Item × List ℕ) [
                | none ↦ ([], seen)
                | some links ↦ discover hash max_depth max_pages item links seen
              ]).0
      go none h = tt
      go (some links) h = discover-IsShallow item links seen h

  signal-IsShallow : (dead : Bool) → All IsShallowResult (if dead then [] else none ∷ [])
  signal-IsShallow true = tt
  signal-IsShallow false = (tt, tt)

  end_worker-IsShallow :
      (item : Item) (got : Option Page) (s : Crawl)
      → IsShallowItem item
      → IsShallow s
      → IsShallow (end_worker hash max_depth max_pages item got s)
  unfolding end_worker result_of
  end_worker-IsShallow item none s d h = record {
    waiting = h.waiting;
    working = h.working;
    read_later = All-append IsShallowResult s.results (none ∷ []) h.read_later (tt, tt);
    given = h.given;
  }
  end_worker-IsShallow item (some page) s d h = record {
    waiting =
        All-append IsShallowItem s.frontier _ h.waiting (discovered-IsShallow item page s.seen);
    working = h.working;
    read_later =
        All-append IsShallowResult s.results _ h.read_later
          (d, signal-IsShallow (dies hash max_depth max_pages item page));
    given = h.given;
  }

  Move-IsShallow : (s t : Crawl) → Move hash max_depth max_pages s t → IsShallow s → IsShallow t
  unfolding give
  Move-IsShallow s t (turn p n m e) h = subst IsShallow (sym e) (record {
    waiting = h.waiting;
    working = h.working;
    read_later = h.read_later;
    given = h.given;
  })
  Move-IsShallow s t (halt idle blank e) h = subst IsShallow (sym e) (record {
    waiting = h.waiting;
    working = h.working;
    read_later = h.read_later;
    given = h.given;
  })
  Move-IsShallow s t (take_item item rest f p n e) h =
      let taken = subst (All IsShallowItem) f h.waiting in
      subst IsShallow (sym e) (record {
        waiting = taken.1;
        working = All-append IsShallowItem s.working (item ∷ []) h.working (taken.0, tt);
        read_later = h.read_later;
        given = h.given;
      })
  Move-IsShallow s t (read_signal queue q n e) h = subst IsShallow (sym e) (record {
    waiting = h.waiting;
    working = h.working;
    read_later = (subst (All IsShallowResult) q h.read_later).1;
    given = h.given;
  })
  Move-IsShallow s t (read_page r queue q n e) h =
      let read = subst (All IsShallowResult) q h.read_later in
      subst IsShallow (sym e) (record {
        waiting = h.waiting;
        working = h.working;
        read_later = read.1;
        given = All-append IsShallowPage s.yielded (r ∷ []) h.given (read.0, tt);
      })
  Move-IsShallow s t (end_task i item got at e) h = subst IsShallow (sym e) (
      end_worker-IsShallow item got (record s { working = drop_at i s.working })
        (All-get IsShallowItem i s.working item h.working at)
        (record {
          waiting = h.waiting;
          working = All-drop_at IsShallowItem i s.working h.working;
          read_later = h.read_later;
          given = h.given;
        }))

  seed-IsShallow : (seeds : List Text) → All IsShallowItem (seed seeds)
  unfolding seed
  seed-IsShallow [] = tt
  seed-IsShallow (url ∷ urls) = (omega arith, seed-IsShallow urls)

  start-IsShallow : (seeds : List Text) → IsShallow (start hash max_depth max_pages seeds)
  unfolding start
  start-IsShallow seeds = record {
    waiting = seed-IsShallow seeds;
    working = tt;
    read_later = tt;
    given = tt;
  }

  -- No page that a crawl yields has a depth above `max_depth`.
  Reach-IsShallow :
      (seeds : List Text) {s : Crawl}
      → Reach hash max_depth max_pages seeds s
      → All (λ r. r.depth ≤ max_depth) s.yielded
  Reach-IsShallow seeds r =
      (Reach-keep hash max_depth max_pages IsShallow seeds Move-IsShallow (start-IsShallow seeds)
        r).given
