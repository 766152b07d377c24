-- ===== src/Crawler/Crawl.antt =====
-- crawler/async_crawler.py: the crawl as a state machine. A worker is one step, at the end of its
-- fetch, since it waits nowhere after that; the main loop waits where it sleeps, yields a page, or
-- finds no result. `concurrency` only bounds how many workers fetch at a time, so it does not
-- appear: workers end in any order. The fingerprint of a URL is a parameter.
pub mod Moves
pub mod Accounts
mod Occurs
pub mod Unique
pub mod Depth
pub mod Hang
pub mod Ending
mod Tests
use axon_search.Base.{
  ℕ, zero, suc, ◌+◌, ◌-◌, Bool, true, false, not, ◌&&◌, Option, none, some, List, [], ◌∷◌, ◌++◌,
  map, ltb, ◌==◌, if◌then◌else◌, length, get_elem?,
}
use axon_search.Base.Dict.{nat_key, contains}
use axon_search.Base.Text.{Text}

-- An entry of the frontier: the URL, its depth, and the URL that it was found on.
pub record Item : Type 0 where
  pub url : Text
  pub depth : ℕ
  pub parent : Text

pub record CrawlResult : Type 0 where
  pub url : Text
  pub status : ℕ
  pub html : Text
  pub content_type : Text
  pub final_url : Text
  pub depth : ℕ
  pub parent_url : Text

-- Where the generator stands: at the head of the loop of `_drain_frontier`, after a page that its
-- inner loop yielded, in the loop that drains what remains, or at the end.
pub data Phase : Type 0 where
  draining : Phase
  collecting : Phase
  remaining : Phase
  finished : Phase

-- The local variables of `crawl`, with the tasks that have not ended and the pages yielded so far.
-- In the queue of results `none` is a worker's signal that it is done; `died` counts the tasks that an
-- exception has ended before their signal.
pub record Crawl : Type 0 where
  pub frontier : List Item
  pub seen : List ℕ
  pub working : List Item
  pub results : List (Option CrawlResult)
  pub active : ℕ
  pub died : ℕ
  pub pages : ℕ
  pub yielded : List CrawlResult
  pub phase : Phase

-- What a worker gets: no page, or the rest of a page with the links that `_extract_links` finds on it,
-- `none` where that raises, as `urljoin` does for an address that is malformed.
pub record Page : Type 0 where
  pub status : ℕ
  pub html : Text
  pub content_type : Text
  pub final_url : Text
  pub links : Option (List Text)

unfoldable pub result_of : Item → Page → CrawlResult
result_of item page = record {
  url = item.url;
  status = page.status;
  html = page.html;
  content_type = page.content_type;
  final_url = page.final_url;
  depth = item.depth;
  parent_url = item.parent;
}

unfoldable pub drop_at {ℓ} : {A : Type ℓ} → ℕ → List A → List A
drop_at i [] = []
drop_at zero (x ∷ xs) = xs
drop_at (suc i) (x ∷ xs) = x ∷ drop_at i xs

unfoldable pub seed : List Text → List Item
seed [] = []
seed (url ∷ urls) = record { url = url; depth = 0; parent = [] } ∷ seed urls

-- `pages_crawled += 1` and `yield item`
unfoldable pub give : CrawlResult → Crawl → Crawl
give r s = record s { pages = suc s.pages; yielded = s.yielded ++ r ∷ [] }

-- The inner loop of `_drain_frontier` over the queue of results, to the next page that it yields or
-- to its end.
unfoldable pub collect : List (Option CrawlResult) → Crawl → Crawl
unfolding give
collect [] s = record s { phase = draining }
collect (none ∷ queue) s = collect queue (record s { results = queue; active = s.active - 1 })
collect (some r ∷ queue) s = give r (record s { results = queue; phase = collecting })

-- One round of the loop that drains what remains, by the queue of results; without a result it ends
-- or waits.
unfoldable pub read_result : List (Option CrawlResult) → Crawl → Crawl
unfolding give
read_result [] s = if s.active == 0 then record s { phase = finished } else s
read_result (none ∷ queue) s = record s { results = queue; active = s.active - 1 }
read_result (some r ∷ queue) s = give r (record s { results = queue })

unfoldable pub drain_rest : Crawl → Crawl
unfolding read_result
drain_rest s = read_result s.results s

-- What the event loop runs next.
pub data Event : Type 0 where
  run_main : Event
  run_worker : ℕ → Option Page → Event

module _ (hash : Text → ℕ) (max_depth max_pages : ℕ) where
  unfoldable pub start : List Text → Crawl
  unfolding seed
  start seeds = record {
    frontier = seed seeds;
    seen = map hash seeds;
    working = [];
    results = [];
    active = 0;
    died = 0;
    pages = 0;
    yielded = [];
    phase = draining;
  }

  -- The loop over the links of a page: the new entries of the frontier, and the fingerprints seen.
  unfoldable pub discover : Item → List Text → List ℕ → List Item × List ℕ
  discover item [] seen = ([], seen)
  discover item (link ∷ links) seen =
      let known = contains (hash link) seen in
      let (new, seen') = discover item links (if known then seen else hash link ∷ seen) in
      let entry : Item = record { url = link; depth = suc item.depth; parent = item.url } in
      (if known then new else entry ∷ new, seen')

  -- `if depth < self.max_depth: ...`
  unfoldable pub discovered : Item → Page → List ℕ → List Item × List ℕ
  unfolding discover
  discovered item page seen =
      if ltb item.depth max_depth
      then (elim page.links [ none ↦ ([], seen) | some links ↦ discover item links seen ])
      else ([], seen)

  -- Whether the links are looked for, which raises.
  unfoldable pub dies : Item → Page → Bool
  dies item page =
      ltb item.depth max_depth && (elim page.links [ none ↦ true | some links ↦ false ])

  -- The end of `_worker` on an entry.
  unfoldable pub end_worker : Item → Option Page → Crawl → Crawl
  unfolding discovered result_of dies
  end_worker item none s = record s { results = s.results ++ none ∷ [] }
  end_worker item (some page) s =
      let (new, seen) = discovered item page s.seen in
      record s {
        results =
            s.results ++ some (result_of item page) ∷ (if dies item page then [] else none ∷ []);
        died = if dies item page then suc s.died else s.died;
        frontier = s.frontier ++ new;
        seen = seen;
      }

  -- The task at a position ends; where there is none, nothing does.
  unfoldable pub worker : ℕ → Option Page → Crawl → Crawl
  unfolding end_worker drop_at
  worker i got s = elim (get_elem? s.working i) [
    | none ↦ s
    | some item ↦ end_worker item got (record s { working = drop_at i s.working })
  ]

  -- One round of the loop of `_drain_frontier`; without an entry it ends or sleeps.
  unfoldable pub drain : Crawl → Crawl
  unfolding collect
  drain s =
      let leave = record s { phase = remaining } in
      let next = elim s.frontier as (λ _. Crawl) [
        | [] ↦ if s.active == 0 then leave else s
        | item ∷ rest ↦
            collect s.results (record s {
              frontier = rest;
              working = s.working ++ item ∷ [];
              active = suc s.active;
            })
      ] in
      if ltb s.pages max_pages then next else leave

  -- The generator from one point where it waits to the next.
  unfoldable pub main : Crawl → Crawl
  unfolding collect drain drain_rest
  main s = elim s.phase [
    | draining ↦ drain s
    | collecting ↦ collect s.results s
    | remaining ↦ drain_rest s
    | finished ↦ s
  ]

  unfoldable pub step : Event → Crawl → Crawl
  unfolding main worker
  step run_main s = main s
  step (run_worker i got) s = worker i got s

  unfoldable pub run : List Event → Crawl → Crawl
  run [] s = s
  run (e ∷ es) s = run es (step e s)

  -- The states that a crawl comes to, whatever the event loop runs and the workers get.
  pub data Reach (seeds : List Text) : Crawl → Type 0 where
    begin : Reach seeds (start seeds)
    later : {s : Crawl} → Reach seeds s → (e : Event) → Reach seeds (step e s)
