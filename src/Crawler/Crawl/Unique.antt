-- ===== src/Crawler/Crawl/Unique.antt =====
-- Which pages a crawl yields (crawler/async_crawler.py).
use axon_search.Base.{
  ℕ, ◌+◌, ◌≤◌, ◌≡◌, refl, sym, ap, ◌∙◌, inl, inr, true, false, Option, none, some, List, [], ◌∷◌,
  ◌++◌, map, arith, get_elem?, ltb, Bool-cases, Bool, if◌then◌else◌, suc,
}
use mathlib.Core.Path.{subst}
use axon_search.Base.Dict.{nat_key, contains}
use axon_search.Base.Text.{Text}
use axon_search.Crawler.Crawl.Occurs.{
  occurs, occurs-map_append, occurs-drop_at, occurs-IsNodup, IsNodup-occurs, absent-occurs,
}
use axon_search.Indexer.Collect.{IsNodup}
use axon_search.Crawler.Crawl.Moves.{
  Move, turn, halt, take_item, read_signal, read_page, end_task, Reach-keep,
}
use axon_search.Crawler.Crawl.{
  Item, CrawlResult, Page, Crawl, drop_at, seed, start, discover, discovered, result_of, end_worker,
  give, Reach, dies,
}

-- The pages among the results.
unfoldable pub pages_in : List (Option CrawlResult) → List CrawlResult
pages_in [] = []
pages_in (none ∷ queue) = pages_in queue
pages_in (some r ∷ queue) = r ∷ pages_in queue

pages_in-append :
    (xs ys : List (Option CrawlResult)) → pages_in (xs ++ ys) ≡ pages_in xs ++ pages_in ys
unfolding pages_in
pages_in-append [] ys = refl
pages_in-append (none ∷ xs) ys = pages_in-append xs ys
pages_in-append (some r ∷ xs) ys = ap (◌∷◌ r) (pages_in-append xs ys)

module _ (hash : Text → ℕ) (max_depth max_pages : ℕ) where
  abbrev item_hash : Item → ℕ
  item_hash item = hash item.url

  abbrev page_hash : CrawlResult → ℕ
  page_hash r = hash r.url

  -- How often a fingerprint occurs among all entries and pages of a crawl.
  abbrev total : ℕ → Crawl → ℕ
  total h s =
      occurs h (map item_hash s.frontier)
      + occurs h (map item_hash s.working)
      + occurs h (map page_hash (pages_in s.results))
      + occurs h (map page_hash s.yielded)

  record IsUnique (s : Crawl) : Type 0 where
    once : (h : ℕ) → total h s ≤ 1
    unseen : (h : ℕ) → contains h s.seen ≡ false → total h s ≡ 0

  IsUnique-le :
      (s t : Crawl) → ((h : ℕ) → total h t ≤ total h s) → t.seen ≡ s.seen → IsUnique s → IsUnique t
  IsUnique-le s t le seen u = record {
    once = λ h. omega (arith, le h, u.once h);
    unseen = λ h e. omega (arith, le h, u.unseen h (sym (ap (contains h) seen) ∙ e));
  }

  -- The new entries are new, each of them once.
  record IsNew (seen : List ℕ) (new : List Item) (seen' : List ℕ) : Type 0 where
    new_once : (h : ℕ) → occurs h (map item_hash new) ≤ 1
    known :
        (h : ℕ)
        → contains h seen ≡ true
        → (occurs h (map item_hash new) ≡ 0) × (contains h seen' ≡ true)
    unknown :
        (h : ℕ)
        → contains h seen' ≡ false
        → (occurs h (map item_hash new) ≡ 0) × (contains h seen ≡ false)

  IsNew-none : (seen : List ℕ) → IsNew seen [] seen
  unfolding occurs
  IsNew-none seen = record {
    new_once = λ h. omega arith;
    known = λ h e. (refl, e);
    unknown = λ h e. (refl, e);
  }

  add-IsNew :
      (link : Text) (entry : Item) (seen : List ℕ) (new : List Item) (seen' : List ℕ)
      → hash link ≡ item_hash entry
      → contains (hash link) seen ≡ false
      → IsNew (hash link ∷ seen) new seen'
      → IsNew seen (entry ∷ new) seen'
  unfolding occurs contains
  add-IsNew link entry seen new seen' same fresh n = record {
    new_once = λ h. ground (arith, n.new_once h, n.known h, same);
    known = λ h e. ground (arith, n.known h, same, fresh, e, ap (λ x. contains x seen) same);
    unknown = λ h e. ground (arith, n.unknown h, n.known h, same, e);
  }

  discover-IsNew :
      (item : Item) (links : List Text) (seen : List ℕ)
      → let (new, seen') = discover hash max_depth max_pages item links seen in IsNew seen new seen'
  unfolding discover
  discover-IsNew item [] seen = IsNew-none seen
  discover-IsNew item (link ∷ links) seen = elim (Bool-cases (contains (hash link) seen)) [
    | inl old ↦ rw old (discover-IsNew item links seen)
    | inr fresh ↦
        rw fresh
          (add-IsNew link _ seen _ _ refl fresh (discover-IsNew item links (hash link ∷ seen)))
  ]

  discovered-IsNew :
      (item : Item) (page : Page) (seen : List ℕ)
      → let (new, seen') = discovered hash max_depth max_pages item page seen in
        IsNew seen new seen'
  unfolding discovered
  discovered-IsNew item page seen = elim (Bool-cases (ltb item.depth max_depth)) [
    | inl deeper ↦ rw deeper (go page.links)
    | inr deepest ↦ rw deepest (IsNew-none seen)
  ]
    where
      go :
          (found : Option (List Text))
          → let (new, seen') = elim found as (λ _. List Item × List ℕ) [
            | none ↦ ([], seen)
            | some links ↦ discover hash max_depth max_pages item links seen
          ] in
            IsNew seen new seen'
      go none = IsNew-none seen
      go (some links) = discover-IsNew item links seen

  signal-blank : (dead : Bool) → pages_in (if dead then [] else none ∷ []) ≡ []
  unfolding pages_in
  signal-blank true = refl
  signal-blank false = refl

  moved-total :
      (i : ℕ) (item : Item) (page : Page) (s : Crawl) (new : List Item) (dead : Bool) (died : ℕ)
      → get_elem? s.working i ≡ some item
      → (h : ℕ)
      → total h (record s {
        working = drop_at i s.working;
        results = s.results ++ some (result_of item page) ∷ (if dead then [] else none ∷ []);
        died = died;
        frontier = s.frontier ++ new;
      })
        ≡ total h s + occurs h (map item_hash new)
  unfolding result_of pages_in occurs
  moved-total i item page s new dead died at h =
      let r = result_of item page in
      omega (
        arith,
        occurs-drop_at item_hash h i s.working item at,
        ap (λ rs. occurs h (map page_hash rs))
            (pages_in-append s.results (some r ∷ (if dead then [] else none ∷ []))),
        ap (λ rs. occurs h (map page_hash (pages_in s.results ++ r ∷ rs))) (signal-blank dead),
        occurs-map_append page_hash h (pages_in s.results) (r ∷ []),
        occurs-map_append item_hash h s.frontier new,
      )

  -- A worker's entry becomes its page, and new entries join the frontier.
  end_worker-IsUnique :
      (i : ℕ) (item : Item) (got : Option Page) (s : Crawl)
      → get_elem? s.working i ≡ some item
      → IsUnique s
      → IsUnique (
          end_worker hash max_depth max_pages item got (record s { working = drop_at i s.working }))
  unfolding end_worker occurs pages_in
  end_worker-IsUnique i item none s at u =
      IsUnique-le s _
        (λ h. omega (
          arith,
          occurs-drop_at item_hash h i s.working item at,
          ap (λ rs. occurs h (map page_hash rs)) (pages_in-append s.results (none ∷ [])),
          occurs-map_append page_hash h (pages_in s.results) [],
        ))
        refl u
  end_worker-IsUnique i item (some page) s at u =
      let n = discovered-IsNew item page s.seen in
      let new = (discovered hash max_depth max_pages item page s.seen).0 in
      let dead = dies hash max_depth max_pages item page in
      let moved = moved-total i item page s new dead (if dead then suc s.died else s.died) at in
      record {
        once = λ h. elim (Bool-cases (contains h s.seen)) [
          | inl old ↦ omega (arith, moved h, (n.known h old).0, u.once h)
          | inr fresh ↦ omega (arith, moved h, n.new_once h, u.unseen h fresh)
        ];
        unseen = λ h e. omega (arith, moved h, (n.unknown h e).0, u.unseen h (n.unknown h e).1);
      }

  Move-IsUnique : (s t : Crawl) → Move hash max_depth max_pages s t → IsUnique s → IsUnique t
  unfolding give pages_in occurs
  Move-IsUnique s t (turn p n m e) u =
      subst IsUnique (sym e) (IsUnique-le s _ (λ h. omega arith) refl u)
  Move-IsUnique s t (halt idle blank e) u =
      subst IsUnique (sym e) (IsUnique-le s _ (λ h. omega arith) refl u)
  Move-IsUnique s t (take_item item rest f h n e) u = subst IsUnique (sym e) (
      IsUnique-le s _
        (λ h. omega (
          arith,
          ap (λ xs. occurs h (map item_hash xs)) f,
          occurs-map_append item_hash h s.working (item ∷ []),
        ))
        refl u)
  Move-IsUnique s t (read_signal queue q n e) u = subst IsUnique (sym e) (
      IsUnique-le s _ (λ h. omega (arith, ap (λ xs. occurs h (map page_hash (pages_in xs))) q)) refl
        u)
  Move-IsUnique s t (read_page r queue q n e) u = subst IsUnique (sym e) (
      IsUnique-le s _
        (λ h. omega (
          arith,
          ap (λ xs. occurs h (map page_hash (pages_in xs))) q,
          occurs-map_append page_hash h s.yielded (r ∷ []),
        ))
        refl u)
  Move-IsUnique s t (end_task i item got at e) u =
      subst IsUnique (sym e) (end_worker-IsUnique i item got s at u)

  map-seed : (seeds : List Text) → map item_hash (seed seeds) ≡ map hash seeds
  unfolding seed
  map-seed [] = refl
  map-seed (url ∷ urls) = ap (◌∷◌ (hash url)) (map-seed urls)

  start-IsUnique :
      (seeds : List Text)
      → IsNodup (map hash seeds)
      → IsUnique (start hash max_depth max_pages seeds)
  unfolding start pages_in occurs
  start-IsUnique seeds n = record {
    once = λ h. omega (arith, ap (occurs h) (map-seed seeds), IsNodup-occurs h (map hash seeds) n);
    unseen =
        λ h e. omega (arith, ap (occurs h) (map-seed seeds), absent-occurs h (map hash seeds) e);
  }

  -- No page is yielded twice, nor two pages whose URLs have the same fingerprint, if the seeds have
  -- different fingerprints.
  pub Reach-IsNodup :
      (seeds : List Text) {s : Crawl}
      → IsNodup (map hash seeds)
      → Reach hash max_depth max_pages seeds s
      → IsNodup (map page_hash s.yielded)
  Reach-IsNodup seeds {s} n r =
      let u =
        Reach-keep hash max_depth max_pages IsUnique seeds Move-IsUnique (start-IsUnique seeds n)
          r in
      occurs-IsNodup (map page_hash s.yielded) (λ h. omega (arith, u.once h))
