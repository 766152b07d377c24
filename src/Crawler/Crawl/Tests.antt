-- ===== src/Crawler/Crawl/Tests.antt =====
-- Runs of the crawl, and instances of the theorems about it.
use axon_search.Base.{
  ℕ, suc, ◌+◌, ◌*◌, ◌≡◌, refl, none, some, List, [], ◌∷◌, ◌++◌, arith, length, map,
}
use native.Mathlib.Decide.{ℕ_discrete}
use axon_search.Base.Dict.{nat_key, contains}
use axon_search.Base.Text.{Text, codes}
use axon_search.Indexer.Collect.{IsNodup}
use axon_search.Crawler.Crawl.{
  Page, draining, remaining, finished, Crawl, seed, discover, discovered, end_worker, worker,
  drop_at, result_of, give, collect, drain, main, start, Event, run_main, run_worker, step, run,
  Reach, begin, later, dies,
}
use axon_search.Crawler.Crawl.Accounts.{signals, Reach-Accounts}
use axon_search.Crawler.Crawl.Unique.{pages_in, Reach-IsNodup}
use axon_search.Crawler.Crawl.Hang.{Reach-draining}
use axon_search.Crawler.Crawl.Ending.{resume, Reach-ends}

run-Reach :
    (hash : Text → ℕ) (max_depth max_pages : ℕ) (seeds : List Text) (es : List Event) {s : Crawl}
    → Reach hash max_depth max_pages seeds s
    → Reach hash max_depth max_pages seeds (run hash max_depth max_pages es s)
unfolding run
run-Reach hash max_depth max_pages seeds [] r = r
run-Reach hash max_depth max_pages seeds (e ∷ es) r =
    run-Reach hash max_depth max_pages seeds es (later r e)

abbrev fingerprint : Text → ℕ
fingerprint [] = 0
fingerprint (x ∷ xs) = x + 256 * fingerprint xs

abbrev page_with : List Text → Page
page_with links = record {
  status = 200;
  html = codes "<p>";
  content_type = codes "text/html";
  final_url = codes "a";
  links = some links;
}

abbrev seeds : List Text
seeds = codes "a" ∷ codes "b" ∷ []

-- Both seeds are taken, and the second is fetched first; its links are a seed, a new page, and that
-- page again. Then its page is yielded.
abbrev events : List Event
events =
    run_main
    ∷ run_main
    ∷ run_worker 1 (some (page_with (codes "a" ∷ codes "c" ∷ codes "c" ∷ [])))
    ∷ run_main
    ∷ []

abbrev crawled : Crawl
crawled = run fingerprint 1 2 events (start fingerprint 1 2 seeds)

crawled-Reach : Reach fingerprint 1 2 seeds crawled
crawled-Reach = run-Reach fingerprint 1 2 seeds events begin

crawled_once : length crawled.yielded ≡ 1
unfolding run step main start seed worker end_worker discovered discover result_of drop_at drain
    collect give contains ℕ_discrete
crawled_once = refl

Reach-Accounts_example :
    (crawled.active ≡ length crawled.working + signals crawled.results + crawled.died)
    × (crawled.pages ≡ length crawled.yielded)
    × (crawled.phase ≡ finished
        → (crawled.working ≡ []) × (crawled.results ≡ []) × (crawled.died ≡ 0))
Reach-Accounts_example = Reach-Accounts fingerprint 1 2 seeds crawled-Reach

Reach-IsNodup_example : IsNodup (map (λ r. fingerprint r.url) crawled.yielded)
Reach-IsNodup_example =
    Reach-IsNodup fingerprint 1 2 seeds (((λ e. omega (arith, e)), tt), (tt, tt)) crawled-Reach

-- A seed is fetched, and the main loop runs on.
abbrev stuck : Crawl
stuck =
    run fingerprint 0 5 (run_main ∷ run_worker 0 (some (page_with [])) ∷ run_main ∷ [])
      (start fingerprint 0 5 (codes "a" ∷ []))

Reach-draining_example : (stuck.phase ≡ draining) × (stuck.yielded ≡ [])
Reach-draining_example = Reach-draining fingerprint 5 (omega arith) (codes "a") (
    run-Reach fingerprint 0 5 (codes "a" ∷ [])
      (run_main ∷ run_worker 0 (some (page_with [])) ∷ run_main ∷ []) begin)

-- The limit of pages is reached while two entries are being fetched, which end after it.
abbrev late : List Event
late =
    run_main
    ∷ run_main
    ∷ run_worker 1 (some (page_with (codes "c" ∷ [])))
    ∷ run_main
    ∷ run_main
    ∷ run_main
    ∷ run_worker 0 (some (page_with []))
    ∷ run_worker 0 none
    ∷ []

abbrev left : Crawl
left = run fingerprint 1 1 late (start fingerprint 1 1 seeds)

left_remaining : left.phase ≡ remaining
unfolding run step main start seed worker end_worker discovered discover result_of drop_at drain
    collect give contains ℕ_discrete
left_remaining = refl

left_alive : left.died ≡ 0
unfolding run step main start seed worker end_worker discovered discover result_of drop_at drain
    collect give contains ℕ_discrete dies
left_alive = refl

left_idle : left.working ≡ []
unfolding run step main start seed worker end_worker discovered discover result_of drop_at drain
    collect give contains ℕ_discrete
left_idle = refl

Reach-ends_example :
    let t = run fingerprint 1 1 (resume (suc (length left.results))) left in
    (t.phase ≡ finished) × (t.yielded ≡ left.yielded ++ pages_in left.results)
Reach-ends_example =
    Reach-ends fingerprint 1 1 seeds (run-Reach fingerprint 1 1 seeds late begin) left_remaining
      left_idle left_alive
