-- ===== src/Api/IndexRoutes/Listing.antt =====
-- The background jobs (api/routes/index.py).
use axon_search.Base.{ℕ, Option, map}
use axon_search.Base.Text.{str_key}
use axon_search.Base.Sort.{IsOrder}
use axon_search.Base.Top.{IsTop, take-sort-IsTop}
use axon_search.Base.Samples.{leb-IsOrder}
use axon_search.Api.IndexRoutes.{Jobs, Status, newer, with_status, list_jobs}

newer-IsOrder : IsOrder newer
unfolding newer
newer-IsOrder = record {
  total = λ j k h. leb-IsOrder.total k.created_at j.created_at h;
  trans = λ j k l h m. leb-IsOrder.trans l.created_at k.created_at j.created_at m h;
}

-- The list of jobs is the newest `limit` of those with the status asked for, newest first.
list_jobs-IsTop :
    (limit : ℕ) (status : Option Status) (jobs : Jobs)
    → IsTop newer limit
        (with_status status (map (λ entry. entry.1) jobs))
        (list_jobs limit status jobs)
unfolding list_jobs
list_jobs-IsTop limit status jobs =
    take-sort-IsTop newer newer-IsOrder limit (with_status status (map (λ entry. entry.1) jobs))
