-- ===== src/Api/IndexRoutes.antt =====
-- api/routes/index.py: deletion, jobs and statistics. The pipeline's `run` is an argument, with the
-- application's state; clock readings and fresh job numbers are arguments too.
pub mod Deleting
pub mod Listing
use axon_search.Base.{
  ℕ, ◌+◌, ◌-◌, Bool, true, false, Option, none, some, List, [], ◌∷◌, ◌⊎◌, inl, inr, leb, ltb,
  if◌then◌else◌, take, keep, map,
}
use axon_search.Base.Dict.{lookup, insert}
use axon_search.Base.Text.{Text, str_key}
use axon_search.Base.Sort.{sort}
use axon_search.Cache
use axon_search.Cache.{Cache}
use axon_search.Crawler.LinkGraph
use axon_search.Crawler.LinkGraph.{LinkGraph}
use axon_search.Indexer.Bm25.{Env, Index}
use axon_search.Indexer.Bm25.Search
use axon_search.Indexer.VectorStore
use axon_search.Indexer.VectorStore.{Faiss, VectorStore}

pub data Status : Type 0 where
  pending : Status
  running : Status
  done : Status
  failed : Status

-- `IndexJobStatus`
pub record Job : Type 0 where
  pub job_id : Text
  pub status : Status
  pub crawled : ℕ
  pub indexed : ℕ
  pub elapsed : ℕ
  pub created_at : ℕ
  pub error : Option Text

-- `_JOBS`
abbrev pub Jobs : Type 0
Jobs = List (Text × Job)

-- The outcome of `pipeline.run`: an exception's text, or the pages crawled and indexed.
abbrev pub Outcome : Type 0
Outcome = Text ⊎ (ℕ × ℕ)

unfoldable pub same_status : Status → Status → Bool
same_status pending pending = true
same_status running running = true
same_status done done = true
same_status failed failed = true
same_status _ _ = false

-- The order of `jobs.sort(key=lambda j: j.created_at, reverse=True)`.
unfoldable pub newer : Job → Job → Bool
newer j k = leb k.created_at j.created_at

-- `if status: jobs = [j for j in jobs if j.status == status]`
unfoldable pub with_status : Option Status → List Job → List Job
with_status none jobs = jobs
with_status (some status) jobs = keep (λ j. same_status j.status status) jobs

unfoldable pub list_jobs : ℕ → Option Status → Jobs → List Job
unfolding newer with_status
list_jobs limit status jobs =
    take limit (sort newer (with_status status (map (λ entry. entry.1) jobs)))

-- `none` stands for the answer 404.
unfoldable pub get_job : Text → Jobs → Option Job
get_job job_id jobs = lookup job_id jobs

unfoldable pub index_batch : Text → ℕ → Jobs → Job × Jobs
index_batch job_id now jobs =
    let job : Job = record {
      job_id = job_id;
      status = pending;
      crawled = 0;
      indexed = 0;
      elapsed = 0;
      created_at = now;
      error = none;
    } in
    (job, insert job_id job jobs)

module _ (env : Env) (faiss : Faiss env.floats.Float) (R : Type 0) where
  -- The parts of `app.state` that the routes use.
  pub record App : Type 0 where
    pub bm25 : Index env
    pub vector_store : VectorStore faiss
    pub link_graph : LinkGraph env.floats
    pub search_cache : Option (Cache Text R)

  pub record Stats : Type 0 where
    pub bm25_docs : ℕ
    pub vector_docs : ℕ
    pub graph_nodes : ℕ
    pub graph_edges : ℕ
    pub bm25_deleted : ℕ
    pub vector_deleted : ℕ

module _ (env : Env) (faiss : Faiss env.floats.Float) (R : Type 0) where
  unfoldable pub clear_cache : App env faiss R → App env faiss R
  clear_cache s = elim s.search_cache [
    | none ↦ s
    | some c ↦ record s { search_cache = some (Cache.clear c) }
  ]

  -- `none` stands for the answer 404, and a number for `deleted=True` with that document.
  unfoldable pub delete_url : Text → App env faiss R → Option ℕ × App env faiss R
  unfolding clear_cache
  delete_url url s = elim (Search.url_to_doc_id env url s.bm25) [
    | none ↦ (none, s)
    | some doc_id ↦ (
      some doc_id,
      clear_cache (record s {
        bm25 = (Search.delete env doc_id s.bm25).1;
        vector_store = (VectorStore.delete faiss doc_id s.vector_store).1;
      }),
    )
  ]

  unfoldable pub get_stats : App env faiss R → Stats env faiss R
  get_stats s = record {
    bm25_docs = Search.size env s.bm25;
    vector_docs = VectorStore.size faiss s.vector_store;
    graph_nodes = LinkGraph.node_count env.floats s.link_graph;
    graph_edges = LinkGraph.edge_count env.floats s.link_graph;
    bm25_deleted = Search.deleted_count env s.bm25;
    vector_deleted = VectorStore.deleted_count faiss s.vector_store;
  }

  -- `index_url`, between the readings `t0` and `t1`: an exception's text (the answer 500), or the
  -- job, which is recorded as done.
  unfoldable pub index_url :
      (Text → App env faiss R → Outcome × App env faiss R)
      → Text
      → Text
      → ℕ
      → ℕ
      → ℕ
      → Jobs
      → App env faiss R
      → (Text ⊎ Job) × (Jobs × App env faiss R)
  index_url run url job_id t0 t1 now jobs s =
      let (outcome, s') = run url s in
      elim outcome [
        | inl exc ↦ (inl exc, (jobs, s'))
        | inr (crawled, indexed) ↦
            let job : Job = record {
              job_id = job_id;
              status = done;
              crawled = crawled;
              indexed = indexed;
              elapsed = t1 - t0;
              created_at = now;
              error = none;
            } in
            (inr job, (insert job_id job jobs, s'))
      ]

  -- The job when the pipeline has ended.
  unfoldable pub finish : Outcome → ℕ → Job → Job
  finish (inl exc) elapsed job = record job { status = failed; error = some exc; elapsed = elapsed }
  finish (inr (crawled, indexed)) elapsed job = record job {
    status = done;
    crawled = crawled;
    indexed = indexed;
    elapsed = elapsed;
  }

  -- `if cache is not None and stats.indexed: cache.clear()`
  unfoldable pub after_run : Outcome → App env faiss R → App env faiss R
  unfolding clear_cache
  after_run (inl exc) s = s
  after_run (inr (crawled, indexed)) s = if leb indexed 0 then s else clear_cache s

  -- The start of `_run_batch_job`, which other requests see while the pipeline runs.
  unfoldable pub start_job : Text → Jobs → Jobs
  start_job job_id jobs = elim (lookup job_id jobs) [
    | none ↦ jobs
    | some job ↦ insert job_id (record job { status = running }) jobs
  ]

  -- The rest of it, for the jobs as they are by then.
  unfoldable pub finish_job : Text → Outcome → ℕ → Jobs → App env faiss R → Jobs × App env faiss R
  unfolding finish after_run
  finish_job job_id outcome elapsed jobs s = elim (lookup job_id jobs) [
    | none ↦ (jobs, s)
    | some job ↦ (insert job_id (finish outcome elapsed job) jobs, after_run outcome s)
  ]
