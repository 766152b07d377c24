-- ===== src/Api/Server/Loop.antt =====
-- What the server does next: a request is answered, a background job starts, a stage of a running
-- pipeline goes on (api/routes/index.py, api/routes/search.py, indexer/pipeline.py). The handlers
-- and the stages take turns on one event loop and share the indexes, the duplicate filter and the
-- link graph. A stage's wait for the encoder belongs to the event that takes the page.
use axon_search.Base.{ℕ, ◌-◌, Option, none, some, List, [], ◌∷◌, inl, inr, if◌then◌else◌}
use axon_search.Base.Dict.{lookup, insert}
use axon_search.Base.Text.{Text, str_key}
use axon_search.Crawler.LinkGraph
use axon_search.Indexer.Pipeline
use axon_search.Indexer.Pipeline.{Run, Event, has_ended}
use axon_search.Api.IndexRoutes
use axon_search.Api.IndexRoutes.{App, Outcome}
use axon_search.Api.SearchRoute
use axon_search.Api.SearchRoute.{SearchRequest, SearchResponse, AppState}
use axon_search.Api.Server.{
  Libraries, services_of, parts_of, Task, queued, batch_run, url_run, left, State,
}
use axon_search.Config.{Settings}

-- `batch` and `index_one` carry the number that the job gets, `complete` and `fail` the readings of the
-- clock when the pipeline has returned or raised.
pub data Call : Type 0 where
  batch : Text → ℕ → Call
  begin : Text → ℕ → Call
  index_one : Text → ℕ → Call
  advance : Text → Event → Call
  complete : Text → ℕ → ℕ → Call
  fail : Text → Text → ℕ → Call
  delete : Text → Call
  search : ℕ → ℕ → SearchRequest → Call

module _ (lib : Libraries) (settings : Settings) where
  open lib use {env, faiss}
  open env use {floats}

  abbrev pub Response : Type 0
  Response = SearchResponse (services_of lib settings)

  -- `_build_pipeline` and the start of `run`.
  unfoldable pub build_pipeline : State lib settings → Run (parts_of lib settings)
  build_pipeline s =
      Pipeline.start (parts_of lib settings) s.app.bm25 s.app.vector_store s.dedup s.app.link_graph

  -- A run with the objects as they are by now, and the state with the objects as a run leaves them.
  unfoldable pub shared :
      State lib settings → Run (parts_of lib settings) → Run (parts_of lib settings)
  shared s r = record r {
    indexes = record r.indexes { bm25 = s.app.bm25; vector_store = s.app.vector_store };
    dedup = s.dedup;
    link_graph = s.app.link_graph;
  }

  unfoldable pub share : Run (parts_of lib settings) → State lib settings → State lib settings
  share r s = record s {
    app = record s.app {
      bm25 = r.indexes.bm25;
      vector_store = r.indexes.vector_store;
      link_graph = r.link_graph;
    };
    dedup = r.dedup;
  }

  abbrev pub Wrap : Type 0
  Wrap = Run (parts_of lib settings) → Task lib settings

  unfoldable pub set_task : Text → Task lib settings → State lib settings → State lib settings
  set_task job_id task s = record s { tasks = insert job_id task s.tasks }

  -- One event of a pipeline; `embed_batch` is its constructor's default.
  unfoldable pub advance_run :
      Text → Wrap → Event → Run (parts_of lib settings) → State lib settings → State lib settings
  unfolding shared share set_task
  advance_run job_id wrap e r s =
      let r' = Pipeline.step (parts_of lib settings) 64 e (shared s r) in
      set_task job_id (wrap r') (share r' s)

  unfoldable pub advance_task :
      Text → Event → Option (Task lib settings) → State lib settings → State lib settings
  unfolding advance_run
  advance_task job_id e none s = s
  advance_task job_id e (some queued) s = s
  advance_task job_id e (some (batch_run t0 r)) s = advance_run job_id (batch_run t0) e r s
  advance_task job_id e (some (url_run t0 r)) s = advance_run job_id (url_run t0) e r s
  advance_task job_id e (some (left r)) s = advance_run job_id left e r s

  -- The last lines of `run`, and its result.
  unfoldable pub rank_links : State lib settings → State lib settings
  rank_links s = record s {
    app = record s.app { link_graph = LinkGraph.compute_pagerank floats s.app.link_graph };
  }

  unfoldable pub outcome_of : Run (parts_of lib settings) → Outcome
  outcome_of r = inr (r.stats.crawled, r.indexes.indexed)

  -- `index_batch`: the background task is queued with the job.
  unfoldable pub index_batch : Text → ℕ → State lib settings → State lib settings
  unfolding set_task IndexRoutes.index_batch
  index_batch job_id now s =
      set_task job_id queued (record s { jobs = (IndexRoutes.index_batch job_id now s.jobs).1 })

  -- `_run_batch_job` up to its wait for the pipeline, and from there on.
  unfoldable pub begin_task :
      Text → ℕ → Option (Task lib settings) → State lib settings → State lib settings
  unfolding build_pipeline set_task IndexRoutes.start_job
  begin_task job_id t0 (some queued) s =
      set_task job_id (batch_run t0 (build_pipeline s))
        (record s { jobs = IndexRoutes.start_job env faiss Response job_id s.jobs })
  begin_task job_id t0 _ s = s

  unfoldable pub end_batch :
      Text → Outcome → ℕ → Run (parts_of lib settings) → State lib settings → State lib settings
  unfolding set_task IndexRoutes.finish_job
  end_batch job_id outcome elapsed r s =
      let (jobs, app) =
        IndexRoutes.finish_job env faiss Response job_id outcome elapsed s.jobs s.app in
      set_task job_id (left r) (record s { jobs = jobs; app = app })

  -- `index_url` from its wait for the pipeline on.
  unfoldable pub end_url :
      Text
      → Outcome
      → ℕ
      → ℕ
      → ℕ
      → Run (parts_of lib settings)
      → State lib settings
      → State lib settings
  unfolding set_task IndexRoutes.index_url
  end_url job_id outcome t0 t1 now r s =
      let (_, (jobs, app)) =
        IndexRoutes.index_url env faiss Response (λ _ app. (outcome, app)) [] job_id t0 t1 now
          s.jobs s.app in
      set_task job_id (left r) (record s { jobs = jobs; app = app })

  -- The pipeline returns when all its stages have ended.
  unfoldable pub complete_task :
      Text → ℕ → ℕ → Option (Task lib settings) → State lib settings → State lib settings
  unfolding end_batch end_url rank_links outcome_of
  complete_task job_id t1 now (some (batch_run t0 r)) s =
      if has_ended (parts_of lib settings) r
      then end_batch job_id (outcome_of r) (t1 - t0) r (rank_links s)
      else s
  complete_task job_id t1 now (some (url_run t0 r)) s =
      if has_ended (parts_of lib settings) r
      then end_url job_id (outcome_of r) t0 t1 now r (rank_links s)
      else s
  complete_task job_id t1 now _ s = s

  -- An exception of a stage ends the wait. The other stages are not cancelled.
  unfoldable pub fail_task :
      Text → Text → ℕ → Option (Task lib settings) → State lib settings → State lib settings
  unfolding end_batch end_url
  fail_task job_id exc t1 (some (batch_run t0 r)) s = end_batch job_id (inl exc) (t1 - t0) r s
  fail_task job_id exc t1 (some (url_run t0 r)) s = end_url job_id (inl exc) t0 t1 t1 r s
  fail_task job_id exc t1 _ s = s

  -- The state as the search route sees it, and the state after a search.
  unfoldable pub search_state : State lib settings → AppState (services_of lib settings)
  search_state s = record {
    bm25 = s.app.bm25;
    vector_store = s.app.vector_store;
    link_graph = some s.app.link_graph;
    embedder = s.embedder;
    sims = s.sims;
    search_cache = s.app.search_cache;
  }

  unfoldable pub after_search :
      AppState (services_of lib settings) → State lib settings → State lib settings
  after_search t s = record s {
    app = record {
      bm25 = t.bm25;
      vector_store = t.vector_store;
      link_graph = elim t.link_graph [ none ↦ s.app.link_graph | some g ↦ g ];
      search_cache = t.search_cache;
    };
    embedder = t.embedder;
    sims = t.sims;
  }

  unfoldable pub answer_search : ℕ → ℕ → SearchRequest → State lib settings → State lib settings
  unfolding search_state after_search
  answer_search read written req s =
      after_search
        (SearchRoute.search (services_of lib settings) read written req (search_state s)).1 s

  unfoldable pub step : Call → State lib settings → State lib settings
  unfolding index_batch begin_task build_pipeline set_task advance_task complete_task fail_task
      answer_search
  step (batch job_id now) s = index_batch job_id now s
  step (begin job_id t0) s = begin_task job_id t0 (lookup job_id s.tasks) s
  step (index_one job_id t0) s = set_task job_id (url_run t0 (build_pipeline s)) s
  step (advance job_id e) s = advance_task job_id e (lookup job_id s.tasks) s
  step (complete job_id t1 now) s = complete_task job_id t1 now (lookup job_id s.tasks) s
  step (fail job_id exc t1) s = fail_task job_id exc t1 (lookup job_id s.tasks) s
  step (delete url) s = record s { app = (IndexRoutes.delete_url env faiss Response url s.app).1 }
  step (search read written req) s = answer_search read written req s

  unfoldable pub run : List Call → State lib settings → State lib settings
  unfolding step
  run [] s = s
  run (call ∷ calls) s = run calls (step call s)
