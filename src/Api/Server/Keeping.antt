-- ===== src/Api/Server/Keeping.antt =====
-- What the pages, the rebuilds and the deletions keep of the two indexes, the server keeps
-- (api/server.py and its routes).
use axon_search.Base.{Option, none, some, List, [], ◌∷◌}
use axon_search.Base.Dict.{lookup}
use axon_search.Base.Text.{Text, str_key}
use axon_search.Indexer.Bm25.{Index}
use axon_search.Indexer.VectorStore.{VectorStore}
use axon_search.Indexer.Batching.{Page, Indexes, index_page}
use axon_search.Indexer.Pipeline.{Run, Event}
use axon_search.Indexer.Pipeline.Keeping.{step-keep}
use axon_search.Api.Server.{Libraries, parts_of, Task, queued, batch_run, url_run, left, State}
use axon_search.Api.Server.Loop.{
  Call, batch, begin, index_one, advance, complete, fail, delete, search, Wrap, shared, share,
  set_task, advance_run, advance_task, index_batch, step, run,
}
use axon_search.Config.{Settings}
use axon_search.Api.Server.Requests.{
  KeepsRequests, begin_task-keep, complete_task-keep, fail_task-keep, delete_url-keep,
  answer_search-keep,
}

module _ (lib : Libraries) (settings : Settings)
    (P : Index lib.env → VectorStore lib.faiss → Type 0) where
  open lib use {env, faiss}

  -- What a page in both indexes, a rebuild and a deletion keep.
  pub record Keeps : Type 0 where
    pub indexed :
        (page : Page (parts_of lib settings)) (v : faiss.Vector)
        (x : Indexes (parts_of lib settings))
        → P x.bm25 x.vector_store
        → let y = index_page (parts_of lib settings) page v x in P y.bm25 y.vector_store
    pub others : KeepsRequests lib settings P

module _ (lib : Libraries) (settings : Settings)
    (P : Index lib.env → VectorStore lib.faiss → Type 0) (keeps : Keeps lib settings P) where
  open lib use {env, faiss}

  abbrev InBoth : State lib settings → Type 0
  InBoth s = P s.app.bm25 s.app.vector_store

  advance_run-keep :
      (job_id : Text) (wrap : Wrap lib settings) (e : Event) (r : Run (parts_of lib settings))
      (s : State lib settings)
      → InBoth s
      → InBoth (advance_run lib settings job_id wrap e r s)
  unfolding advance_run shared share set_task
  advance_run-keep job_id wrap e r s h =
      step-keep (parts_of lib settings) (λ x. P x.bm25 x.vector_store) keeps.indexed 64 e
        (shared lib settings s r) h

  advance_task-keep :
      (job_id : Text) (e : Event) (o : Option (Task lib settings)) (s : State lib settings)
      → InBoth s
      → InBoth (advance_task lib settings job_id e o s)
  unfolding advance_task
  advance_task-keep job_id e none s h = h
  advance_task-keep job_id e (some queued) s h = h
  advance_task-keep job_id e (some (batch_run t0 r)) s h =
      advance_run-keep job_id (batch_run t0) e r s h
  advance_task-keep job_id e (some (url_run t0 r)) s h =
      advance_run-keep job_id (url_run t0) e r s h
  advance_task-keep job_id e (some (left r)) s h = advance_run-keep job_id left e r s h

  step-InBoth :
      (call : Call) (s : State lib settings) → InBoth s → InBoth (step lib settings call s)
  unfolding step index_batch set_task
  step-InBoth (batch job_id now) s h = h
  step-InBoth (begin job_id t0) s h =
      begin_task-keep lib settings P keeps.others job_id t0 (lookup job_id s.tasks) s h
  step-InBoth (index_one job_id t0) s h = h
  step-InBoth (advance job_id e) s h = advance_task-keep job_id e (lookup job_id s.tasks) s h
  step-InBoth (complete job_id t1 now) s h =
      complete_task-keep lib settings P keeps.others job_id t1 now (lookup job_id s.tasks) s h
  step-InBoth (fail job_id exc t1) s h =
      fail_task-keep lib settings P keeps.others job_id exc t1 (lookup job_id s.tasks) s h
  step-InBoth (delete address) s h = delete_url-keep lib settings P keeps.others address s.app h
  step-InBoth (search read written req) s h =
      answer_search-keep lib settings P keeps.others read written req s h

  -- What the pages, the rebuilds and the deletions keep, all calls keep.
  pub run-keep :
      (calls : List Call) (s : State lib settings) → InBoth s → InBoth (run lib settings calls s)
  unfolding run
  run-keep [] s h = h
  run-keep (call ∷ calls) s h = run-keep calls (step lib settings call s) (step-InBoth call s h)
