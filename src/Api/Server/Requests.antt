-- ===== src/Api/Server/Requests.antt =====
-- What a rebuild and a deletion keep of the two indexes, the requests and the ends of the jobs keep
-- (api/server.py and its routes).
use axon_search.Base.{ℕ, ◌-◌, sym, inl, inr, Option, none, some, Bool-cases, Option-cases, leb}
use mathlib.Core.Path.{subst, subst₂}
use axon_search.Base.Dict.{lookup}
use axon_search.Base.Text.{Text, str_key}
use axon_search.Indexer.Bm25.{Index, refresh}
use axon_search.Indexer.Bm25.Search
use axon_search.Indexer.VectorStore
use axon_search.Indexer.VectorStore.{Faiss, VectorStore}
use axon_search.Indexer.Pipeline.{Run, has_ended}
use axon_search.Api.IndexRoutes
use axon_search.Api.IndexRoutes.{App, Jobs, Outcome, clear_cache}
use axon_search.Api.IndexRoutes.Deleting.{clear_cache-same, delete_url-known}
use axon_search.Api.Server.{
  Libraries, services_of, parts_of, Task, queued, batch_run, url_run, left, State,
}
use axon_search.Api.Server.Loop.{
  Response, set_task, rank_links, outcome_of, begin_task, end_batch, end_url, complete_task,
  fail_task, search_state, after_search, answer_search,
}
use axon_search.Config.{Settings}
use axon_search.Api.SearchRoute.{SearchRequest}
use axon_search.Api.Server.Searching.{search-IsSearched}

module _ (lib : Libraries) (settings : Settings)
    (P : Index lib.env → VectorStore lib.faiss → Type 0) where
  open lib use {env, faiss}

  -- What a rebuild and a deletion keep.
  pub record KeepsRequests : Type 0 where
    pub rebuilt :
        (idx : Index env) (store : VectorStore faiss) → P idx store → P (refresh env idx) store
    pub removed :
        (d : ℕ) (idx : Index env) (store : VectorStore faiss)
        → P idx store
        → P (Search.delete env d idx).1 (VectorStore.delete faiss d store).1

module _ (lib : Libraries) (settings : Settings)
    (P : Index lib.env → VectorStore lib.faiss → Type 0)
    (keeps : KeepsRequests lib settings P) where
  open lib use {env, faiss}

  abbrev InBoth : State lib settings → Type 0
  InBoth s = P s.app.bm25 s.app.vector_store

  pub begin_task-keep :
      (job_id : Text) (t0 : ℕ) (o : Option (Task lib settings)) (s : State lib settings)
      → InBoth s
      → InBoth (begin_task lib settings job_id t0 o s)
  unfolding begin_task set_task
  begin_task-keep job_id t0 none s h = h
  begin_task-keep job_id t0 (some queued) s h = h
  begin_task-keep job_id t0 (some (batch_run t r)) s h = h
  begin_task-keep job_id t0 (some (url_run t r)) s h = h
  begin_task-keep job_id t0 (some (left r)) s h = h

  -- Clearing the cache leaves the indexes alone.
  cleared :
      (a : App env faiss (Response lib settings))
      → P a.bm25 a.vector_store
      → let b = clear_cache env faiss (Response lib settings) a in P b.bm25 b.vector_store
  cleared a h =
      let (sparse, dense, _) = clear_cache-same env faiss (Response lib settings) a in
      subst₂ P (sym sparse) (sym dense) h

  after_run-keep :
      (outcome : Outcome) (a : App env faiss (Response lib settings))
      → P a.bm25 a.vector_store
      → let b = IndexRoutes.after_run env faiss (Response lib settings) outcome a in
        P b.bm25 b.vector_store
  unfolding IndexRoutes.after_run
  after_run-keep (inl exc) a h = h
  after_run-keep (inr (crawled, indexed)) a h = elim (Bool-cases (leb indexed 0)) [
    | inl e ↦ rw e h
    | inr e ↦ rw e (cleared a h)
  ]

  finish_job-keep :
      (job_id : Text) (outcome : Outcome) (elapsed : ℕ) (jobs : Jobs)
      (a : App env faiss (Response lib settings))
      → P a.bm25 a.vector_store
      → let b =
          (IndexRoutes.finish_job env faiss
            (Response lib settings)
            job_id
            outcome
            elapsed
            jobs
            a).1 in
        P b.bm25 b.vector_store
  unfolding IndexRoutes.finish_job
  finish_job-keep job_id outcome elapsed jobs a h = elim (Option-cases (lookup job_id jobs)) [
    | inl e ↦ rw (e, IndexRoutes.finish_job) h
    | inr (job, e) ↦ rw (e, IndexRoutes.finish_job) (after_run-keep outcome a h)
  ]

  pub end_batch-keep :
      (job_id : Text) (outcome : Outcome) (elapsed : ℕ) (r : Run (parts_of lib settings))
      (s : State lib settings)
      → InBoth s
      → InBoth (end_batch lib settings job_id outcome elapsed r s)
  unfolding end_batch set_task
  end_batch-keep job_id outcome elapsed r s h =
      finish_job-keep job_id outcome elapsed s.jobs s.app h

  pub end_url-keep :
      (job_id : Text) (outcome : Outcome) (t0 t1 now : ℕ) (r : Run (parts_of lib settings))
      (s : State lib settings)
      → InBoth s
      → InBoth (end_url lib settings job_id outcome t0 t1 now r s)
  unfolding end_url set_task IndexRoutes.index_url
  end_url-keep job_id (inl exc) t0 t1 now r s h = h
  end_url-keep job_id (inr (crawled, indexed)) t0 t1 now r s h = h

  pub complete_task-keep :
      (job_id : Text) (t1 now : ℕ) (o : Option (Task lib settings)) (s : State lib settings)
      → InBoth s
      → InBoth (complete_task lib settings job_id t1 now o s)
  unfolding complete_task rank_links
  complete_task-keep job_id t1 now none s h = h
  complete_task-keep job_id t1 now (some queued) s h = h
  complete_task-keep job_id t1 now (some (batch_run t0 r)) s h =
      elim (Bool-cases (has_ended (parts_of lib settings) r)) [
        | inl e ↦ rw e (
            end_batch-keep job_id (outcome_of lib settings r) (t1 - t0) r
              (rank_links lib settings s) h)
        | inr e ↦ rw e h
      ]
  complete_task-keep job_id t1 now (some (url_run t0 r)) s h =
      elim (Bool-cases (has_ended (parts_of lib settings) r)) [
        | inl e ↦ rw e (
            end_url-keep job_id (outcome_of lib settings r) t0 t1 now r (rank_links lib settings s)
              h)
        | inr e ↦ rw e h
      ]
  complete_task-keep job_id t1 now (some (left r)) s h = h

  pub fail_task-keep :
      (job_id exc : Text) (t1 : ℕ) (o : Option (Task lib settings)) (s : State lib settings)
      → InBoth s
      → InBoth (fail_task lib settings job_id exc t1 o s)
  unfolding fail_task
  fail_task-keep job_id exc t1 none s h = h
  fail_task-keep job_id exc t1 (some queued) s h = h
  fail_task-keep job_id exc t1 (some (batch_run t0 r)) s h = end_batch-keep job_id (inl exc) _ r s h
  fail_task-keep job_id exc t1 (some (url_run t0 r)) s h =
      end_url-keep job_id (inl exc) t0 t1 t1 r s h
  fail_task-keep job_id exc t1 (some (left r)) s h = h

  pub delete_url-keep :
      (address : Text) (a : App env faiss (Response lib settings))
      → P a.bm25 a.vector_store
      → let b = (IndexRoutes.delete_url env faiss (Response lib settings) address a).1 in
        P b.bm25 b.vector_store
  unfolding IndexRoutes.delete_url
  delete_url-keep address a h = elim (Option-cases (Search.url_to_doc_id env address a.bm25)) [
    | inl e ↦ rw (e, IndexRoutes.delete_url) h
    | inr (d, e) ↦
        subst (λ x. P x.1.bm25 x.1.vector_store)
          (sym (delete_url-known env faiss (Response lib settings) address d a e))
          (cleared _ (keeps.removed d a.bm25 a.vector_store h))
  ]

  pub answer_search-keep :
      (read written : ℕ) (req : SearchRequest) (s : State lib settings)
      → InBoth s
      → InBoth (answer_search lib settings read written req s)
  unfolding answer_search after_search search_state
  answer_search-keep read written req s h =
      let i =
        search-IsSearched (services_of lib settings) read written req
          (search_state lib settings s) in
      elim i.rebuilt [
        | inl e ↦ subst₂ P (sym e) (sym i.same) h
        | inr e ↦ subst₂ P (sym e) (sym i.same) (keeps.rebuilt s.app.bm25 s.app.vector_store h)
      ]
