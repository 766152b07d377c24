-- ===== src/Api/Server/CallTurns.antt =====
-- What each call changes of the jobs (api/routes/index.py).
use axon_search.Base.{
  ℕ, ◌-◌, ◌≡◌, refl, sym, ◌∙◌, inl, inr, Bool, true, false, Option, none, some, List, [], ◌∷◌,
  arith, if◌then◌else◌,
}
use mathlib.Core.Path.{subst}
use axon_search.Base.Dict.{lookup, insert}
use axon_search.Base.Text.{Text, str_key}
use axon_search.Config.{Settings}
use axon_search.Indexer.Pipeline.{Run, Event, has_ended}
use axon_search.Api.IndexRoutes
use axon_search.Api.IndexRoutes.{
  Status, pending, running, done, failed, Job, Jobs, Outcome, get_job,
}
use axon_search.Api.Server.{Libraries, parts_of, Task, queued, batch_run, url_run, left, State}
use axon_search.Api.Server.Loop.{
  Call, batch, begin, index_one, advance, complete, fail, delete, search, Response, share, set_task,
  advance_run, advance_task, rank_links, outcome_of, index_batch, begin_task, end_batch, end_url,
  complete_task, fail_task, after_search, answer_search, step,
}
use axon_search.Api.Server.Turns.{
  IsBlank, IsEnded, was_done, has_failed, HasStatus, HasEnded, Fits, HasStatus-busy, AreFit, Turn,
  same-Turn, task-Turn, job-Turn,
}

module _ (lib : Libraries) (settings : Settings) where
  open lib use {env, faiss}

  -- A fresh number, as `uuid4` gives it.
  abbrev pub IsNew : Call → State lib settings → Type 0
  IsNew (batch job_id now) s = lookup job_id s.tasks ≡ none
  IsNew (index_one job_id t0) s = lookup job_id s.tasks ≡ none
  IsNew _ s = Unit

  abbrev pub AreNew : List Call → State lib settings → Type 0
  AreNew [] s = Unit
  AreNew (call ∷ calls) s = IsNew call s × AreNew calls (step lib settings call s)

  no_job :
      (id : Text) (s : State lib settings)
      → lookup id s.tasks ≡ none
      → AreFit lib settings s
      → lookup id s.jobs ≡ none
  no_job id s e h = subst (λ o. Fits o (lookup id s.jobs)) e (h.fit id)

  index_batch-Turn :
      (id : Text) (now : ℕ) (s : State lib settings)
      → lookup id s.tasks ≡ none
      → AreFit lib settings s
      → Turn lib settings id s (index_batch lib settings id now s)
  unfolding index_batch set_task IndexRoutes.index_batch
  index_batch-Turn id now s e h =
      job-Turn lib settings id queued _ s _ refl refl
        (refl, record { none_crawled = refl; none_indexed = refl; no_error = refl })
        (λ old f ended. ground (arith, no_job id s e h, f))

  start_job-known :
      (id : Text) (job : Job) (jobs : Jobs)
      → lookup id jobs ≡ some job
      → IndexRoutes.start_job env faiss (Response lib settings) id jobs
        ≡ insert id (record job { status = running }) jobs
  unfolding IndexRoutes.start_job
  start_job-known id job jobs e = rw (e, IndexRoutes.start_job) refl

  finish_job-known :
      (id : Text) (outcome : Outcome) (elapsed : ℕ) (job : Job) (s : State lib settings)
      → lookup id s.jobs ≡ some job
      → (IndexRoutes.finish_job env faiss (Response lib settings) id outcome elapsed s.jobs s.app).0
        ≡ insert id
            (IndexRoutes.finish env faiss (Response lib settings) outcome elapsed job)
            s.jobs
  unfolding IndexRoutes.finish_job
  finish_job-known id outcome elapsed job s e = rw (e, IndexRoutes.finish_job) refl

  finish-IsEnded :
      (outcome : Outcome) (elapsed : ℕ) (job : Job)
      → IsBlank job
      → IsEnded (IndexRoutes.finish env faiss (Response lib settings) outcome elapsed job)
  unfolding IndexRoutes.finish
  finish-IsEnded (inl exc) elapsed job h = has_failed exc refl refl h.none_crawled h.none_indexed
  finish-IsEnded (inr (crawled, indexed)) elapsed job h = was_done refl h.no_error

  begin_queued-Turn :
      (id : Text) (t0 : ℕ) (p : Option Job) (s : State lib settings)
      → lookup id s.jobs ≡ p
      → HasStatus pending p
      → Turn lib settings id s (begin_task lib settings id t0 (some queued) s)
  unfolding begin_task set_task
  begin_queued-Turn id t0 none s f h = absurd h
  begin_queued-Turn id t0 (some job) s f (status, blank) =
      job-Turn lib settings id (batch_run t0 _) (record job { status = running }) s _ refl
        (start_job-known id job s.jobs f)
        (
          refl,
          record {
            none_crawled = blank.none_crawled;
            none_indexed = blank.none_indexed;
            no_error = blank.no_error;
          },
        )
        (λ old g. HasStatus-busy pending (some job) (inl refl) (status, blank) old (sym f ∙ g))

  end_batch-Turn :
      (id : Text) (outcome : Outcome) (elapsed : ℕ) (r : Run (parts_of lib settings))
      (p : Option Job) (s : State lib settings)
      → lookup id s.jobs ≡ p
      → HasStatus running p
      → Turn lib settings id s (end_batch lib settings id outcome elapsed r s)
  unfolding end_batch set_task
  end_batch-Turn id outcome elapsed r none s f h = absurd h
  end_batch-Turn id outcome elapsed r (some job) s f (status, blank) =
      job-Turn lib settings id (left r) _ s _ refl (finish_job-known id outcome elapsed job s f)
        (finish-IsEnded outcome elapsed job blank)
        (λ old g. HasStatus-busy running (some job) (inr refl) (status, blank) old (sym f ∙ g))

  end_url-Turn :
      (id : Text) (outcome : Outcome) (t0 t1 now : ℕ) (r : Run (parts_of lib settings))
      (s : State lib settings)
      → lookup id s.jobs ≡ none
      → Turn lib settings id s (end_url lib settings id outcome t0 t1 now r s)
  unfolding end_url set_task IndexRoutes.index_url
  end_url-Turn id (inl exc) t0 t1 now r s f =
      task-Turn lib settings id (left r) s _ refl refl (subst HasEnded (sym f) tt)
  end_url-Turn id (inr (crawled, indexed)) t0 t1 now r s f =
      job-Turn lib settings id (left r) _ s _ refl refl (was_done refl refl)
        (λ old g ended. ground (arith, f, g))

  begin_task-Turn :
      (id : Text) (t0 : ℕ) (o : Option (Task lib settings)) (s : State lib settings)
      → Fits o (lookup id s.jobs)
      → AreFit lib settings s
      → Turn lib settings id s (begin_task lib settings id t0 o s)
  unfolding begin_task
  begin_task-Turn id t0 none s f h = same-Turn lib settings id s s refl refl h
  begin_task-Turn id t0 (some queued) s f h = begin_queued-Turn id t0 (lookup id s.jobs) s refl f
  begin_task-Turn id t0 (some (batch_run t r)) s f h = same-Turn lib settings id s s refl refl h
  begin_task-Turn id t0 (some (url_run t r)) s f h = same-Turn lib settings id s s refl refl h
  begin_task-Turn id t0 (some (left r)) s f h = same-Turn lib settings id s s refl refl h

  advance_task-Turn :
      (id : Text) (e : Event) (o : Option (Task lib settings)) (s : State lib settings)
      → Fits o (lookup id s.jobs)
      → AreFit lib settings s
      → Turn lib settings id s (advance_task lib settings id e o s)
  unfolding advance_task advance_run set_task share
  advance_task-Turn id e none s f h = same-Turn lib settings id s s refl refl h
  advance_task-Turn id e (some queued) s f h = same-Turn lib settings id s s refl refl h
  advance_task-Turn id e (some (batch_run t0 r)) s f h =
      task-Turn lib settings id (batch_run t0 _) s _ refl refl f
  advance_task-Turn id e (some (url_run t0 r)) s f h =
      task-Turn lib settings id (url_run t0 _) s _ refl refl f
  advance_task-Turn id e (some (left r)) s f h = task-Turn lib settings id (left _) s _ refl refl f

  -- The ranking of the links touches neither the tasks nor the jobs.
  ranked-Turn :
      (id : Text) (s t : State lib settings)
      → Turn lib settings id (rank_links lib settings s) t
      → Turn lib settings id s t
  unfolding rank_links
  ranked-Turn id s t turn = record {
    other_tasks = turn.other_tasks;
    other_jobs = turn.other_jobs;
    fits = turn.fits;
    stays = turn.stays;
  }

  either-Turn :
      (b : Bool) (id : Text) (s t u : State lib settings)
      → Turn lib settings id s t
      → Turn lib settings id s u
      → Turn lib settings id s (if b then t else u)
  either-Turn true id s t u h k = h
  either-Turn false id s t u h k = k

  complete_task-Turn :
      (id : Text) (t1 now : ℕ) (o : Option (Task lib settings)) (s : State lib settings)
      → Fits o (lookup id s.jobs)
      → AreFit lib settings s
      → Turn lib settings id s (complete_task lib settings id t1 now o s)
  unfolding complete_task rank_links
  complete_task-Turn id t1 now none s f h = same-Turn lib settings id s s refl refl h
  complete_task-Turn id t1 now (some queued) s f h = same-Turn lib settings id s s refl refl h
  complete_task-Turn id t1 now (some (batch_run t0 r)) s f h =
      either-Turn (has_ended (parts_of lib settings) r) id s _ s
        (ranked-Turn id s _ (
          end_batch-Turn id (outcome_of lib settings r) (t1 - t0) r (lookup id s.jobs)
            (rank_links lib settings s) refl f))
        (same-Turn lib settings id s s refl refl h)
  complete_task-Turn id t1 now (some (url_run t0 r)) s f h =
      either-Turn (has_ended (parts_of lib settings) r) id s _ s
        (ranked-Turn id s _
          (end_url-Turn id (outcome_of lib settings r) t0 t1 now r (rank_links lib settings s) f))
        (same-Turn lib settings id s s refl refl h)
  complete_task-Turn id t1 now (some (left r)) s f h = same-Turn lib settings id s s refl refl h

  fail_task-Turn :
      (id exc : Text) (t1 : ℕ) (o : Option (Task lib settings)) (s : State lib settings)
      → Fits o (lookup id s.jobs)
      → AreFit lib settings s
      → Turn lib settings id s (fail_task lib settings id exc t1 o s)
  unfolding fail_task
  fail_task-Turn id exc t1 none s f h = same-Turn lib settings id s s refl refl h
  fail_task-Turn id exc t1 (some queued) s f h = same-Turn lib settings id s s refl refl h
  fail_task-Turn id exc t1 (some (batch_run t0 r)) s f h =
      end_batch-Turn id (inl exc) (t1 - t0) r (lookup id s.jobs) s refl f
  fail_task-Turn id exc t1 (some (url_run t0 r)) s f h = end_url-Turn id (inl exc) t0 t1 t1 r s f
  fail_task-Turn id exc t1 (some (left r)) s f h = same-Turn lib settings id s s refl refl h

  -- The number that a call is about; a deletion and a search are about none.
  abbrev pub subject : Call → Text
  subject (batch id now) = id
  subject (begin id t0) = id
  subject (index_one id t0) = id
  subject (advance id e) = id
  subject (complete id t1 now) = id
  subject (fail id exc t1) = id
  subject (delete address) = []
  subject (search read written req) = []

  pub step-Turn :
      (call : Call) (s : State lib settings)
      → IsNew call s
      → AreFit lib settings s
      → Turn lib settings (subject call) s (step lib settings call s)
  unfolding step set_task answer_search after_search
  step-Turn (batch id now) s new h = index_batch-Turn id now s new h
  step-Turn (begin id t0) s new h = begin_task-Turn id t0 (lookup id s.tasks) s (h.fit id) h
  step-Turn (index_one id t0) s new h =
      task-Turn lib settings id (url_run t0 _) s _ refl refl (no_job id s new h)
  step-Turn (advance id e) s new h = advance_task-Turn id e (lookup id s.tasks) s (h.fit id) h
  step-Turn (complete id t1 now) s new h =
      complete_task-Turn id t1 now (lookup id s.tasks) s (h.fit id) h
  step-Turn (fail id exc t1) s new h = fail_task-Turn id exc t1 (lookup id s.tasks) s (h.fit id) h
  step-Turn (delete address) s new h = same-Turn lib settings [] s _ refl refl h
  step-Turn (search read written req) s new h = same-Turn lib settings [] s _ refl refl h
