-- ===== src/Api/Server/JobLife.antt =====
-- The life of a job, under all that the server does (api/routes/index.py).
use axon_search.Base.{◌≡◌, refl, sym, ◌⊎◌, inl, inr, Option, none, some, List, [], ◌∷◌, arith}
use mathlib.Core.Path.{subst, subst₂}
use axon_search.Base.Dict.{lookup}
use axon_search.Base.Text.{Text, str_key}
use axon_search.Config.{Settings}
use axon_search.Api.IndexRoutes.{pending, running, Job, get_job}
use axon_search.Api.Server.{Libraries, Task, queued, batch_run, url_run, left, State}
use axon_search.Api.Server.Loop.{Call, step, run}
use axon_search.Api.Server.Turns.{IsBlank, IsEnded, Fits, AreFit, Turn-AreFit, Turn-ended}
use axon_search.Api.Server.CallTurns.{AreNew, subject, step-Turn}

-- A job as `GET /index/jobs/{job_id}` shows it: at work without results and without an error, done
-- without an error, or failed with an error and without results.
pub data IsReported (job : Job) : Type 0 where
  at_work : (job.status ≡ pending) ⊎ (job.status ≡ running) → IsBlank job → IsReported job
  at_end : IsEnded job → IsReported job

module _ (lib : Libraries) (settings : Settings) where
  run-AreFit :
      (calls : List Call) (s : State lib settings)
      → AreNew lib settings calls s
      → AreFit lib settings s
      → AreFit lib settings (run lib settings calls s)
  unfolding run
  run-AreFit [] s new h = h
  run-AreFit (call ∷ calls) s (new, rest) h = run-AreFit calls (step lib settings call s) rest (
      Turn-AreFit lib settings (subject lib settings call) s _ (step-Turn lib settings call s new h)
        h)

  Fits-IsReported :
      (o : Option (Task lib settings)) (job : Job) → Fits o (some job) → IsReported job
  Fits-IsReported none job h = ground (arith, h)
  Fits-IsReported (some queued) job (status, blank) = at_work (inl status) blank
  Fits-IsReported (some (batch_run t0 r)) job (status, blank) = at_work (inr status) blank
  Fits-IsReported (some (url_run t0 r)) job h = ground (arith, h)
  Fits-IsReported (some (left r)) job ended = at_end ended

  start-AreFit : (s : State lib settings) → s.tasks ≡ [] → s.jobs ≡ [] → AreFit lib settings s
  unfolding lookup
  start-AreFit s no_tasks no_jobs = record {
    fit = λ k.
        subst₂ (λ tasks jobs. Fits (lookup k tasks) (lookup k jobs)) (sym no_tasks) (sym no_jobs)
          refl;
  }

  -- In every state that requests and the stages of pipelines lead to from a start, where each new job
  -- gets a number that is not used yet: a job that is pending or running has no results and no
  -- error, a job that is done has no error, and a job that failed has an error and no results.
  pub get_job-run-IsReported :
      (calls : List Call) (s : State lib settings) (id : Text) (job : Job)
      → s.tasks ≡ []
      → s.jobs ≡ []
      → AreNew lib settings calls s
      → get_job id (run lib settings calls s).jobs ≡ some job
      → IsReported job
  unfolding get_job
  get_job-run-IsReported calls s id job no_tasks no_jobs new e =
      let h = run-AreFit calls s new (start-AreFit s no_tasks no_jobs) in
      Fits-IsReported _ job (subst (Fits _) e (h.fit id))

  run-ended :
      (calls : List Call) (s : State lib settings) (id : Text) (job : Job)
      → AreFit lib settings s
      → AreNew lib settings calls s
      → lookup id s.jobs ≡ some job
      → IsEnded job
      → lookup id (run lib settings calls s).jobs ≡ some job
  unfolding run
  run-ended [] s id job h new e ended = e
  run-ended (call ∷ calls) s id job h (new, rest) e ended =
      let turn = step-Turn lib settings call s new h in
      run-ended calls (step lib settings call s) id job
        (Turn-AreFit lib settings (subject lib settings call) s _ turn h) rest
        (Turn-ended lib settings (subject lib settings call) id job s _ turn e ended) ended

  -- From a start, where each new job gets a number that is not used yet: a job that is done or has
  -- failed is never changed again, whatever requests and stages follow.
  pub get_job-run_same :
      (calls later : List Call) (s : State lib settings) (id : Text) (job : Job)
      → s.tasks ≡ []
      → s.jobs ≡ []
      → AreNew lib settings calls s
      → AreNew lib settings later (run lib settings calls s)
      → get_job id (run lib settings calls s).jobs ≡ some job
      → IsEnded job
      → get_job id (run lib settings later (run lib settings calls s)).jobs ≡ some job
  unfolding get_job
  get_job-run_same calls later s id job no_tasks no_jobs new newer e ended =
      run-ended later (run lib settings calls s) id job
        (run-AreFit calls s new (start-AreFit s no_tasks no_jobs)) newer e ended
