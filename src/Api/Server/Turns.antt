-- ===== src/Api/Server/Turns.antt =====
-- The life of a job, under all that the server does (api/routes/index.py).
use axon_search.Base.{
  ◌≡◌, ◌≢◌, refl, sym, ap, ◌∙◌, ◌⊎◌, if_pos, if_neg, Option, none, some, List, arith,
}
use mathlib.Core.Path.{subst, subst₂}
use axon_search.Base.Dict.{lookup, insert, lookup-insert}
use axon_search.Base.Text.{Text, Text-discrete, str_key}
use axon_search.Config.{Settings}
use axon_search.Api.IndexRoutes.{Status, pending, running, done, failed, Job}
use axon_search.Api.Server.{Libraries, Task, queued, batch_run, url_run, left, State}

-- A job without results and without an error.
pub record IsBlank (job : Job) : Type 0 where
  pub none_crawled : job.crawled ≡ 0
  pub none_indexed : job.indexed ≡ 0
  pub no_error : job.error ≡ none

-- A job that is done has no error; one that failed has one, and no results.
pub data IsEnded (job : Job) : Type 0 where
  was_done : job.status ≡ done → job.error ≡ none → IsEnded job
  has_failed :
      (exc : Text)
      → job.status ≡ failed
      → job.error ≡ some exc
      → job.crawled ≡ 0
      → job.indexed ≡ 0
      → IsEnded job

abbrev pub HasStatus : Status → Option Job → Type 0
HasStatus status none = ⊥
HasStatus status (some job) = (job.status ≡ status) × IsBlank job

abbrev pub HasEnded : Option Job → Type 0
HasEnded none = Unit
HasEnded (some job) = IsEnded job

-- The job of a number that is not used yet, or whose background task has got so far.
abbrev pub Fits :
    {lib : Libraries} {settings : Settings} → Option (Task lib settings) → Option Job → Type 0
Fits none = λ o. o ≡ none
Fits (some queued) = HasStatus pending
Fits (some (batch_run t0 r)) = HasStatus running
Fits (some (url_run t0 r)) = λ o. o ≡ none
Fits (some (left r)) = HasEnded

pub HasStatus-busy :
    (status : Status) (o : Option Job)
    → (status ≡ pending) ⊎ (status ≡ running)
    → HasStatus status o
    → (job : Job) → o ≡ some job
    → IsEnded job
    → ⊥
HasStatus-busy status o h f job e (was_done d x) =
    ground (arith, h, d, (subst (HasStatus status) e f).0)
HasStatus-busy status o h f job e (has_failed exc d x c i) =
    ground (arith, h, d, (subst (HasStatus status) e f).0)

module _ {V : Type 0} where
  lookup-insert_self : (k : Text) (v : V) (m : List (Text × V)) → lookup k (insert k v m) ≡ some v
  lookup-insert_self k v m =
      lookup-insert k k v m ∙ if_pos (Text-discrete k k) refl (some v) (lookup k m)

  lookup-insert_other :
      (k j : Text) (v : V) (m : List (Text × V)) → k ≢ j → lookup j (insert k v m) ≡ lookup j m
  lookup-insert_other k j v m h =
      lookup-insert k j v m ∙ if_neg (Text-discrete k j) h (some v) (lookup j m)

module _ (lib : Libraries) (settings : Settings) where
  -- Every job is as far as its task.
  pub record AreFit (s : State lib settings) : Type 0 where
    pub fit : (id : Text) → Fits (lookup id s.tasks) (lookup id s.jobs)

  -- A call changes no job but one, and that one not if it has ended.
  pub record Turn (id : Text) (s t : State lib settings) : Type 0 where
    pub other_tasks : (k : Text) → id ≢ k → lookup k t.tasks ≡ lookup k s.tasks
    pub other_jobs : (k : Text) → id ≢ k → lookup k t.jobs ≡ lookup k s.jobs
    pub fits : Fits (lookup id t.tasks) (lookup id t.jobs)
    pub stays :
        (job : Job) → lookup id s.jobs ≡ some job → IsEnded job → lookup id t.jobs ≡ some job

  pub same-Turn :
      (id : Text) (s t : State lib settings)
      → t.tasks ≡ s.tasks
      → t.jobs ≡ s.jobs
      → AreFit s
      → Turn id s t
  same-Turn id s t et ej h = record {
    other_tasks = λ k n. ap (lookup k) et;
    other_jobs = λ k n. ap (lookup k) ej;
    fits =
        subst₂ (λ tasks jobs. Fits (lookup id tasks) (lookup id jobs)) (sym et) (sym ej) (h.fit id);
    stays = λ job e ended. ap (lookup id) ej ∙ e;
  }

  -- The task of a number goes on, and its job stays.
  pub task-Turn :
      (id : Text) (task : Task lib settings) (s t : State lib settings)
      → t.tasks ≡ insert id task s.tasks
      → t.jobs ≡ s.jobs
      → Fits (some task) (lookup id s.jobs)
      → Turn id s t
  task-Turn id task s t et ej f = record {
    other_tasks = λ k n. ap (lookup k) et ∙ lookup-insert_other id k task s.tasks n;
    other_jobs = λ k n. ap (lookup k) ej;
    fits =
        subst₂ Fits (sym (ap (lookup id) et ∙ lookup-insert_self id task s.tasks))
          (sym (ap (lookup id) ej)) f;
    stays = λ job e ended. ap (lookup id) ej ∙ e;
  }

  -- The task of a number goes on with its job, which had not ended.
  pub job-Turn :
      (id : Text) (task : Task lib settings) (job : Job) (s t : State lib settings)
      → t.tasks ≡ insert id task s.tasks
      → t.jobs ≡ insert id job s.jobs
      → Fits (some task) (some job)
      → ((old : Job) → lookup id s.jobs ≡ some old → IsEnded old → ⊥)
      → Turn id s t
  job-Turn id task job s t et ej f busy = record {
    other_tasks = λ k n. ap (lookup k) et ∙ lookup-insert_other id k task s.tasks n;
    other_jobs = λ k n. ap (lookup k) ej ∙ lookup-insert_other id k job s.jobs n;
    fits =
        subst₂ Fits (sym (ap (lookup id) et ∙ lookup-insert_self id task s.tasks))
          (sym (ap (lookup id) ej ∙ lookup-insert_self id job s.jobs)) f;
    stays = λ old e ended. absurd (busy old e ended);
  }

  pub Turn-AreFit : (id : Text) (s t : State lib settings) → Turn id s t → AreFit s → AreFit t
  Turn-AreFit id s t turn h = record {
    fit = λ k. elim (Text-discrete id k) [
      | yes e ↦ subst (λ j. Fits (lookup j t.tasks) (lookup j t.jobs)) e turn.fits
      | no n ↦ subst₂ Fits (sym (turn.other_tasks k n)) (sym (turn.other_jobs k n)) (h.fit k)
    ];
  }

  pub Turn-ended :
      (id k : Text) (job : Job) (s t : State lib settings)
      → Turn id s t
      → lookup k s.jobs ≡ some job
      → IsEnded job
      → lookup k t.jobs ≡ some job
  Turn-ended id k job s t turn e ended = elim (Text-discrete id k) [
    | yes p ↦
        subst (λ j. lookup j t.jobs ≡ some job) p
          (turn.stays job (subst (λ j. lookup j s.jobs ≡ some job) (sym p) e) ended)
    | no n ↦ turn.other_jobs k n ∙ e
  ]
