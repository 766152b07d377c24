-- ===== src/Api/Server/Counts.antt =====
-- The documents and the counts of the pipelines that share the indexes (api/routes/index.py,
-- indexer/pipeline.py).
use axon_search.Base.{
  ℕ, ◌+◌, ◌-◌, ◌≡◌, refl, sym, ap, ◌∙◌, inl, Bool, true, false, Option, none, some, List, [], ◌∷◌,
  arith, length, length-append, if◌then◌else◌, ltb,
}
use axon_search.Base.Dict.{lookup, insert}
use axon_search.Base.Text.{Text, str_key}
use axon_search.Config.{Settings}
use axon_search.Indexer.Bm25
use axon_search.Indexer.Bm25.{Index, add, update_vocab, refresh}
use axon_search.Indexer.Bm25.Search
use axon_search.Indexer.Bm25.State.{refresh-same}
use axon_search.Indexer.Batching.{Parts, Page, Indexes, index_page}
use axon_search.Indexer.Pipeline
use axon_search.Indexer.Pipeline.{Run, Event, has_ended}
use axon_search.Indexer.Pipeline.Keeping.{step-keep}
use axon_search.Api.Server.{Libraries, parts_of, Task, queued, batch_run, url_run, left, State}
use axon_search.Api.Server.Loop.{
  Call, batch, begin, index_one, advance, complete, fail, delete, search, Wrap, shared, share,
  set_task, build_pipeline, advance_run, advance_task, rank_links, outcome_of, index_batch,
  begin_task, end_batch, end_url, complete_task, fail_task, step, run,
}
use axon_search.Api.IndexRoutes.{Outcome}
use axon_search.Api.Server.Requests.{
  end_batch-keep, end_url-keep, KeepsRequests, delete_url-keep, answer_search-keep,
}
use axon_search.Api.Server.CallTurns.{IsNew, AreNew}

-- The documents that a pipeline has added: the pages that it has counted, and one more where the vector
-- store refused the last one.
abbrev pub added : {parts : Parts} → Indexes parts → ℕ
added x = x.indexed + (if ltb 0 x.lost then 1 else 0)

module _ {lib : Libraries} {settings : Settings} where
  -- The documents that the run of a task has added so far, and those of all tasks.
  unfoldable pub indexed_of : Option (Task lib settings) → ℕ
  indexed_of none = 0
  indexed_of (some queued) = 0
  indexed_of (some (batch_run t0 r)) = added r.indexes
  indexed_of (some (url_run t0 r)) = added r.indexes
  indexed_of (some (left r)) = added r.indexes

  unfoldable pub total_indexed : List (Text × Task lib settings) → ℕ
  total_indexed [] = 0
  total_indexed ((id, task) ∷ tasks) = indexed_of (some task) + total_indexed tasks

  total_indexed-insert :
      (id : Text) (task : Task lib settings) (tasks : List (Text × Task lib settings))
      → total_indexed (insert id task tasks) + indexed_of (lookup id tasks)
        ≡ total_indexed tasks + indexed_of (some task)
  unfolding total_indexed insert lookup indexed_of
  total_indexed-insert id task [] = omega arith
  total_indexed-insert id task ((j, t) ∷ tasks) = ground (arith, total_indexed-insert id task tasks)

module _ (parts : Parts) (k c : ℕ) where
  index_page-counted :
      (page : Page parts) (v : parts.faiss.Vector) (x : Indexes parts)
      → length x.bm25.corpus + k ≡ added x + c
      → let y = index_page parts page v x in length y.bm25.corpus + k ≡ added y + c
  unfolding index_page add update_vocab
  index_page-counted page v x h =
      ground (arith, h, length-append {0} x.bm25.corpus (Bm25.tokenize parts.env page.text ∷ []))

module _ (lib : Libraries) (settings : Settings) (n : ℕ) where
  open lib use {env, faiss}

  -- The documents of the BM25 index, deleted ones too: so many, and those that the tasks have indexed.
  abbrev IsCounted : State lib settings → Type 0
  IsCounted s = length s.app.bm25.corpus ≡ n + total_indexed s.tasks

  count-Keeps : (c : ℕ) → KeepsRequests lib settings (λ idx store. length idx.corpus ≡ c)
  unfolding Search.delete
  count-Keeps c = record {
    rebuilt = λ idx store h. ap length (refresh-same env idx).0 ∙ h;
    removed = λ d idx store h. ground (arith, h);
  }

  -- A task goes on that has indexed as much as before.
  put-counted :
      (id : Text) (task : Task lib settings) (tasks : List (Text × Task lib settings)) (m : ℕ)
      → indexed_of (lookup id tasks) ≡ indexed_of (some task)
      → m ≡ n + total_indexed tasks
      → m ≡ n + total_indexed (insert id task tasks)
  put-counted id task tasks m i h = omega (arith, total_indexed-insert id task tasks, i, h)

  advance_run-IsCounted :
      (id : Text) (wrap : Wrap lib settings) (e : Event) (r : Run (parts_of lib settings))
      (s : State lib settings)
      → ((x : Run (parts_of lib settings)) → indexed_of (some (wrap x)) ≡ added x.indexes)
      → indexed_of (lookup id s.tasks) ≡ added r.indexes
      → IsCounted s
      → IsCounted (advance_run lib settings id wrap e r s)
  unfolding advance_run shared share set_task
  advance_run-IsCounted id wrap e r s w i h =
      let parts = parts_of lib settings in
      let r' = Pipeline.step parts 64 e (shared lib settings s r) in
      let k = added r.indexes in
      let c = length s.app.bm25.corpus in
      let grown =
        step-keep parts (λ x. length x.bm25.corpus + k ≡ added x + c) (index_page-counted parts k c)
          64 e (shared lib settings s r) (omega arith) in
      omega (arith, total_indexed-insert id (wrap r') s.tasks, w r', i, h, grown)

  advance_task-IsCounted :
      (id : Text) (e : Event) (o : Option (Task lib settings)) (s : State lib settings)
      → indexed_of (lookup id s.tasks) ≡ indexed_of o
      → IsCounted s
      → IsCounted (advance_task lib settings id e o s)
  unfolding advance_task indexed_of
  advance_task-IsCounted id e none s i h = h
  advance_task-IsCounted id e (some queued) s i h = h
  advance_task-IsCounted id e (some (batch_run t0 r)) s i h =
      advance_run-IsCounted id (batch_run t0) e r s (λ x. refl) i h
  advance_task-IsCounted id e (some (url_run t0 r)) s i h =
      advance_run-IsCounted id (url_run t0) e r s (λ x. refl) i h
  advance_task-IsCounted id e (some (left r)) s i h =
      advance_run-IsCounted id left e r s (λ x. refl) i h

  build_pipeline-none : (s : State lib settings) → added (build_pipeline lib settings s).indexes ≡ 0
  unfolding build_pipeline Pipeline.start
  build_pipeline-none s = refl

  begin_task-IsCounted :
      (id : Text) (t0 : ℕ) (o : Option (Task lib settings)) (s : State lib settings)
      → indexed_of (lookup id s.tasks) ≡ indexed_of o
      → IsCounted s
      → IsCounted (begin_task lib settings id t0 o s)
  unfolding begin_task set_task indexed_of
  begin_task-IsCounted id t0 none s i h = h
  begin_task-IsCounted id t0 (some queued) s i h =
      put-counted id (batch_run t0 (build_pipeline lib settings s)) s.tasks _
        (i ∙ sym (build_pipeline-none s)) h
  begin_task-IsCounted id t0 (some (batch_run t r)) s i h = h
  begin_task-IsCounted id t0 (some (url_run t r)) s i h = h
  begin_task-IsCounted id t0 (some (left r)) s i h = h

  either-IsCounted :
      (b : Bool) (s t : State lib settings)
      → IsCounted s
      → IsCounted t
      → IsCounted (if b then s else t)
  either-IsCounted true s t h k = h
  either-IsCounted false s t h k = k

  end_batch-IsCounted :
      (id : Text) (outcome : Outcome) (elapsed : ℕ) (r : Run (parts_of lib settings))
      (s : State lib settings)
      → indexed_of (lookup id s.tasks) ≡ added r.indexes
      → IsCounted s
      → IsCounted (end_batch lib settings id outcome elapsed r s)
  unfolding end_batch set_task indexed_of
  end_batch-IsCounted id outcome elapsed r s i h =
      let c = length s.app.bm25.corpus in
      end_batch-keep lib settings _ (count-Keeps c) id outcome elapsed r s refl
      ∙ put-counted id (left r) s.tasks c i h

  end_url-IsCounted :
      (id : Text) (outcome : Outcome) (t0 t1 now : ℕ) (r : Run (parts_of lib settings))
      (s : State lib settings)
      → indexed_of (lookup id s.tasks) ≡ added r.indexes
      → IsCounted s
      → IsCounted (end_url lib settings id outcome t0 t1 now r s)
  unfolding end_url set_task indexed_of
  end_url-IsCounted id outcome t0 t1 now r s i h =
      let c = length s.app.bm25.corpus in
      end_url-keep lib settings _ (count-Keeps c) id outcome t0 t1 now r s refl
      ∙ put-counted id (left r) s.tasks c i h

  complete_task-IsCounted :
      (id : Text) (t1 now : ℕ) (o : Option (Task lib settings)) (s : State lib settings)
      → indexed_of (lookup id s.tasks) ≡ indexed_of o
      → IsCounted s
      → IsCounted (complete_task lib settings id t1 now o s)
  unfolding complete_task rank_links indexed_of
  complete_task-IsCounted id t1 now none s i h = h
  complete_task-IsCounted id t1 now (some queued) s i h = h
  complete_task-IsCounted id t1 now (some (batch_run t0 r)) s i h =
      either-IsCounted (has_ended (parts_of lib settings) r) _ s
        (end_batch-IsCounted id (outcome_of lib settings r) (t1 - t0) r (rank_links lib settings s)
          i h)
        h
  complete_task-IsCounted id t1 now (some (url_run t0 r)) s i h =
      either-IsCounted (has_ended (parts_of lib settings) r) _ s
        (end_url-IsCounted id (outcome_of lib settings r) t0 t1 now r (rank_links lib settings s) i
          h)
        h
  complete_task-IsCounted id t1 now (some (left r)) s i h = h

  fail_task-IsCounted :
      (id exc : Text) (t1 : ℕ) (o : Option (Task lib settings)) (s : State lib settings)
      → indexed_of (lookup id s.tasks) ≡ indexed_of o
      → IsCounted s
      → IsCounted (fail_task lib settings id exc t1 o s)
  unfolding fail_task indexed_of
  fail_task-IsCounted id exc t1 none s i h = h
  fail_task-IsCounted id exc t1 (some queued) s i h = h
  fail_task-IsCounted id exc t1 (some (batch_run t0 r)) s i h =
      end_batch-IsCounted id (inl exc) (t1 - t0) r s i h
  fail_task-IsCounted id exc t1 (some (url_run t0 r)) s i h =
      end_url-IsCounted id (inl exc) t0 t1 t1 r s i h
  fail_task-IsCounted id exc t1 (some (left r)) s i h = h

  step-IsCounted :
      (call : Call) (s : State lib settings)
      → IsNew lib settings call s
      → IsCounted s
      → IsCounted (step lib settings call s)
  unfolding step index_batch set_task indexed_of
  step-IsCounted (batch id now) s new h = put-counted id queued s.tasks _ (ap indexed_of new) h
  step-IsCounted (begin id t0) s new h = begin_task-IsCounted id t0 (lookup id s.tasks) s refl h
  step-IsCounted (index_one id t0) s new h =
      put-counted id (url_run t0 (build_pipeline lib settings s)) s.tasks _
        (ap indexed_of new ∙ sym (build_pipeline-none s)) h
  step-IsCounted (advance id e) s new h = advance_task-IsCounted id e (lookup id s.tasks) s refl h
  step-IsCounted (complete id t1 now) s new h =
      complete_task-IsCounted id t1 now (lookup id s.tasks) s refl h
  step-IsCounted (fail id exc t1) s new h =
      fail_task-IsCounted id exc t1 (lookup id s.tasks) s refl h
  step-IsCounted (delete address) s new h =
      delete_url-keep lib settings _ (count-Keeps (length s.app.bm25.corpus)) address s.app refl ∙ h
  step-IsCounted (search read written req) s new h =
      answer_search-keep lib settings _ (count-Keeps (length s.app.bm25.corpus)) read written req s
        refl
      ∙ h

  run-IsCounted :
      (calls : List Call) (s : State lib settings)
      → AreNew lib settings calls s
      → IsCounted s
      → IsCounted (run lib settings calls s)
  unfolding run
  run-IsCounted [] s new h = h
  run-IsCounted (call ∷ calls) s (new, rest) h =
      run-IsCounted calls (step lib settings call s) rest (step-IsCounted call s new h)

module _ (lib : Libraries) (settings : Settings) where
  -- The pipelines of all jobs share the indexes: from a start, where each new job gets a number that
  -- is not used yet, and however the stages of the pipelines, deletions and searches take turns, the
  -- documents of the BM25 index are those of the start and, for each job, as many as its pipeline
  -- has counted, and one more if the vector store refused the page after these.
  pub run-total_indexed :
      (calls : List Call) (s : State lib settings)
      → s.tasks ≡ []
      → AreNew lib settings calls s
      → let t = run lib settings calls s in
        length t.app.bm25.corpus ≡ length s.app.bm25.corpus + total_indexed t.tasks
  unfolding total_indexed
  run-total_indexed calls s no_tasks new =
      run-IsCounted lib settings (length s.app.bm25.corpus) calls s new
        (omega (arith, ap total_indexed no_tasks))
