-- ===== src/Api/Server/Tests.antt =====
-- Starts, requests and jobs of a server with one document, and instances of the theorems about it.
use axon_search.Api.IndexRoutes.Deleting.{IsBlank}
use axon_search.Indexer.Bm25.Search.{Pickle}
use native.Mathlib.Decide.{ℕ_discrete}
use axon_search.Base.{
  ℕ, ◌+◌, ◌≡◌, ◌≢◌, refl, true, false, none, some, List, [], ◌∷◌, arith, All, length, keep, ◌==◌,
  if◌then◌else◌,
}
use axon_search.Base.Dict.{lookup, insert, contains, text_discrete}
use axon_search.Base.Text.{Text-discrete, codes, strip, split, lower}
use axon_search.Config.{defaults}
use axon_search.Utils.Dedup.{Lsh}
use axon_search.Crawler.Extractor.Samples.{html, result}
use axon_search.Indexer.Bm25
use axon_search.Indexer.Bm25.{Index, Meta}
use axon_search.Indexer.Bm25.Search
use axon_search.Indexer.Samples.{sample_env, sample-Laws}
use axon_search.Indexer.VectorStore
use axon_search.Indexer.VectorStore.{VectorStore, hnsw}
use axon_search.Indexer.VectorStore.Samples.{lists, lists-Laws}
use axon_search.Indexer.Pipeline
use axon_search.Indexer.Pipeline.{
  crawl_page, put_result, end_crawl, take_result, end_extract, put_page, end_extracting, take_page,
}
use axon_search.Search.QueryProcessor.{process}
use axon_search.Api.SearchRoute.{SearchRequest, candidates_for}
use axon_search.Crawler.Crawl.{drop_at}
use axon_search.Crawler.Extractor.{extract}
use axon_search.Utils.QualityScorer.{score}
use axon_search.Utils.Dedup
use axon_search.Api.SearchRoute.Samples.{services}
use axon_search.Api.IndexRoutes
use axon_search.Api.IndexRoutes.{Job, failed, get_job}
use axon_search.Api.Server.{Libraries, services_of, State, startup, shutdown, fresh, index_type_of}
use axon_search.Api.Server.Loop.{
  Call, batch, begin, advance, complete, fail, delete, search, search_state, run, Response, step,
}
use axon_search.Api.Server.Sound.{HasSound, run-HasSound, delete-run-gone}
use axon_search.Api.Server.Restart.{HasRestored, startup-shutdown-HasRestored}
use axon_search.Api.Server.Turns.{has_failed}
use axon_search.Api.Server.CallTurns.{AreNew}
use axon_search.Api.Server.Counts.{indexed_of, total_indexed, run-total_indexed}
use axon_search.Api.Server.JobLife.{IsReported, get_job-run-IsReported, get_job-run_same}

abbrev never : Lsh ℕ
never = record {
  MinHash = ℕ;
  Handle = ℕ;
  blank = 0;
  update = λ s mh. mh;
  jaccard = λ a b. 0;
  empty = 0;
  query = λ mh h. [];
  insert = λ key mh h. h;
}

-- The threshold of the quality filter is 0, so that a short page passes.
abbrev lib : Libraries
lib = record {
  env = sample_env;
  faiss = lists;
  html = html;
  calls = record {
    decay = λ n. 1;
    round4 = λ x. 100;
    is_digit = λ c. false;
    is_upper = λ c. false;
    boilerplate = λ text. 0;
  };
  float = λ d. if d.digits == 35 then 0 else d.digits;
  lsh = λ threshold num_perm. never;
  model = λ name. services.model;
  cross_encoder = λ name pairs. [];
  lookups = services.lookups;
  repr = services.repr;
  round = λ digits x. x;
  number = λ n. codes "n";
  bm25_pickler = record {
    Bytes = ℕ × Pickle sample_env;
    dump = λ p. (128, p);
    load = λ bytes. bytes.1;
  };
  meta_pickler = record {
    Bytes = ℕ × (List ℕ × List Meta × List ℕ);
    dump = λ m. (128, m);
    load = λ bytes. bytes.1;
  };
}

abbrev sparse : Index sample_env
sparse = record {
  k1 = 15;
  b = 75;
  corpus = (codes "cat" ∷ []) ∷ [];
  metadata = ((codes "url", codes "/a") ∷ []) ∷ [];
  bm25 = none;
  dirty = true;
  deleted = [];
  url_to_id = (codes "/a", 0) ∷ [];
  vocab_freq = [];
}

abbrev dense : VectorStore lists
dense = record {
  dim = 1024;
  index_type = hnsw;
  index = 7 ∷ [];
  meta = ((codes "url", codes "/a") ∷ []) ∷ [];
  doc_ids = 0 ∷ [];
  deleted = [];
}

abbrev up : State lib defaults
up = fresh lib defaults sparse dense []

up-HasSound : HasSound lib defaults lists-Laws up
unfolding fresh lookup Text-discrete
up-HasSound = record {
  valid = record {
    aligned = refl;
    dead_known = tt;
    dead_once = tt;
    urls_known = λ url i e. ground arith;
    nothing_built = λ e. refl;
    built = λ e. ground arith;
  };
  stored = record { numbered = refl; described = refl; dead_once = tt };
  aligned = record { numbered = refl; same_urls = refl };
  trained = refl;
}

abbrev cats : SearchRequest
cats = record {
  query = codes "cat";
  top_k = 10;
  offset = 0;
  rerank = false;
  neural_filter = false;
  filters = [];
}

-- A batch job whose crawler yields no page runs between a search and a deletion.
abbrev idle_job : List Call
idle_job =
    search 1 2 cats
    ∷ batch (codes "j") 3
    ∷ begin (codes "j") 4
    ∷ advance (codes "j") end_crawl
    ∷ advance (codes "j") take_result
    ∷ delete (codes "/b")
    ∷ advance (codes "j") end_extracting
    ∷ advance (codes "j") take_page
    ∷ complete (codes "j") 9 10
    ∷ []

run-HasSound_example : HasSound lib defaults lists-Laws (run lib defaults idle_job up)
run-HasSound_example = run-HasSound lib defaults lists-Laws idle_job up up-HasSound

url_known : Search.url_to_doc_id sample_env (codes "/a") up.app.bm25 ≡ some 0
unfolding Search.url_to_doc_id lookup Text-discrete fresh
url_known = refl

delete-run-gone_example :
    IsBlank lib.env lib.faiss
      (Response lib defaults)
      (step lib defaults (delete (codes "/a")) up).app.search_cache
    × All
        (λ r. r.doc_id ≢ 0)
        (candidates_for
          (services_of lib defaults)
          cats
          (process services.lookups services.query_proc (codes "cat"))
          (search_state lib defaults (run lib defaults (delete (codes "/a") ∷ idle_job) up))).0
delete-run-gone_example =
    delete-run-gone lib defaults lists-Laws sample-Laws (codes "/a") 0 idle_job cats
      (process services.lookups services.query_proc (codes "cat")) up up-HasSound url_known

known_type : index_type_of defaults.vector_index_type ≡ some hnsw
unfolding index_type_of text_discrete
known_type = refl

startup-shutdown-HasRestored_example :
    HasRestored lib defaults lists-Laws up (startup lib defaults (shutdown lib defaults up))
startup-shutdown-HasRestored_example =
    startup-shutdown-HasRestored lib defaults lists-Laws up hnsw (λ p. refl) (λ m. refl) known_type
      up-HasSound

-- A batch job whose pipeline raises.
abbrev bad_job : List Call
bad_job = batch (codes "j") 3 ∷ begin (codes "j") 4 ∷ fail (codes "j") (codes "boom") 9 ∷ []

abbrev failed_job : Job
failed_job = record {
  job_id = codes "j";
  status = failed;
  crawled = 0;
  indexed = 0;
  elapsed = 5;
  created_at = 3;
  error = some (codes "boom");
}

abbrev after : State lib defaults
after = run lib defaults bad_job up

bad_job-AreNew : AreNew lib defaults bad_job up
unfolding lookup fresh
bad_job-AreNew = (refl, (tt, (tt, tt)))

failed_is : get_job (codes "j") after.jobs ≡ some failed_job
unfolding run fresh get_job lookup insert Text-discrete
failed_is = refl

no_tasks : (up.tasks ≡ []) × (up.jobs ≡ [])
unfolding fresh
no_tasks = (refl, refl)

get_job-run-IsReported_example : IsReported failed_job
get_job-run-IsReported_example =
    get_job-run-IsReported lib defaults bad_job up (codes "j") failed_job no_tasks.0 no_tasks.1
      bad_job-AreNew failed_is

-- Another job, a deletion, and the rest of the failed pipeline.
abbrev later : List Call
later =
    advance (codes "j") end_crawl
    ∷ batch (codes "k") 11
    ∷ begin (codes "k") 12
    ∷ delete (codes "/a")
    ∷ complete (codes "j") 13 14
    ∷ []

later-AreNew : AreNew lib defaults later after
unfolding run fresh lookup insert Text-discrete
later-AreNew = (tt, (refl, (tt, (tt, (tt, tt)))))

get_job-run_same_example : get_job (codes "j") (run lib defaults later after).jobs ≡ some failed_job
get_job-run_same_example =
    get_job-run_same lib defaults bad_job later up (codes "j") failed_job no_tasks.0 no_tasks.1
      bad_job-AreNew later-AreNew failed_is (has_failed (codes "boom") refl refl refl refl)

-- A batch job that indexes one page while a document is deleted.
abbrev good_job : List Call
good_job =
    batch (codes "j") 3
    ∷ begin (codes "j") 4
    ∷ advance (codes "j") (crawl_page result)
    ∷ advance (codes "j") put_result
    ∷ advance (codes "j") take_result
    ∷ advance (codes "j") end_crawl
    ∷ advance (codes "j") (end_extract 0)
    ∷ advance (codes "j") (put_page 0)
    ∷ delete (codes "/a")
    ∷ advance (codes "j") take_result
    ∷ advance (codes "j") end_extracting
    ∷ advance (codes "j") take_page
    ∷ advance (codes "j") take_page
    ∷ complete (codes "j") 9 10
    ∷ []

good_job-AreNew : AreNew lib defaults good_job up
unfolding lookup fresh
good_job-AreNew =
    (refl, (tt, (tt, (tt, (tt, (tt, (tt, (tt, (tt, (tt, (tt, (tt, (tt, (tt, tt))))))))))))))

abbrev grown : State lib defaults
grown = run lib defaults good_job up

run-total_indexed_example :
    length grown.app.bm25.corpus ≡ length up.app.bm25.corpus + total_indexed grown.tasks
run-total_indexed_example = run-total_indexed lib defaults good_job up no_tasks.0 good_job-AreNew

grown_by_one : (total_indexed grown.tasks ≡ 1) × (length grown.app.bm25.corpus ≡ 2)
unfolding run fresh total_indexed indexed_of lookup insert Text-discrete extract strip score split
    keep contains lower Dedup.is_duplicate drop_at ℕ_discrete text_discrete Pipeline.step
    Pipeline.start IndexRoutes.delete_url Search.url_to_doc_id Bm25.add Search.delete
    VectorStore.add
grown_by_one = (refl, refl)
