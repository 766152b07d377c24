-- ===== src/Indexer/Bm25/Tests.antt =====
-- Runs of the index, and instances of the theorems about it.
use axon_search.Base.{
  ℕ, ◌≤◌, ◌≡◌, refl, true, false, none, List, [], ◌∷◌, map, arith, length, In, keep, ltb, ◌==◌,
  ◌||◌, ◌&&◌,
}
use mathlib.Core.List.{cons≢nil}
use axon_search.Base.Dict.{nat_key, lookup, insert, contains}
use axon_search.Base.Text.{
  Text, codes, str_key, Text-discrete, lower, strip, collapse, remove_punct, split, starts_with,
  text_leb,
}
use axon_search.Base.Counter.{add_to}
use axon_search.Base.Top.{IsTop}
use axon_search.Base.Sort.{sort, insert_sorted}
use axon_search.Indexer.Samples.{sample_env, best_of, sample-Laws}
use axon_search.Indexer.Collect.{collect}
use axon_search.Indexer.Bm25.{Meta, Index, init, add, tokenize, words, refresh, rebuild}
use axon_search.Indexer.Bm25.Search.{
  search, answer, rank, visit, partial_sort, delete, delete_by_url, is_deleted, size, suggest,
  get_metadata,
}
use axon_search.Base.Text.{text_leb}
use axon_search.Indexer.Bm25.State.{IsValid}
use axon_search.Indexer.Bm25.Ranking.{IsLive}
use axon_search.Indexer.Bm25.Results.{scores_of, search-IsLive, search_complete}
use axon_search.Indexer.Bm25.Deletion.{delete_by_url_again}
use axon_search.Indexer.Bm25.Suggest.{matches, suggest-IsTop}

abbrev page : Text → Meta
page url = (codes "url", url) ∷ []

abbrev cats : Text
cats = codes "/cats"

-- Two documents, the first of them deleted.
abbrev two_docs : Index sample_env
two_docs = record {
  k1 = 150;
  b = 75;
  corpus = (codes "cat" ∷ codes "purr" ∷ []) ∷ (codes "cat" ∷ []) ∷ [];
  metadata = page cats ∷ page (codes "/cat") ∷ [];
  bm25 = none;
  dirty = true;
  deleted = 0 ∷ [];
  url_to_id = (cats, 0) ∷ (codes "/cat", 1) ∷ [];
  vocab_freq = (codes "cat", 2) ∷ (codes "purr", 1) ∷ [];
}

program : Unit {0}
unfolding init add tokenize lower remove_punct collapse split keep contains add_to Text-discrete
    insert lookup delete is_deleted size starts_with strip search answer rank visit partial_sort
    refresh rebuild collect best_of sort insert_sorted words get_metadata
program = tt

two_docs_lem :
    let (first, one) = add sample_env (codes "Cat, purr!") (page cats) (init sample_env 150 75) in
    let (second, both) = add sample_env (codes "the cat") (page (codes "/cat")) one in
    (first ≡ 0) × (second ≡ 1)
unfolding program
two_docs_lem = (refl, refl)

two_docs-IsValid : IsValid sample_env two_docs
unfolding lookup
two_docs-IsValid = record {
  aligned = refl;
  dead_known = (omega arith, tt);
  dead_once = (tt, tt);
  urls_known = λ url i e. ground arith;
  nothing_built = λ e. refl;
  built = λ e. ground arith;
}

search-IsLive_example :
    let results = (search sample_env (codes "cat") 5 two_docs).0 in
    (length results ≤ 5)
    × ((hit : ℕ × ℕ × Meta)
        → In hit results
        → IsLive sample_env two_docs
            (scores_of sample_env sample-Laws (codes "cat") 5 (omega arith) two_docs)
            hit)
search-IsLive_example =
    search-IsLive sample_env sample-Laws (codes "cat") 5 (omega arith) two_docs two_docs-IsValid

suggest-IsTop_example :
    (pairs : List (Text × ℕ)) × (suggest sample_env (codes " Ca") 8 two_docs
      ≡ map (λ pair. pair.0) pairs)
    × IsTop
        (λ x y. ltb y.1 x.1 || (y.1 == x.1 && text_leb x.0 y.0))
        8
        (matches sample_env (codes " Ca") two_docs)
        pairs
unfolding lower strip
suggest-IsTop_example = suggest-IsTop sample_env (codes " Ca") 8 two_docs cons≢nil

delete_by_url_again_example :
    let (old, idx₁) = add sample_env (codes "dog") (page cats) two_docs in
    let (new, idx₂) = add sample_env (codes "dogs") (page cats) idx₁ in
    let (done, idx₃) = delete_by_url sample_env cats idx₂ in
    (done ≡ true)
    × (is_deleted sample_env new idx₃ ≡ true)
    × (is_deleted sample_env old idx₃ ≡ false)
    × (delete_by_url sample_env cats idx₃ ≡ (false, idx₃))
unfolding lookup Text-discrete
delete_by_url_again_example =
    delete_by_url_again sample_env (codes "dog") (codes "dogs") (page cats) (page cats) cats
      two_docs two_docs-IsValid cons≢nil refl refl

-- The search finds the second document only.
found : (search sample_env (codes "cat") 5 two_docs).0 ≡ (1, 100, page (codes "/cat")) ∷ []
unfolding program
found = refl

search_complete_example :
    In (1, 100, get_metadata sample_env 1 two_docs) (search sample_env (codes "cat") 5 two_docs).0
unfolding program
search_complete_example =
    search_complete sample_env sample-Laws (codes "cat") 5 (omega arith) two_docs 1 two_docs-IsValid
      cons≢nil (omega arith) (omega arith) refl refl
