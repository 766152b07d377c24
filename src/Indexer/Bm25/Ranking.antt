-- ===== src/Indexer/Bm25/Ranking.antt =====
-- The ranking of `BM25Index.search` (indexer/bm25.py), by the documented results of the library.
use axon_search.Base.{
  ℕ, ◌+◌, ◌≤◌, ◌<◌, ◌≡◌, sym, ap, ◌∙◌, inl, inr, min, true, false, none, some, List, [], ◌∷◌, arith,
  ◌==◌, if◌then◌else◌, length, take, All, In, Bool-cases, length-take-le,
}
use mathlib.Core.Path.{subst}
use mathlib.Core.Bool.{false≢true}
use mathlib.Core.Option.{none-ne-some}
use axon_search.Base.Dict.{nat_key, contains}
use axon_search.Base.Text.{Text}
use axon_search.Base.Floats.{Floats}
use axon_search.Indexer.Collect.{
  hits, collect_lem, hits-In, In-hits, In-take, take_short, IsNodup, length-hits, length-IsNodup-le,
  In-of-contains,
}
use axon_search.Indexer.Bm25.{Env, Index, get_or}
use axon_search.Indexer.Bm25.Search.{Hit, partial_sort, visit, rank, is_deleted, get_metadata}
use axon_search.Indexer.Bm25.State.{absent-All}

-- The documented results of the library calls: as many scores as documents, and `k` positions
-- that are distinct, in range, and no worse than any position left out.
pub record IsBest (f : Floats) (scores : List f.Float) (k : ℕ) (idx : List ℕ) : Type 0 where
  pub many : length idx ≡ k
  pub known : All (λ i. i < length scores) idx
  pub once : IsNodup idx
  pub dominates :
      (i : ℕ)
      → i < length scores
      → contains i idx ≡ false
      → All (λ j. f.leb (get_or scores i f.zero) (get_or scores j f.zero) ≡ true) idx

pub record Laws (env : Env) : Type 1 where
  pub one_each :
      (k1 b : env.floats.Float) (corpus : List (List Text)) (tokens : List Text)
      → length (env.get_scores k1 b corpus tokens) ≡ length corpus
  pub best_is :
      (scores : List env.floats.Float) (k : ℕ)
      → k ≤ length scores
      → IsBest env.floats scores k (env.best scores k)

module _ (env : Env) where
  open env use {floats, get_scores}
  open floats use {Float}

  -- A hit that `search` may return: a live document with a positive score and its metadata.
  pub record IsLive (idx : Index env) (scores : List Float) (hit : Hit env) : Type 0 where
    pub alive : is_deleted env hit.0 idx ≡ false
    pub score_is : hit.1 ≡ get_or scores hit.0 floats.zero
    pub positive : floats.leb hit.1 floats.zero ≡ false
    pub described : hit.2 ≡ get_metadata env hit.0 idx

  visit-IsLive :
      (idx : Index env) (scores : List Float) (i : ℕ) (hit : Hit env)
      → visit env idx scores i ≡ some hit
      → IsLive idx scores hit × (hit.0 ≡ i)
  unfolding visit is_deleted get_metadata
  visit-IsLive idx scores i hit e = ground arith

  visit_live :
      (idx : Index env) (scores : List Float) (i : ℕ)
      → contains i idx.deleted ≡ false
      → floats.leb (get_or scores i floats.zero) floats.zero ≡ false
      → visit env idx scores i ≡ some (i, get_or scores i floats.zero, get_or idx.metadata i [])
  unfolding visit
  visit_live idx scores i a p = rw (a, p)

  module _ (laws : Laws env) (idx : Index env) (scores : List Float) (top_k : ℕ)
      (positive_k : 0 < top_k) where
    abbrev fetched : ℕ
    fetched = min (top_k + length idx.deleted) (length scores)

    abbrev candidates : List ℕ
    candidates = partial_sort env scores fetched

    slice : (if fetched == 0 then length scores else fetched) ≡ fetched
    slice = ground arith

    candidates-IsBest : IsBest floats scores fetched candidates
    unfolding partial_sort
    candidates-IsBest =
        subst (λ k. IsBest floats scores fetched (env.best scores k)) (sym slice)
          (laws.best_is scores fetched (omega arith))

    rank-take : rank env idx scores top_k ≡ take top_k (hits (visit env idx scores) candidates)
    unfolding rank
    rank-take = collect_lem (visit env idx scores) top_k candidates positive_k

    pub rank-IsLive : (hit : Hit env) → In hit (rank env idx scores top_k) → IsLive idx scores hit
    rank-IsLive hit i =
        let i' = In-take hit top_k _ (rw rank-take at i) in
        let (x, _, e) = In-hits (visit env idx scores) hit candidates i' in
        (visit-IsLive idx scores x hit e).0

    pub rank-length : length (rank env idx scores top_k) ≤ top_k
    rank-length = rw rank-take (length-take-le top_k _)

    -- A skipped candidate that ranks no lower than a positive score is deleted.
    skipped_dead :
        (i : ℕ) (xs : List ℕ)
        → floats.leb (get_or scores i floats.zero) floats.zero ≡ false
        → All
            (λ j. floats.leb (get_or scores i floats.zero) (get_or scores j floats.zero) ≡ true)
            xs
        → All (λ j. visit env idx scores j ≡ none → contains j idx.deleted ≡ true) xs
    skipped_dead i [] good d = tt
    skipped_dead i (j ∷ js) good d = (
      λ skip. elim (Bool-cases (contains j idx.deleted)) [
        | inl dead ↦ dead
        | inr alive ↦ elim (Bool-cases (floats.leb (get_or scores j floats.zero) floats.zero)) [
          | inl low ↦ absurd (false≢true (sym good ∙ floats.order.trans _ _ _ d.0 low))
          | inr high ↦ absurd (none-ne-some _ (sym skip ∙ visit_live idx scores j alive high))
        ]
      ],
      skipped_dead i js good d.1,
    )

    -- With a live document left out, the candidates alone fill the results.
    crowded :
        (i : ℕ)
        → i < length scores
        → contains i idx.deleted ≡ false
        → floats.leb (get_or scores i floats.zero) floats.zero ≡ false
        → contains i candidates ≡ false
        → ¬ (length (hits (visit env idx scores) candidates) < top_k)
    crowded i known alive good left few =
        let c = candidates-IsBest in
        let dead = skipped_dead i candidates good (c.dominates i known left) in
        let enough = length-hits (visit env idx scores) candidates idx.deleted c.once dead in
        let room =
          length-IsNodup-le (length scores) (i ∷ candidates) (absent-All i candidates left, c.once)
            (known, c.known) in
        omega (arith, enough, room, c.many)

    pub rank_complete :
        (i : ℕ)
        → length (rank env idx scores top_k) < top_k
        → i < length scores
        → contains i idx.deleted ≡ false
        → floats.leb (get_or scores i floats.zero) floats.zero ≡ false
        → In (i, get_or scores i floats.zero, get_or idx.metadata i []) (rank env idx scores top_k)
    rank_complete i short known alive good =
        let v = visit env idx scores in
        let all =
          take_short top_k (hits v candidates) (subst (λ l. length l < top_k) rank-take short) in
        let e = visit_live idx scores i alive good in
        rw (rank-take, all)
          (elim (Bool-cases (contains i candidates)) [
            | inl chosen ↦ hits-In v i candidates _ (In-of-contains i candidates chosen) e
            | inr left ↦ absurd (
                crowded i known alive good left
                  (omega (arith, short, ap length rank-take, ap length all)))
          ])
