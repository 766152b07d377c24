-- ===== src/Indexer/Bm25/Results.antt =====
-- What `BM25Index.search` returns (indexer/bm25.py).
use axon_search.Base.{
  ℕ, ◌≤◌, ◌<◌, ◌≡◌, ◌≢◌, refl, sym, ap, ◌∙◌, ◌⊎◌, inl, inr, false, some, List, [], ◌∷◌, arith,
  length, In,
}
use mathlib.Core.Path.{subst, subst₂}
use axon_search.Base.Dict.{nat_key, contains}
use axon_search.Base.Text.{Text}
use axon_search.Indexer.Bm25.{Env, Meta, Index, get_or, tokenize, refresh}
use axon_search.Indexer.Bm25.Search.{Hit, rank, answer, search, is_deleted, get_metadata}
use axon_search.Indexer.Bm25.State.{IsValid, IsBuilt, refresh-IsBuilt, refresh-same}
use axon_search.Indexer.Bm25.Ranking.{Laws, IsLive, rank-IsLive, rank-length, rank_complete}

module _ (env : Env) (laws : Laws env) (query : Text) (top_k : ℕ) (positive_k : 0 < top_k) where
  open env use {floats, get_scores}
  open floats use {Float}

  -- The scores of all documents for the query.
  abbrev pub scores_of : Index env → List Float
  scores_of idx = get_scores idx.k1 idx.b idx.corpus (tokenize env query)

  -- There is nothing to answer from, or the answer is the ranking by those scores.
  abbrev Answered : Index env → List (Hit env) → Type 0
  Answered idx hits' =
      (hits' ≡ []) × ((idx.corpus ≡ []) ⊎ (tokenize env query ≡ []))
      ⊎ (hits' ≡ rank env idx (scores_of idx) top_k)

  answer-Answered :
      (idx : Index env)
      → IsBuilt env idx
      → Answered idx (answer env idx top_k idx.bm25 (tokenize env query))
  unfolding answer
  answer-Answered idx (inl (e, f)) =
      inl (ap (λ o. answer env idx top_k o (tokenize env query)) e, inl f)
  answer-Answered idx (inr e) =
      subst (λ o. Answered idx (answer env idx top_k o (tokenize env query))) (sym e)
        (go (tokenize env query) refl)
    where
      go :
          (ts : List Text)
          → tokenize env query ≡ ts
          → Answered idx (answer env idx top_k (some idx.corpus) (tokenize env query))
      go [] f = inl (ap (answer env idx top_k (some idx.corpus)) f, inr f)
      go (t ∷ ts) f = inr (
          ap (answer env idx top_k (some idx.corpus)) f
          ∙ ap (λ ws. rank env idx (get_scores idx.k1 idx.b idx.corpus ws) top_k) (sym f))

  search-Answered :
      (idx : Index env)
      → IsValid env idx
      → Answered (refresh env idx) (search env query top_k idx).0
  unfolding search
  search-Answered idx v = answer-Answered (refresh env idx) (refresh-IsBuilt env idx v)

  refresh-scores_of : (idx : Index env) → scores_of (refresh env idx) ≡ scores_of idx
  refresh-scores_of idx =
      let (c, m, d, k, b) = refresh-same env idx in
      λ i. get_scores (k i) (b i) (c i) (tokenize env query)

  IsLive-refresh :
      (idx : Index env) (scores : List Float) (hit : Hit env)
      → IsLive env (refresh env idx) scores hit
      → IsLive env idx scores hit
  unfolding is_deleted get_metadata
  IsLive-refresh idx scores hit l =
      let (c, m, d, k, b) = refresh-same env idx in
      record {
        alive = ap (contains hit.0) (sym d) ∙ l.alive;
        score_is = l.score_is;
        positive = l.positive;
        described = l.described ∙ ap (λ ms. get_or ms hit.0 []) m;
      }

  -- A search for a positive number of results returns at most so many, and each is a document that
  -- is not deleted, with its own score for the query, which is positive, and its own metadata.
  pub search-IsLive :
      (idx : Index env)
      → IsValid env idx
      → let results = (search env query top_k idx).0 in
        (length results ≤ top_k)
        × ((hit : Hit env) → In hit results → IsLive env idx (scores_of idx) hit)
  search-IsLive idx v = elim (search-Answered idx v) [
    | inl (e, _) ↦ (omega (arith, ap length e), λ hit i. absurd (rw e at i))
    | inr e ↦
        let idx' = refresh env idx in
        let scores = scores_of idx' in
        (
          omega (arith, ap length e, rank-length env laws idx' scores top_k positive_k),
          λ hit i. IsLive-refresh idx (scores_of idx) hit (
              subst (λ s. IsLive env idx' s hit) (refresh-scores_of idx)
                (rank-IsLive env laws idx' scores top_k positive_k hit (rw e at i))),
        )
  ]

  -- The search leaves nothing out that it has room for: where it returns fewer results than asked
  -- for, every document that is not deleted and scores above zero is among them, however many
  -- deleted documents rank higher.
  pub search_complete :
      (idx : Index env) (i : ℕ)
      → IsValid env idx
      → tokenize env query ≢ []
      → length (search env query top_k idx).0 < top_k
      → i < length idx.corpus
      → is_deleted env i idx ≡ false
      → floats.leb (get_or (scores_of idx) i floats.zero) floats.zero ≡ false
      → In
          (i, get_or (scores_of idx) i floats.zero, get_metadata env i idx)
          (search env query top_k idx).0
  unfolding is_deleted get_metadata
  search_complete idx i v asked short known alive good =
      let (c, m, d, k, b) = refresh-same env idx in
      let idx' = refresh env idx in
      let same = refresh-scores_of idx in
      let place = λ (s : List Float) (ms : List Meta).
        In {A = Hit env} (i, get_or s i floats.zero, get_or ms i [])
          (search env query top_k idx).0 in
      elim (search-Answered idx v) [
        | inl (_, inl none_there) ↦ absurd (omega (arith, ap length c, ap length none_there))
        | inl (_, inr no_tokens) ↦ absurd (asked no_tokens)
        | inr e ↦
            let known' : i < length (scores_of idx') =
              omega (
                arith,
                laws.one_each idx'.k1 idx'.b idx'.corpus (tokenize env query),
                ap length c,
              ) in
            subst₂ place same m (
              rw e (
                rank_complete env laws idx' (scores_of idx') top_k positive_k i
                  (omega (arith, short, ap length e)) known' (ap (contains i) d ∙ alive)
                  (ap (λ s. floats.leb (get_or s i floats.zero) floats.zero) same ∙ good)))
      ]
