-- ===== src/Indexer/Bm25/Search.antt =====
-- The reading and deleting methods of `BM25Index` (indexer/bm25.py).
use axon_search.Base.{
  ℕ, ◌+◌, ◌-◌, min, Bool, true, false, ◌&&◌, ◌||◌, Option, none, some, List, [], ◌∷◌, map, ltb, leb,
  ◌==◌, if◌then◌else◌, length, take, keep,
}
use axon_search.Base.Dict.{nat_key, lookup, contains}
use axon_search.Base.Text.{Text, str_key, lower, strip, starts_with, text_leb}
use axon_search.Base.Sort.{sort}
use axon_search.Indexer.Collect.{collect}
use axon_search.Indexer.Bm25.{Env, Meta, Index, get_or, tokenize, rebuild, refresh}

module _ (env : Env) where
  open env use {floats, stop_words, stem, get_scores, best}
  open floats use {Float}

  abbrev pub Hit : Type 0
  Hit = ℕ × Float × Meta

  -- `np.argpartition(scores, -k)[-k:]`, sorted: with `k = 0` the slice is the whole array.
  unfoldable pub partial_sort : List Float → ℕ → List ℕ
  partial_sort scores k = best scores (if k == 0 then length scores else k)

  -- The body of the loop over `idx`.
  unfoldable pub visit : Index env → List Float → ℕ → Option Hit
  visit idx scores i =
      let score = get_or scores i floats.zero in
      if contains i idx.deleted || floats.leb score floats.zero
      then none
      else some (i, score, get_or idx.metadata i [])

  unfoldable pub rank : Index env → List Float → ℕ → List Hit
  unfolding partial_sort visit
  rank idx scores top_k =
      let fetch_k = min (top_k + length idx.deleted) (length scores) in
      collect (visit idx scores) top_k [] (partial_sort scores fetch_k)

  -- `search` behind the rebuild, by the scorer and the tokens of the query.
  unfoldable pub answer : Index env → ℕ → Option (List (List Text)) → List Text → List Hit
  answer idx top_k none tokens = []
  answer idx top_k (some built) [] = []
  answer idx top_k (some built) (t ∷ ts) = rank idx (get_scores idx.k1 idx.b built (t ∷ ts)) top_k

  unfoldable pub search : Text → ℕ → Index env → List Hit × Index env
  search query top_k idx =
      let idx' = refresh env idx in (answer idx' top_k idx'.bm25 (tokenize env query), idx')

  unfoldable pub get_metadata : ℕ → Index env → Meta
  get_metadata doc_id idx = get_or idx.metadata doc_id []

  -- `__len__`
  unfoldable pub size : Index env → ℕ
  size idx = length idx.corpus - length idx.deleted

  unfoldable pub is_deleted : ℕ → Index env → Bool
  is_deleted doc_id idx = contains doc_id idx.deleted

  unfoldable pub deleted_count : Index env → ℕ
  deleted_count idx = length idx.deleted

  unfoldable pub delete : ℕ → Index env → Bool × Index env
  delete doc_id idx =
      if leb (length idx.corpus) doc_id || contains doc_id idx.deleted
      then (false, idx)
      else (true, record idx { deleted = doc_id ∷ idx.deleted })

  unfoldable pub url_to_doc_id : Text → Index env → Option ℕ
  url_to_doc_id url idx = lookup url idx.url_to_id

  unfoldable pub delete_by_url : Text → Index env → Bool × Index env
  unfolding delete
  delete_by_url url idx = elim (lookup url idx.url_to_id) [
    | none ↦ (false, idx)
    | some doc_id ↦ delete doc_id idx
  ]

  -- The order of `matches.sort(key=lambda pair: (-pair[1], pair[0]))`.
  unfoldable pub suggest_leb : Text × ℕ → Text × ℕ → Bool
  suggest_leb (w, n) (v, m) = ltb m n || (m == n && text_leb w v)

  unfoldable pub suggest : Text → ℕ → Index env → List Text
  unfolding suggest_leb
  suggest prefix limit idx =
      let p = lower (strip prefix) in
      elim p [
        | [] ↦ []
        | c ∷ cs ↦
            map (λ pair. pair.0)
              (take limit
                (sort suggest_leb (keep (λ pair. starts_with pair.0 (c ∷ cs)) idx.vocab_freq)))
      ]

  -- What `save` pickles.
  pub record Pickle : Type 0 where
    pub corpus : List (List Text)
    pub metadata : List Meta
    pub k1 : Float
    pub b : Float
    pub deleted : List ℕ
    pub url_to_id : List (Text × ℕ)
    pub vocab_freq : List (Text × ℕ)

module _ (env : Env) where
  unfoldable pub save : Index env → Pickle env × Index env
  save idx =
      let idx' = if idx.dirty then rebuild env idx else idx in
      (
        record {
          corpus = idx'.corpus;
          metadata = idx'.metadata;
          k1 = idx'.k1;
          b = idx'.b;
          deleted = idx'.deleted;
          url_to_id = idx'.url_to_id;
          vocab_freq = idx'.vocab_freq;
        },
        idx',
      )

  unfoldable pub load : Pickle env → Index env
  load p = record {
    k1 = p.k1;
    b = p.b;
    corpus = p.corpus;
    metadata = p.metadata;
    bm25 = none;
    dirty = true;
    deleted = p.deleted;
    url_to_id = p.url_to_id;
    vocab_freq = p.vocab_freq;
  }
