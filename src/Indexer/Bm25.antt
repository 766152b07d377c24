-- ===== src/Indexer/Bm25.antt =====
-- indexer/bm25.py: `BM25Index`. What the class takes from nltk, rank_bm25 and numpy is a
-- parameter. Metadata is a dictionary of texts. A set is a list without repetition.
pub mod Search
pub mod State
pub mod Ranking
pub mod Results
pub mod Deletion
pub mod Suggest
pub mod Persistence
mod Tests
use axon_search.Base.{
  ℕ, zero, suc, ◌+◌, min, Bool, true, false, not, ◌&&◌, ◌||◌, Option, none, some, List, [], ◌∷◌,
  ◌++◌, map, ltb, leb, ◌==◌, if◌then◌else◌, length, get_elem?, take, keep,
}
use axon_search.Base.Dict.{nat_key, lookup, insert, contains}
use axon_search.Base.Text.{
  Text, codes, Text-discrete, str_key, lower, split, strip, collapse, remove_punct, starts_with,
  text_leb,
}
use axon_search.Base.Counter.{add_to}
use axon_search.Base.Sort.{sort}
use axon_search.Base.Floats.{Floats}
use axon_search.Indexer.Collect.{collect}

abbrev pub Meta : Type 0
Meta = List (Text × Text)

-- nltk's stop words and stemmer, `BM25Okapi(corpus, k1, b).get_scores(tokens)`, and the `k` best
-- positions of an array, best first, as numpy's `argpartition` and `argsort` give them.
pub record Env : Type 1 where
  pub floats : Floats
  pub stop_words : List Text
  pub stem : Text → Text
  pub get_scores : floats.Float → floats.Float → List (List Text) → List Text → List floats.Float
  pub best : List floats.Float → ℕ → List ℕ

abbrev pub get_or {ℓ} : {A : Type ℓ} → List A → ℕ → A → A
get_or xs i d = elim (get_elem? xs i) [ none ↦ d | some x ↦ x ]

module _ (env : Env) where
  open env use {floats, stop_words, stem, get_scores, best}
  open floats use {Float}

  pub record Index : Type 0 where
    pub k1 : Float
    pub b : Float
    pub corpus : List (List Text)
    pub metadata : List Meta
    -- The scorer, by the corpus that it was built from.
    pub bm25 : Option (List (List Text))
    pub dirty : Bool
    pub deleted : List ℕ
    pub url_to_id : List (Text × ℕ)
    pub vocab_freq : List (Text × ℕ)

module _ (env : Env) where
  open env use {floats, stop_words, stem, get_scores, best}
  open floats use {Float}

  unfoldable pub init : Float → Float → Index env
  init k1 b = record {
    k1 = k1;
    b = b;
    corpus = [];
    metadata = [];
    bm25 = none;
    dirty = false;
    deleted = [];
    url_to_id = [];
    vocab_freq = [];
  }

  -- The words of `_tokenize` and of `_update_vocab`, before the stemmer.
  unfoldable pub words : Text → List Text
  words text =
      keep (λ w. not (contains w stop_words) && ltb 1 (length w))
        (split (collapse (remove_punct (lower text))))

  unfoldable pub tokenize : Text → List Text
  tokenize text = map stem (words text)

  unfoldable pub count_words : List Text → List (Text × ℕ) → List (Text × ℕ)
  count_words [] freq = freq
  count_words (w ∷ ws) freq = count_words ws (add_to Text-discrete w 1 freq)

  unfoldable pub update_vocab : Text → Index env → Index env
  update_vocab text idx = record idx { vocab_freq = count_words (words text) idx.vocab_freq }

  -- `if url: self._url_to_id[url] = doc_id`, for `url = meta.get("url")`.
  unfoldable pub add_url : Option Text → ℕ → List (Text × ℕ) → List (Text × ℕ)
  add_url (some (c ∷ cs)) doc_id urls = insert (c ∷ cs) doc_id urls
  add_url _ doc_id urls = urls

  unfoldable pub add : Text → Meta → Index env → ℕ × Index env
  unfolding update_vocab
  add text meta idx =
      let doc_id = length idx.corpus in
      (
        doc_id,
        update_vocab text (record idx {
          corpus = idx.corpus ++ tokenize text ∷ [];
          metadata = idx.metadata ++ meta ∷ [];
          dirty = true;
          url_to_id = add_url (lookup (codes "url") meta) doc_id idx.url_to_id;
        }),
      )

  -- The loop of `add_batch` over `zip(texts, meta)`.
  unfoldable pub add_each : List Text → List Meta → Index env → List ℕ × Index env
  add_each (text ∷ texts) (meta ∷ metas) idx =
      let (doc_id, idx') = add text meta idx in
      let (ids, idx'') = add_each texts metas idx' in (doc_id ∷ ids, idx'')
  add_each _ _ idx = ([], idx)

  unfoldable pub add_batch : List Text → Option (List Meta) → Index env → List ℕ × Index env
  unfolding add_each
  add_batch texts (some (m ∷ ms)) idx = add_each texts (m ∷ ms) idx
  add_batch texts _ idx = add_each texts (map (λ _. []) texts) idx

  unfoldable pub rebuild : Index env → Index env
  rebuild idx = elim idx.corpus [
    | [] ↦ idx
    | d ∷ ds ↦ record idx { bm25 = some idx.corpus; dirty = false }
  ]

  -- `if self._dirty or self._bm25 is None: self._rebuild()`
  unfoldable pub refresh : Index env → Index env
  refresh idx = elim idx.bm25 [
    | none ↦ rebuild idx
    | some built ↦ if idx.dirty then rebuild idx else idx
  ]
