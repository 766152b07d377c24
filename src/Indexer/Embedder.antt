-- ===== src/Indexer/Embedder.antt =====
-- indexer/embedder.py: `Embedder`. The model and the digest are parameters. A matrix is given by its
-- rows; the model gives a row for each text.
pub mod Cached
mod Tests
use axon_search.Base.{
  ℕ, Bool, true, false, Option, none, some, List, [], ◌∷◌, ◌++◌, map, leb, if◌then◌else◌, length,
}
use axon_search.Base.Dict.{lookup, insert}
use axon_search.Base.Text.{Text, codes, str_key}

-- `SentenceTransformer.encode`, `hashlib.md5`, `np.dot`.
pub record Model (Vector Float : Type 0) : Type 0 where
  pub encode_rows : List Text → ℕ → Vector
  pub digest : Text → Text
  pub dot : Vector → Vector → Float

abbrev pub query_prefix : Text
query_prefix = codes "Represent this sentence for searching relevant passages: "

abbrev pub passage_prefix : Text
passage_prefix = []

-- The size of the cache of queries, and the cache, empty where there is none yet.
pub record Embedder (Vector : Type 0) : Type 0 where
  pub cache_size : ℕ
  pub query_cache : List (Text × Vector)

abbrev pub drop_first {ℓ} : {A : Type ℓ} → List A → List A
drop_first [] = []
drop_first (x ∷ xs) = xs

module _ {Vector Float : Type 0} (model : Model Vector Float) where
  unfoldable pub init : ℕ → Embedder Vector
  init cache_size = record { cache_size = cache_size; query_cache = [] }

  abbrev pub prefix_of : Bool → Text
  prefix_of is_query = if is_query then query_prefix else passage_prefix

  -- `encode` of a list of texts, and of a single one.
  unfoldable pub encode : Bool → List Text → ℕ → Vector
  encode is_query texts = model.encode_rows (map (λ t. prefix_of is_query ++ t) texts)

  unfoldable pub encode_one : Bool → Text → Vector
  unfolding encode
  encode_one is_query text = encode is_query (text ∷ []) 0

  unfoldable pub encode_passages : List Text → ℕ → Vector
  unfolding encode
  encode_passages texts = encode false texts

  -- The cache with a new entry, the oldest one evicted where it is full.
  unfoldable pub store_query : Text → Vector → Embedder Vector → Embedder Vector
  store_query key vec e =
      let full = leb e.cache_size (length e.query_cache) in
      let kept = if full then drop_first e.query_cache else e.query_cache in
      record e { query_cache = insert key vec kept }

  -- `_cached_query`
  unfoldable pub encode_query : Text → Embedder Vector → Vector × Embedder Vector
  unfolding encode_one store_query
  encode_query query e =
      let key = model.digest query in
      let vec = encode_one true query in
      let cached : Vector × Embedder Vector = elim (lookup key e.query_cache) [
        | none ↦ (vec, store_query key vec e)
        | some found ↦ (found, e)
      ] in
      if leb e.cache_size 0 then (vec, e) else cached

  unfoldable pub cosine_similarity : Vector → Vector → Float
  cosine_similarity a b = model.dot a b

  -- The entries for the rows of a matrix.
  unfoldable pub batch_cosine_similarity : Vector → List Vector → List Float
  batch_cosine_similarity query matrix = map (λ row. model.dot row query) matrix

  -- The vectors of queries that follow each other.
  unfoldable pub encode_queries : List Text → Embedder Vector → List Vector × Embedder Vector
  unfolding encode_query
  encode_queries [] e = ([], e)
  encode_queries (query ∷ queries) e =
      let (vec, e') = encode_query query e in
      let (vecs, e'') = encode_queries queries e' in (vec ∷ vecs, e'')
