-- ===== src/Indexer/VectorStore.antt =====
-- indexer/vector_store.py: `VectorStore`. The FAISS index and numpy are a parameter; the constructor's
-- tuning values go to FAISS unread and are part of it.
pub mod Results
pub mod Samples
use axon_search.Base.{
  ℕ, ◌+◌, ◌*◌, min, Bool, true, false, not, ◌||◌, Option, none, some, List, [], ◌∷◌, ◌++◌, map, ltb,
  ◌==◌, if◌then◌else◌, length,
}
use axon_search.Base.Dict.{nat_key, contains}
use axon_search.Indexer.Collect.{collect}
use axon_search.Indexer.Bm25.{Meta, get_or}

pub data IndexType : Type 0 where
  flat : IndexType
  ivf : IndexType
  hnsw : IndexType

-- FAISS: an index made for a dimension, its size, `add` (`none` where it raises, as for an index that
-- has to be trained first), `train`, files, the move to a GPU, and a search
-- that gives a score and a row for each slot, `none` standing for the row -1 of an empty slot.
pub record Faiss (Float : Type 0) : Type 1 where
  pub Vector : Type 0
  pub Handle : Type 0
  pub as_float32 : Vector → Vector
  pub create : IndexType → ℕ → Handle
  pub ntotal : Handle → ℕ
  pub add : Handle → List Vector → Option Handle
  pub is_trained : Handle → Bool
  pub nlist : Handle → ℕ
  pub train : Handle → List Vector → Handle
  pub reconstruct : Handle → List Vector
  pub index_cpu_to_gpu : ℕ → Handle → Handle
  pub search : Handle → Vector → ℕ → List (Float × Option ℕ)
  pub File : Type 0
  pub write_index : Handle → File
  pub read_index : File → Handle

module _ {Float : Type 0} (faiss : Faiss Float) where
  open faiss use {Vector, Handle}

  pub record VectorStore : Type 0 where
    pub dim : ℕ
    pub index_type : IndexType
    pub index : Handle
    pub meta : List Meta
    pub doc_ids : List ℕ
    pub deleted : List ℕ

  abbrev pub Hit : Type 0
  Hit = ℕ × Float × Meta

module _ {Float : Type 0} (faiss : Faiss Float) where
  open faiss use {Vector, Handle}

  unfoldable pub init : ℕ → IndexType → VectorStore faiss
  init dim index_type = record {
    dim = dim;
    index_type = index_type;
    index = faiss.create index_type dim;
    meta = [];
    doc_ids = [];
    deleted = [];
  }

  unfoldable pub collect_vectors : VectorStore faiss → Option (List Vector)
  collect_vectors s = if faiss.ntotal s.index == 0 then none else some (faiss.reconstruct s.index)

  -- The vectors that `_maybe_train` trains on.
  unfoldable pub training_set : List Vector → VectorStore faiss → List Vector
  unfolding collect_vectors
  training_set vecs s = elim (collect_vectors s) [ none ↦ vecs | some old ↦ old ++ vecs ]

  unfoldable pub train_ivf : List Vector → VectorStore faiss → VectorStore faiss
  train_ivf vecs s =
      if faiss.is_trained s.index
        || ltb (faiss.ntotal s.index + length vecs) (faiss.nlist s.index * 10)
      then s
      else record s { index = faiss.train s.index (training_set vecs s) }

  unfoldable pub maybe_train : List Vector → VectorStore faiss → VectorStore faiss
  maybe_train vecs s = elim s.index_type [ flat ↦ s | ivf ↦ train_ivf vecs s | hnsw ↦ s ]

  -- `metadata or {}`
  abbrev pub or_empty : Option Meta → Meta
  or_empty none = []
  or_empty (some m) = m

  -- `self._index.add`, and what follows it where it does not raise; whether it does.
  unfoldable pub add_rows :
      List Vector → List ℕ → List Meta → VectorStore faiss → Bool × VectorStore faiss
  add_rows vecs doc_ids metas s = elim (faiss.add s.index vecs) [
    | none ↦ (true, s)
    | some index ↦
        (false, record s { index = index; doc_ids = s.doc_ids ++ doc_ids; meta = s.meta ++ metas })
  ]

  -- Whether it raises, and the store.
  unfoldable pub add : ℕ → Vector → Option Meta → VectorStore faiss → Bool × VectorStore faiss
  unfolding maybe_train add_rows
  add doc_id vector metadata s =
      let vec = faiss.as_float32 vector ∷ [] in
      add_rows vec (doc_id ∷ []) (or_empty metadata ∷ []) (maybe_train vec s)

  -- `metadata or [{}] * len(doc_ids)`
  abbrev pub metas_for : List ℕ → Option (List Meta) → List Meta
  metas_for doc_ids (some (m ∷ ms)) = m ∷ ms
  metas_for doc_ids _ = map (λ _. []) doc_ids

  unfoldable pub add_batch :
      List ℕ → List Vector → Option (List Meta) → VectorStore faiss → Bool × VectorStore faiss
  unfolding maybe_train add_rows
  add_batch doc_ids vectors metadata s =
      let vecs = map faiss.as_float32 vectors in
      add_rows vecs doc_ids (metas_for doc_ids metadata) (maybe_train vecs s)

  -- `__len__`
  unfoldable pub size : VectorStore faiss → ℕ
  size s = faiss.ntotal s.index

  -- The body of the loop over the slots. A row that FAISS gives is one of the store's.
  unfoldable pub visit : VectorStore faiss → Float × Option ℕ → Option (Hit faiss)
  visit s (score, none) = none
  visit s (score, some row) =
      let doc_id = get_or s.doc_ids row 0 in
      if contains doc_id s.deleted then none else some (doc_id, score, get_or s.meta row [])

  unfoldable pub search : Vector → ℕ → VectorStore faiss → List (Hit faiss)
  search query_vec top_k s =
      let k = min (top_k + length s.deleted) (faiss.ntotal s.index) in
      let found =
        collect (visit s) top_k [] (faiss.search s.index (faiss.as_float32 query_vec) k) in
      if faiss.ntotal s.index == 0 then [] else found

  unfoldable pub delete : ℕ → VectorStore faiss → Bool × VectorStore faiss
  delete doc_id s =
      if not (contains doc_id s.doc_ids) || contains doc_id s.deleted
      then (false, s)
      else (true, record s { deleted = doc_id ∷ s.deleted })

  unfoldable pub is_deleted : ℕ → VectorStore faiss → Bool
  is_deleted doc_id s = contains doc_id s.deleted

  unfoldable pub deleted_count : VectorStore faiss → ℕ
  deleted_count s = length s.deleted

  unfoldable pub to_gpu : ℕ → VectorStore faiss → VectorStore faiss
  to_gpu gpu_id s = record s { index = faiss.index_cpu_to_gpu gpu_id s.index }

  -- What `save` writes: the FAISS index, and the pickled lists.
  abbrev pub Saved : Type 0
  Saved = faiss.File × List ℕ × List Meta × List ℕ

  unfoldable pub save : VectorStore faiss → Saved
  save s = (faiss.write_index s.index, s.doc_ids, s.meta, s.deleted)

  unfoldable pub load : Saved → ℕ → IndexType → VectorStore faiss
  load (file, doc_ids, meta, deleted) dim index_type = record (init dim index_type) {
    index = faiss.read_index file;
    doc_ids = doc_ids;
    meta = meta;
    deleted = deleted;
  }
