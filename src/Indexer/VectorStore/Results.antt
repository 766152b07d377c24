-- ===== src/Indexer/VectorStore/Results.antt =====
-- The invariant of `VectorStore`, and what its search returns (indexer/vector_store.py).
use native.Mathlib.Decide.{ℕ_discrete}
use mathlib.Core.Option.{none-ne-some, some-injective}
use axon_search.Base.{
  ℕ, zero, suc, get_elem?, if_pos, ◌+◌, ◌≤◌, ◌<◌, ◌≡◌, refl, sym, ap, ◌∙◌, ◌⊎◌, inl, inr, min, true,
  false, Option, none, some, List, [], ◌∷◌, map, arith, ◌==◌, length, In, Bool-cases,
  length-take-le, length-append, length-map, Option-cases, ◌++◌,
}
use mathlib.Core.Path.{subst}
use mathlib.Core.List.{cons≢nil}
use axon_search.Base.Dict.{nat_key, contains}
use axon_search.Base.Top.{In-take}
use axon_search.Indexer.Collect.{hits, collect_lem, In-hits, IsNodup}
use axon_search.Indexer.Bm25.State.{absent-All}
use axon_search.Indexer.Bm25.{Meta, get_or}
use axon_search.Indexer.VectorStore.{
  IndexType, Faiss, VectorStore, Hit, init, training_set, train_ivf, maybe_train, metas_for,
  or_empty, add, add_batch, size, visit, search, delete, is_deleted, deleted_count, add_rows,
}

-- FAISS as documented: an empty index, one row for each vector added, which a trained index takes
-- and stays trained, files that give back the index, no row changed by training, and searches that
-- give rows of the index only.
pub record Laws {Float : Type 0} (faiss : Faiss Float) : Type 0 where
  pub ntotal-create : (t : IndexType) (dim : ℕ) → faiss.ntotal (faiss.create t dim) ≡ 0
  pub ntotal-add :
      (h h' : faiss.Handle) (vs : List faiss.Vector)
      → faiss.add h vs ≡ some h'
      → faiss.ntotal h' ≡ faiss.ntotal h + length vs
  pub add-trained :
      (h : faiss.Handle) (vs : List faiss.Vector)
      → faiss.is_trained h ≡ true
      → (h' : faiss.Handle) × (faiss.add h vs ≡ some h') × (faiss.is_trained h' ≡ true)
  pub read_index-write_index : (h : faiss.Handle) → faiss.read_index (faiss.write_index h) ≡ h
  pub ntotal-train :
      (h : faiss.Handle) (vs : List faiss.Vector) → faiss.ntotal (faiss.train h vs) ≡ faiss.ntotal h
  pub rows_known :
      (h : faiss.Handle) (q : faiss.Vector) (k : ℕ) (score : Float) (row : ℕ)
      → In (score, some row) (faiss.search h q k)
      → row < faiss.ntotal h

module _ {Float : Type 0} (faiss : Faiss Float) (laws : Laws faiss) where
  -- A row, a document number and a description for each vector; no document deleted twice.
  pub record IsValid (s : VectorStore faiss) : Type 0 where
    pub numbered : length s.doc_ids ≡ faiss.ntotal s.index
    pub described : length s.meta ≡ faiss.ntotal s.index
    pub dead_once : IsNodup s.deleted

  pub init-IsValid : (dim : ℕ) (t : IndexType) → IsValid (init faiss dim t)
  unfolding init
  init-IsValid dim t = record {
    numbered = sym (laws.ntotal-create t dim);
    described = sym (laws.ntotal-create t dim);
    dead_once = tt;
  }

  -- Training keeps all but the FAISS index, and that index keeps its size.
  maybe_train_lem :
      (vecs : List faiss.Vector) (s : VectorStore faiss)
      → let s' = maybe_train faiss vecs s in
        (s'.doc_ids ≡ s.doc_ids)
        × (s'.meta ≡ s.meta)
        × (s'.deleted ≡ s.deleted)
        × (faiss.ntotal s'.index ≡ faiss.ntotal s.index)
  unfolding maybe_train train_ivf
  maybe_train_lem vecs s = ground (arith, laws.ntotal-train s.index (training_set faiss vecs s))

  length-metas_for :
      (ids : List ℕ) (metas : Option (List Meta))
      → ((ms : List Meta) → metas ≡ some ms → (ms ≡ []) ⊎ (length ms ≡ length ids))
      → length (metas_for faiss ids metas) ≡ length ids
  length-metas_for ids none h = length-map (λ _. []) ids
  length-metas_for ids (some []) h = length-map (λ _. []) ids
  length-metas_for ids (some (m ∷ ms)) h = elim (h (m ∷ ms) refl) [
    | inl e ↦ absurd (cons≢nil e)
    | inr e ↦ e
  ]

  add_rows-IsValid :
      (vecs : List faiss.Vector) (ids : List ℕ) (metas : List Meta) (s : VectorStore faiss)
      → length ids ≡ length vecs
      → length metas ≡ length vecs
      → IsValid s
      → IsValid (add_rows faiss vecs ids metas s).1
  unfolding add_rows
  add_rows-IsValid vecs ids metas s same described valid =
      elim (Option-cases (faiss.add s.index vecs)) [
        | inl refused ↦ rw (refused, add_rows) valid
        | inr (index, e) ↦
            let grown = laws.ntotal-add s.index index vecs e in
            rw (e, add_rows)
              (record {
                numbered =
                    omega (arith, grown, length-append {0} s.doc_ids ids, same, valid.numbered);
                described =
                    omega
                      (arith, grown, length-append {0} s.meta metas, described, valid.described);
                dead_once = valid.dead_once;
              })
      ]

  maybe_train-IsValid :
      (vecs : List faiss.Vector) (s : VectorStore faiss)
      → IsValid s
      → IsValid (maybe_train faiss vecs s)
  maybe_train-IsValid vecs s valid =
      let (d, m, x, n) = maybe_train_lem vecs s in
      record {
        numbered = omega (arith, ap length d, n, valid.numbered);
        described = omega (arith, ap length m, n, valid.described);
        dead_once = subst IsNodup (sym x) valid.dead_once;
      }

  pub add-IsValid :
      (doc_id : ℕ) (v : faiss.Vector) (metadata : Option Meta) (s : VectorStore faiss)
      → IsValid s
      → IsValid (add faiss doc_id v metadata s).1
  unfolding add
  add-IsValid doc_id v metadata s valid =
      let vec = faiss.as_float32 v ∷ [] in
      add_rows-IsValid vec (doc_id ∷ []) (or_empty faiss metadata ∷ []) (maybe_train faiss vec s)
        refl refl (maybe_train-IsValid vec s valid)

  -- A trained store is not trained again.
  pub maybe_train-trained :
      (vecs : List faiss.Vector) (s : VectorStore faiss)
      → faiss.is_trained s.index ≡ true
      → maybe_train faiss vecs s ≡ s
  unfolding maybe_train train_ivf
  maybe_train-trained vecs s trained = ground (arith, trained)

  add_rows-some :
      (vecs : List faiss.Vector) (ids : List ℕ) (metas : List Meta) (s : VectorStore faiss)
      (h : faiss.Handle)
      → faiss.add s.index vecs ≡ some h
      → add_rows faiss vecs ids metas s
        ≡ (false, record s { index = h; doc_ids = s.doc_ids ++ ids; meta = s.meta ++ metas })
  unfolding add_rows
  add_rows-some vecs ids metas s h e = rw (e, add_rows) refl

  -- A trained store takes a vector, and stays trained.
  pub add_trained :
      (doc_id : ℕ) (v : faiss.Vector) (metadata : Option Meta) (s : VectorStore faiss)
      → faiss.is_trained s.index ≡ true
      → (h : faiss.Handle) × (add faiss doc_id v metadata s ≡ (
        false,
        record s {
          index = h;
          doc_ids = s.doc_ids ++ doc_id ∷ [];
          meta = s.meta ++ or_empty faiss metadata ∷ [];
        },
      ))
        × (faiss.is_trained h ≡ true)
  unfolding add
  add_trained doc_id v metadata s trained =
      let vec = faiss.as_float32 v ∷ [] in
      let (h, e, t) = laws.add-trained s.index vec trained in
      (
        h,
        ap (add_rows faiss vec (doc_id ∷ []) (or_empty faiss metadata ∷ []))
              (maybe_train-trained vec s trained)
            ∙ add_rows-some vec (doc_id ∷ []) (or_empty faiss metadata ∷ []) s h e,
        t,
      )

  -- A batch needs as many document numbers as vectors, and as many descriptions or none at all.
  add_batch-IsValid :
      (ids : List ℕ) (vectors : List faiss.Vector) (metas : Option (List Meta))
      (s : VectorStore faiss)
      → length ids ≡ length vectors
      → ((ms : List Meta) → metas ≡ some ms → (ms ≡ []) ⊎ (length ms ≡ length ids))
      → IsValid s
      → IsValid (add_batch faiss ids vectors metas s).1
  unfolding add_batch
  add_batch-IsValid ids vectors metas s same h valid =
      let vecs = map faiss.as_float32 vectors in
      let n = length-map faiss.as_float32 vectors in
      add_rows-IsValid vecs ids (metas_for faiss ids metas) (maybe_train faiss vecs s)
        (omega (arith, same, n)) (omega (arith, same, n, length-metas_for ids metas h))
        (maybe_train-IsValid vecs s valid)

  -- `delete` answers true exactly for a document that is in the store and not deleted yet, and then
  -- this document alone becomes deleted; otherwise nothing changes. The store stays well-formed.
  pub delete-IsValid :
      (d : ℕ) (s : VectorStore faiss)
      → IsValid s
      → let (done, s') = delete faiss d s in
        IsValid s'
        × (((done ≡ true)
              × (contains d s.doc_ids ≡ true)
              × (is_deleted faiss d s ≡ false)
              × (is_deleted faiss d s' ≡ true)
              × (deleted_count faiss s' ≡ suc (deleted_count faiss s)))
            ⊎ ((done ≡ false)
                × (s' ≡ s)
                × ((contains d s.doc_ids ≡ false) ⊎ (is_deleted faiss d s ≡ true))))
  unfolding delete is_deleted deleted_count contains
  delete-IsValid d s v = elim (Bool-cases (contains d s.doc_ids)) [
    | inr out ↦ rw out (v, inr (refl, refl, inl refl))
    | inl known ↦ elim (Bool-cases (contains d s.deleted)) [
      | inl gone ↦ rw (known, gone) (v, inr (refl, refl, inr refl))
      | inr there ↦
          rw (known, there)
            (
              record {
                numbered = v.numbered;
                described = v.described;
                dead_once = (absent-All d s.deleted there, v.dead_once);
              },
              inl (
                refl,
                refl,
                refl,
                if_pos (ℕ_discrete d d) refl true (contains d s.deleted),
                refl,
              ),
            )
    ]
  ]

  -- A result stands in a row of the store: it has the number and the description of that row, and
  -- the document is not deleted.
  pub record IsStored (s : VectorStore faiss) (hit : Hit faiss) : Type 0 where
    pub row : ℕ
    pub row_known : row < size faiss s
    pub number_is : get_elem? s.doc_ids row ≡ some hit.0
    pub described_is : get_elem? s.meta row ≡ some hit.2
    pub alive : is_deleted faiss hit.0 s ≡ false

  get_or_elem :
      {A : Type 0} (xs : List A) (i : ℕ) (d : A)
      → i < length xs
      → get_elem? xs i ≡ some (get_or xs i d)
  get_or_elem [] i d h = absurd (omega arith)
  get_or_elem (x ∷ xs) zero d h = refl
  get_or_elem (x ∷ xs) (suc i) d h = get_or_elem xs i d (omega arith)

  visit-IsStored :
      (s : VectorStore faiss) (q : faiss.Vector) (k : ℕ) (slot : Float × Option ℕ) (hit : Hit faiss)
      → IsValid s
      → In slot (faiss.search s.index q k)
      → visit faiss s slot ≡ some hit
      → IsStored s hit
  unfolding visit size is_deleted
  visit-IsStored s q k (score, none) hit v i e = absurd (none-ne-some _ e)
  visit-IsStored s q k (score, some row) hit v i e =
      let known = laws.rows_known s.index q k score row i in
      let number = get_or_elem s.doc_ids row 0 (omega (arith, v.numbered)) in
      let told = get_or_elem s.meta row [] (omega (arith, v.described)) in
      elim (Bool-cases (contains (get_or s.doc_ids row 0) s.deleted)) [
        | inl gone ↦ absurd (none-ne-some _ (rw gone at e))
        | inr there ↦
            let p : (get_or s.doc_ids row 0, score, get_or s.meta row []) ≡ hit =
              some-injective _ _ (rw there at e) in
            record {
              row = row;
              row_known = known;
              number_is = number ∙ ap (λ (h : Hit faiss). some h.0) p;
              described_is = told ∙ ap (λ (h : Hit faiss). some h.2) p;
              alive = ap (λ (h : Hit faiss). contains h.0 s.deleted) (sym p) ∙ there;
            }
      ]

  -- A search for a positive number of results returns at most so many, and each of them is a live
  -- document of the store with its own description.
  pub search-IsStored :
      (q : faiss.Vector) (top_k : ℕ) (s : VectorStore faiss)
      → 0 < top_k
      → IsValid s
      → (length (search faiss q top_k s) ≤ top_k)
        × ((hit : Hit faiss) → In hit (search faiss q top_k s) → IsStored s hit)
  unfolding search
  search-IsStored q top_k s pos v =
      let k = min (top_k + length s.deleted) (faiss.ntotal s.index) in
      let slots = faiss.search s.index (faiss.as_float32 q) k in
      let found = collect_lem (visit faiss s) top_k slots pos in
      elim (Bool-cases (faiss.ntotal s.index == 0)) [
        | inl blank ↦ rw blank (omega arith, λ hit i. absurd i)
        | inr some_there ↦
            rw (some_there, found)
              (
                length-take-le top_k (hits (visit faiss s) slots),
                λ hit i.
                    let (slot, at, e) = In-hits (visit faiss s) hit slots (In-take hit top_k _ i) in
                    visit-IsStored s (faiss.as_float32 q) k slot hit v at e,
              )
      ]
