-- ===== src/Api/Server/Sound.antt =====
-- The two indexes under all that the server does (api/server.py and its routes).
use mathlib.Core.Path.{subst}
use axon_search.Base.{
  ℕ, zero, suc, ◌≡◌, ◌<◌, ◌≢◌, sym, ap, ◌∙◌, ◌⊎◌, inl, inr, true, List, [], ◌∷◌, ◌++◌, map, arith,
  length, All, some, false, Bool-cases,
}
use native.Mathlib.Decide.{ℕ_discrete}
use axon_search.Base.Dict.{nat_key, contains}
use axon_search.Base.Text.{Text}
use axon_search.Config.{Settings}
use axon_search.Indexer.Bm25.{Index, refresh, add}
use axon_search.Indexer.Bm25.Search
use axon_search.Indexer.Bm25.State
use axon_search.Indexer.Bm25.State.{refresh-IsValid, refresh-same}
use axon_search.Indexer.Bm25.Ranking
use axon_search.Indexer.VectorStore
use axon_search.Indexer.VectorStore.{Faiss, VectorStore, maybe_train, train_ivf, add_rows}
use axon_search.Indexer.VectorStore.Results
use axon_search.Indexer.Batching.{Parts, Page, Indexes, index_page, is_raised}
use axon_search.Indexer.Pipeline.Aligned.{
  AreAligned, upto, url_of, described, stored, index_page_trained, index_page_raised,
  indexed_in-AreAligned,
}
use axon_search.Search.QueryProcessor.{ProcessedQuery, for_retrieval}
use axon_search.Search.Retrieval.Live.{retrieve-deleted}
use axon_search.Api.IndexRoutes.Deleting.{delete_url-both, IsBlank}
use axon_search.Api.SearchRoute.{SearchRequest, candidates_for, filters_of}
use axon_search.Api.Server.{Libraries, services_of, parts_of, State}
use axon_search.Api.Server.Loop.{Call, delete, search_state, Response, step, run}
use axon_search.Api.Server.Keeping.{Keeps, run-keep}

module _ (parts : Parts) (laws : Results.Laws parts.faiss) where
  open parts use {env, faiss}

  -- Both indexes are well-formed, row i of the vector store is document i of the BM25 index, and the
  -- FAISS index needs no more training.
  pub record IsSound (idx : Index env) (store : VectorStore faiss) : Type 0 where
    pub valid : State.IsValid env idx
    pub stored : Results.IsValid faiss laws store
    pub aligned :
        AreAligned parts (record { bm25 = idx; vector_store = store; indexed = 0; lost = 0 })
    pub trained : faiss.is_trained store.index ≡ true

  index_page-stored :
      (page : Page parts) (v : faiss.Vector) (x : Indexes parts)
      → Results.IsValid faiss laws x.vector_store
      → Results.IsValid faiss laws (index_page parts page v x).vector_store
  unfolding index_page
  index_page-stored page v x h =
      let doc_id = (add env page.text (described parts page) x.bm25).0 in
      let added =
        Results.add-IsValid faiss laws doc_id v (some (stored parts page)) x.vector_store h in
      elim (Bool-cases (is_raised parts x)) [
        | inl raised ↦ rw raised h
        | inr fine ↦
            elim (Bool-cases
              (VectorStore.add faiss doc_id v (some (stored parts page)) x.vector_store).0) [
                | inl refused ↦ rw (fine, refused) added
                | inr taken ↦ rw (fine, taken) added
              ]
      ]

  indexed_in-IsSound :
      (page : Page parts) (v : faiss.Vector) (x : Indexes parts)
      → IsSound x.bm25 x.vector_store
      → is_raised parts x ≡ false
      → let y = index_page parts page v x in IsSound y.bm25 y.vector_store
  indexed_in-IsSound page v x h fine =
      let (handle, e, t) = index_page_trained parts laws page v x h.trained fine in
      let a =
        indexed_in-AreAligned parts handle page x
          (record { numbered = h.aligned.numbered; same_urls = h.aligned.same_urls }) in
      let kept = index_page-stored page v x h.stored in
      subst (λ y. Results.IsValid faiss laws y.vector_store → IsSound y.bm25 y.vector_store) (sym e)
        (λ stored. record {
          valid = State.add-IsValid env page.text (described parts page) x.bm25 h.valid;
          stored = stored;
          aligned = record { numbered = a.numbered; same_urls = a.same_urls };
          trained = t;
        })
        kept

  index_page-IsSound :
      (page : Page parts) (v : faiss.Vector) (x : Indexes parts)
      → IsSound x.bm25 x.vector_store
      → let y = index_page parts page v x in IsSound y.bm25 y.vector_store
  index_page-IsSound page v x h = elim (Bool-cases (is_raised parts x)) [
    | inl raised ↦
        subst (λ y. IsSound y.bm25 y.vector_store) (sym (index_page_raised parts page v x raised)) h
    | inr fine ↦ indexed_in-IsSound page v x h fine
  ]

  refresh-IsSound :
      (idx : Index env) (store : VectorStore faiss)
      → IsSound idx store
      → IsSound (refresh env idx) store
  refresh-IsSound idx store h =
      let (corpus, metadata, _, _, _) = refresh-same env idx in
      record {
        valid = refresh-IsValid env idx h.valid;
        stored = h.stored;
        aligned = record {
          numbered = h.aligned.numbered ∙ sym (ap (λ c. upto (length c)) corpus);
          same_urls = h.aligned.same_urls ∙ sym (ap (map url_of) metadata);
        };
        trained = h.trained;
      }

  bm25_delete-same :
      (d : ℕ) (idx : Index env)
      → let idx' = (Search.delete env d idx).1 in
        (idx'.corpus ≡ idx.corpus) × (idx'.metadata ≡ idx.metadata)
  unfolding Search.delete
  bm25_delete-same d idx = ground arith

  store_delete-same :
      (d : ℕ) (store : VectorStore faiss)
      → let store' = (VectorStore.delete faiss d store).1 in
        (store'.doc_ids ≡ store.doc_ids) × (store'.meta ≡ store.meta) × (store'.index ≡ store.index)
  unfolding VectorStore.delete
  store_delete-same d store = ground arith

  delete-IsSound :
      (d : ℕ) (idx : Index env) (store : VectorStore faiss)
      → IsSound idx store
      → IsSound (Search.delete env d idx).1 (VectorStore.delete faiss d store).1
  delete-IsSound d idx store h =
      let (corpus, metadata) = bm25_delete-same d idx in
      let (doc_ids, meta, index) = store_delete-same d store in
      record {
        valid = State.delete-IsValid env d idx h.valid;
        stored = (Results.delete-IsValid faiss laws d store h.stored).0;
        aligned = record {
          numbered = doc_ids ∙ h.aligned.numbered ∙ sym (ap (λ c. upto (length c)) corpus);
          same_urls = ap (map url_of) meta ∙ h.aligned.same_urls ∙ sym (ap (map url_of) metadata);
        };
        trained = ap faiss.is_trained index ∙ h.trained;
      }

  -- A document that both indexes count as deleted.
  abbrev pub IsGone : ℕ → Index env → VectorStore faiss → Type 0
  IsGone d idx store =
      (Search.is_deleted env d idx ≡ true) × (VectorStore.is_deleted faiss d store ≡ true)

  maybe_train-deleted :
      (vecs : List faiss.Vector) (s : VectorStore faiss)
      → (maybe_train faiss vecs s).deleted ≡ s.deleted
  unfolding maybe_train train_ivf
  maybe_train-deleted vecs s = ground arith

  index_page-IsGone :
      (d : ℕ) (page : Page parts) (v : faiss.Vector) (x : Indexes parts)
      → IsGone d x.bm25 x.vector_store
      → let y = index_page parts page v x in IsGone d y.bm25 y.vector_store
  unfolding index_page add VectorStore.add add_rows Search.is_deleted VectorStore.is_deleted
  index_page-IsGone d page v x (sparse, dense) =
      let same = maybe_train-deleted (faiss.as_float32 v ∷ []) x.vector_store in
      ground (arith, sparse, ap (contains d) same ∙ dense)

  refresh-IsGone :
      (d : ℕ) (idx : Index env) (store : VectorStore faiss)
      → IsGone d idx store
      → IsGone d (refresh env idx) store
  unfolding Search.is_deleted
  refresh-IsGone d idx store (sparse, dense) =
      let (_, _, dead, _, _) = refresh-same env idx in (ap (contains d) dead ∙ sparse, dense)

  delete-IsGone :
      (d e : ℕ) (idx : Index env) (store : VectorStore faiss)
      → IsGone d idx store
      → IsGone d (Search.delete env e idx).1 (VectorStore.delete faiss e store).1
  unfolding Search.delete VectorStore.delete Search.is_deleted VectorStore.is_deleted contains
  delete-IsGone d e idx store (sparse, dense) = (ground arith, ground arith)

contains-snoc :
    (d : ℕ) (xs : List ℕ) (x : ℕ)
    → (d ≡ x) ⊎ (contains d xs ≡ true)
    → contains d (xs ++ x ∷ []) ≡ true
unfolding contains
contains-snoc d [] x h = ground arith
contains-snoc d (y ∷ ys) x h = ground (arith, contains-snoc d ys x)

contains-upto : (d n : ℕ) → d < n → contains d (upto n) ≡ true
contains-upto d zero h = absurd (omega arith)
contains-upto d (suc n) h =
    contains-snoc d (upto n) n
      (elim (ℕ_discrete d n) [ yes e ↦ inl e | no ne ↦ inr (contains-upto d n (omega arith)) ])

module _ (lib : Libraries) (settings : Settings) (laws : Results.Laws lib.faiss) where
  open lib use {env, faiss}

  IsSound-Keeps : Keeps lib settings (IsSound (parts_of lib settings) laws)
  IsSound-Keeps = record {
    indexed = index_page-IsSound (parts_of lib settings) laws;
    others = record {
      rebuilt = refresh-IsSound (parts_of lib settings) laws;
      removed = delete-IsSound (parts_of lib settings) laws;
    };
  }

  IsGone-Keeps : (d : ℕ) → Keeps lib settings (IsGone (parts_of lib settings) laws d)
  IsGone-Keeps d = record {
    indexed = index_page-IsGone (parts_of lib settings) laws d;
    others = record {
      rebuilt = refresh-IsGone (parts_of lib settings) laws d;
      removed = delete-IsGone (parts_of lib settings) laws d;
    };
  }

  abbrev pub HasSound : State lib settings → Type 0
  HasSound s = IsSound (parts_of lib settings) laws s.app.bm25 s.app.vector_store

  -- Whatever requests are answered and however the stages of the pipelines that run at the same time
  -- take turns, both indexes stay well-formed, the vector store stays trained, and its row i stays
  -- document i of the BM25 index, with the same URL.
  pub run-HasSound :
      (calls : List Call) (s : State lib settings)
      → HasSound s
      → HasSound (run lib settings calls s)
  run-HasSound = run-keep lib settings (IsSound (parts_of lib settings) laws) IsSound-Keeps

  -- Where the indexes of the server are sound, the deletion of the URL of an indexed document leaves no
  -- search response in the cache, and no search finds the document again, in any state that later
  -- requests and the stages of running pipelines lead to.
  pub delete-run-gone :
      (ranking : Ranking.Laws env) (address : Text) (d : ℕ) (calls : List Call)
      (req : SearchRequest) (pq : ProcessedQuery) (s : State lib settings)
      → HasSound s
      → Search.url_to_doc_id env address s.app.bm25 ≡ some d
      → let t = run lib settings (delete address ∷ calls) s in
        IsBlank env faiss
          (Response lib settings)
          (step lib settings (delete address) s).app.search_cache
        × All
            (λ r. r.doc_id ≢ d)
            (candidates_for (services_of lib settings) req pq (search_state lib settings t)).0
  unfolding run step candidates_for search_state Search.url_to_doc_id
  delete-run-gone ranking address d calls req pq s h e =
      let there =
        ap (contains d) h.aligned.numbered
        ∙ contains-upto d (length s.app.bm25.corpus) (h.valid.urls_known address d e) in
      let (_, sparse, dense, blank) =
        delete_url-both env faiss (Response lib settings) laws address d s.app h.valid h.stored e
          there in
      let s' = step lib settings (delete address) s in
      let t = run lib settings calls s' in
      let sound = run-HasSound (delete address ∷ calls) s h in
      let (sparse', dense') =
        run-keep lib settings (IsGone (parts_of lib settings) laws d) (IsGone-Keeps d) calls s'
          (sparse, dense) in
      (
        blank,
        retrieve-deleted env faiss ranking laws (services_of lib settings).weights _
            (for_retrieval pq) _ (filters_of req.filters) t.app.vector_store t.app.bm25
            (some t.app.link_graph) d (omega arith) sound.valid sound.stored sparse' dense',
      )
