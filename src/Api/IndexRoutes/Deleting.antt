-- ===== src/Api/IndexRoutes/Deleting.antt =====
-- Deletion by URL through the API (api/routes/index.py).
use axon_search.Base.{
  ℕ, ◌≡◌, ◌<◌, refl, sym, ap, ◌∙◌, inl, inr, true, Option, none, some, [], length, arith,
  Option-cases,
}
use mathlib.Core.Path.{subst}
use mathlib.Core.Bool.{false≢true}
use axon_search.Base.Dict.{nat_key, contains}
use axon_search.Base.Text.{Text}
use axon_search.Cache
use axon_search.Cache.{Cache}
use axon_search.Indexer.Bm25.{Env}
use axon_search.Indexer.Bm25.Search
use axon_search.Indexer.Bm25.State
use axon_search.Indexer.Bm25.Deletion.{delete_lem}
use axon_search.Indexer.VectorStore
use axon_search.Indexer.VectorStore.{Faiss}
use axon_search.Indexer.VectorStore.Results
use axon_search.Indexer.VectorStore.Results.{delete-IsValid}
use axon_search.Api.IndexRoutes.{App, clear_cache, delete_url}

module _ (env : Env) (faiss : Faiss env.floats.Float) (R : Type 0) where
  -- No search result is cached.
  abbrev pub IsBlank : Option (Cache Text R) → Type 0
  IsBlank none = Unit
  IsBlank (some c) = c.items ≡ []

  pub clear_cache-same :
      (s : App env faiss R)
      → ((clear_cache env faiss R s).bm25 ≡ s.bm25)
        × ((clear_cache env faiss R s).vector_store ≡ s.vector_store)
        × IsBlank (clear_cache env faiss R s).search_cache
  unfolding clear_cache Cache.clear
  clear_cache-same s = elim (Option-cases s.search_cache) [
    | inl e ↦ rw e (refl, refl, tt)
    | inr (c, e) ↦ rw e (refl, refl, refl)
  ]

  -- The application with a document deleted in both indexes.
  abbrev pub without : ℕ → App env faiss R → App env faiss R
  without d s = record s {
    bm25 = (Search.delete env d s.bm25).1;
    vector_store = (VectorStore.delete faiss d s.vector_store).1;
  }

  pub delete_url-known :
      (url : Text) (d : ℕ) (s : App env faiss R)
      → Search.url_to_doc_id env url s.bm25 ≡ some d
      → delete_url env faiss R url s ≡ (some d, clear_cache env faiss R (without d s))
  unfolding delete_url
  delete_url-known url d s e =
      ap
        (λ o. elim o [
          | none ↦ (none, s)
          | some n ↦ (some n, clear_cache env faiss R (without n s))
        ])
        e

  bm25-gone :
      (d : ℕ) (s : App env faiss R)
      → State.IsValid env s.bm25
      → d < length s.bm25.corpus
      → Search.is_deleted env d (without d s).bm25 ≡ true
  bm25-gone d s v known = elim (delete_lem env d s.bm25 v) [
    | inl (_, _, _, gone, _, _) ↦ gone
    | inr (_, _, inl out) ↦ absurd (omega arith)
    | inr (_, same, inr gone) ↦ ap (Search.is_deleted env d) same ∙ gone
  ]

  -- Deleting an indexed URL, whose document stands in both indexes, leaves the document deleted in
  -- both, even where it was deleted in one of them before, and leaves no search result cached.
  pub delete_url-both :
      (laws : Results.Laws faiss) (url : Text) (d : ℕ) (s : App env faiss R)
      → State.IsValid env s.bm25
      → Results.IsValid faiss laws s.vector_store
      → Search.url_to_doc_id env url s.bm25 ≡ some d
      → contains d s.vector_store.doc_ids ≡ true
      → let (answer, s') = delete_url env faiss R url s in
        (answer ≡ some d)
        × (Search.is_deleted env d s'.bm25 ≡ true)
        × (VectorStore.is_deleted faiss d s'.vector_store ≡ true)
        × IsBlank s'.search_cache
  unfolding Search.url_to_doc_id
  delete_url-both laws url d s v vs e there =
      let (sparse, dense, blank) = clear_cache-same (without d s) in
      subst
        (λ r.
          (r.0 ≡ some d)
          × (Search.is_deleted env d r.1.bm25 ≡ true)
          × (VectorStore.is_deleted faiss d r.1.vector_store ≡ true)
          × IsBlank r.1.search_cache)
        (sym (delete_url-known url d s e))
        (
          refl,
          ap (Search.is_deleted env d) sparse ∙ bm25-gone d s v (v.urls_known url d e),
          ap (VectorStore.is_deleted faiss d) dense
              ∙ (elim (delete-IsValid faiss laws d s.vector_store vs).1 [
                | inl (_, _, _, gone, _) ↦ gone
                | inr (_, _, inl out) ↦ absurd (false≢true (sym out ∙ there))
                | inr (_, same, inr gone) ↦ ap (VectorStore.is_deleted faiss d) same ∙ gone
              ]),
          blank,
        )
