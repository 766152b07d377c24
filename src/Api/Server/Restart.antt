-- ===== src/Api/Server/Restart.antt =====
-- A shutdown and the next start (api/server.py, `_lifespan`).
use axon_search.Base.{ℕ, ◌≡◌, refl, sym, ap, ◌∙◌, ◌⊎◌, inl, inr, some, map, length}
use mathlib.Core.Path.{subst}
use axon_search.Base.Dict.{lookup}
use axon_search.Base.Text.{Text, str_key}
use axon_search.Config.{Settings, decimal}
use axon_search.Indexer.Bm25.{Index}
use axon_search.Indexer.Bm25.Search
use axon_search.Indexer.Bm25.Persistence.{search-load-save, load-save_same, load-save-IsValid}
use axon_search.Indexer.VectorStore
use axon_search.Indexer.VectorStore.{IndexType, Faiss, VectorStore}
use axon_search.Indexer.VectorStore.Results
use axon_search.Indexer.Pipeline.Aligned.{upto, url_of}
use axon_search.Crawler.LinkGraph
use axon_search.Utils.Dedup
use axon_search.Api.Server.{
  Libraries, Pickler, parts_of, State, StartError, index_type_of, open_bm25, open_store, fresh,
  startup, shutdown,
}
use axon_search.Api.Server.Sound.{IsSound, HasSound}

-- What pickle documents: a value is loaded as it was dumped.
abbrev pub IsFaithful : {A : Type 0} → Pickler A → Type 0
IsFaithful {A} p = (x : A) → p.load (p.dump x) ≡ x

module _ (lib : Libraries) (settings : Settings) (laws : Results.Laws lib.faiss) where
  open lib use {env, faiss, float}

  -- A state after the restart: both indexes answer as before and are sound, and the link graph and
  -- the filter of duplicates are empty.
  pub record IsRestored (s t : State lib settings) : Type 0 where
    pub sparse :
        (query : Text) (top_k : ℕ)
        → (Search.search env query top_k t.app.bm25).0
          ≡ (Search.search env query top_k s.app.bm25).0
    pub dense :
        (v : faiss.Vector) (top_k : ℕ)
        → VectorStore.search faiss v top_k t.app.vector_store
          ≡ VectorStore.search faiss v top_k s.app.vector_store
    pub urls :
        (url : Text)
        → Search.url_to_doc_id env url t.app.bm25 ≡ Search.url_to_doc_id env url s.app.bm25
    pub sound : HasSound lib settings laws t
    pub no_links :
        t.app.link_graph ≡ LinkGraph.init env.floats (float (decimal 85 2)) 50 (float (decimal 1 6))
    pub none_seen : t.dedup ≡ Dedup.init (parts_of lib settings).lsh 5

  abbrev pub HasRestored : State lib settings → StartError ⊎ State lib settings → Type 0
  HasRestored s (inl error) = ⊥
  HasRestored s (inr t) = IsRestored s t

  startup-shutdown_is :
      (s : State lib settings) (t : IndexType)
      → IsFaithful lib.bm25_pickler
      → IsFaithful lib.meta_pickler
      → index_type_of settings.vector_index_type ≡ some t
      → startup lib settings (shutdown lib settings s)
        ≡ inr (
            fresh lib settings
              (Search.load env (Search.save env s.app.bm25).0)
              (VectorStore.load faiss
                (VectorStore.save faiss s.app.vector_store)
                settings.embed_dim
                t)
              s.sims)
  unfolding startup shutdown open_bm25 open_store VectorStore.save
  startup-shutdown_is s t bm25 meta e =
      let store = s.app.vector_store in
      rw
        (
          e,
          startup,
          bm25 (Search.save env s.app.bm25).0,
          meta (store.doc_ids, store.meta, store.deleted),
        )
        refl

  load-save-IsSound :
      (s : State lib settings) (t : IndexType)
      → HasSound lib settings laws s
      → IsSound
          (parts_of lib settings)
          laws
          (Search.load env (Search.save env s.app.bm25).0)
          (VectorStore.load faiss (VectorStore.save faiss s.app.vector_store) settings.embed_dim t)
  unfolding VectorStore.load VectorStore.save VectorStore.init
  load-save-IsSound s t h =
      let same = laws.read_index-write_index s.app.vector_store.index in
      let (corpus, metadata, _, _, _, _, _) = load-save_same env s.app.bm25 in
      record {
        valid = load-save-IsValid env s.app.bm25 h.valid;
        stored = record {
          numbered = h.stored.numbered ∙ sym (ap faiss.ntotal same);
          described = h.stored.described ∙ sym (ap faiss.ntotal same);
          dead_once = h.stored.dead_once;
        };
        aligned = record {
          numbered = h.aligned.numbered ∙ sym (ap (λ c. upto (length c)) corpus);
          same_urls = h.aligned.same_urls ∙ sym (ap (map url_of) metadata);
        };
        trained = ap faiss.is_trained same ∙ h.trained;
      }

  url_to_doc_id-load-save :
      (idx : Index env) (url : Text)
      → Search.url_to_doc_id env url (Search.load env (Search.save env idx).0)
        ≡ Search.url_to_doc_id env url idx
  unfolding Search.url_to_doc_id
  url_to_doc_id-load-save idx url =
      let (_, _, _, _, _, urls, _) = load-save_same env idx in ap (lookup url) urls

  store-search-same :
      (store : VectorStore faiss) (t : IndexType) (v : faiss.Vector) (top_k : ℕ)
      → VectorStore.search faiss v top_k
          (VectorStore.load faiss (VectorStore.save faiss store) settings.embed_dim t)
        ≡ VectorStore.search faiss v top_k store
  unfolding VectorStore.load VectorStore.save VectorStore.search VectorStore.visit VectorStore.init
  store-search-same store t v top_k = rw (laws.read_index-write_index store.index) refl

  -- When the server is shut down with sound indexes and started again with the same settings, the
  -- start succeeds, every search of either index and every URL is answered as before, and the
  -- indexes are sound; the link graph and the filter of duplicates start empty.
  pub startup-shutdown-HasRestored :
      (s : State lib settings) (t : IndexType)
      → IsFaithful lib.bm25_pickler
      → IsFaithful lib.meta_pickler
      → index_type_of settings.vector_index_type ≡ some t
      → HasSound lib settings laws s
      → HasRestored s (startup lib settings (shutdown lib settings s))
  unfolding fresh
  startup-shutdown-HasRestored s t bm25 meta e h =
      subst (HasRestored s) (sym (startup-shutdown_is s t bm25 meta e)) (record {
        sparse = λ query top_k. (search-load-save env query top_k s.app.bm25 h.valid).1;
        dense = store-search-same s.app.vector_store t;
        urls = url_to_doc_id-load-save s.app.bm25;
        sound = load-save-IsSound s t h;
        no_links = refl;
        none_seen = refl;
      })
