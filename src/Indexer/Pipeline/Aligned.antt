-- ===== src/Indexer/Pipeline/Aligned.antt =====
-- The two indexes of a run hold the same documents (indexer/pipeline.py).
use axon_search.Base.{
  ℕ, zero, suc, ◌≡◌, refl, sym, ap, ◌∙◌, Option, some, List, [], ◌∷◌, ◌++◌, map, arith, length,
  length-append, Bool, true, false,
}
use axon_search.Base.Dict.{lookup}
use axon_search.Base.Text.{Text, Text-discrete, codes, str_key}
use axon_search.Indexer.Bm25
use axon_search.Indexer.Bm25.{Meta, update_vocab, add}
use axon_search.Indexer.VectorStore.Results
use axon_search.Indexer.Batching.{Parts, Page, Indexes, index_page, is_raised}

-- The numbers below a number, in their order.
abbrev pub upto : ℕ → List ℕ
upto zero = []
upto (suc n) = upto n ++ n ∷ []

-- `meta.get("url")`
abbrev pub url_of : Meta → Option Text
url_of meta = lookup (codes "url") meta

map_snoc :
    {A B : Type 0} (f : A → B) (xs : List A) (y : A) → map f (xs ++ y ∷ []) ≡ map f xs ++ f y ∷ []
map_snoc f [] y = refl
map_snoc f (x ∷ xs) y = ap (◌∷◌ (f x)) (map_snoc f xs y)

module _ (parts : Parts) where
  open parts use {env, faiss}

  -- The store's row i is document i of the BM25 index, with the same URL.
  pub record AreAligned (x : Indexes parts) : Type 0 where
    pub numbered : x.vector_store.doc_ids ≡ upto (length x.bm25.corpus)
    pub same_urls : map url_of x.vector_store.meta ≡ map url_of x.bm25.metadata

  -- The metadata of a page in the BM25 index, and in the vector store.
  abbrev pub described : Page parts → Meta
  described page =
      (codes "url", page.url)
      ∷ (codes "title", page.title)
      ∷ (codes "desc", page.description)
      ∷ (codes "date", page.publish_date)
      ∷ []

  abbrev pub stored : Page parts → Meta
  stored page =
      (codes "url", page.url)
      ∷ (codes "title", page.title)
      ∷ (codes "word_count", parts.number page.word_count)
      ∷ []

  abbrev pub is_trained : Indexes parts → Bool
  is_trained x = faiss.is_trained x.vector_store.index

  -- The indexes with a page in both of them, the vectors in the index `h` of FAISS.
  abbrev pub indexed_in : faiss.Handle → Page parts → Indexes parts → Indexes parts
  indexed_in h page x =
      let (doc_id, idx) = Bm25.add env page.text (described page) x.bm25 in
      record x {
        bm25 = idx;
        vector_store = record x.vector_store {
          index = h;
          doc_ids = x.vector_store.doc_ids ++ doc_id ∷ [];
          meta = x.vector_store.meta ++ stored page ∷ [];
        };
        indexed = suc x.indexed;
      }

  -- Where the vector store is trained, and no exception has ended the stage, a page is in both
  -- indexes, and the store stays trained.
  pub index_page_trained :
      (laws : Results.Laws faiss) (page : Page parts) (v : faiss.Vector) (x : Indexes parts)
      → is_trained x ≡ true
      → is_raised parts x ≡ false
      → (h : faiss.Handle) × (index_page parts page v x ≡ indexed_in h page x)
        × (faiss.is_trained h ≡ true)
  unfolding index_page
  index_page_trained laws page v x trained fine =
      let (doc_id, idx) = Bm25.add env page.text (described page) x.bm25 in
      let (h, e, t) =
        Results.add_trained faiss laws doc_id v (some (stored page)) x.vector_store trained in
      (h, rw (fine, e) refl, t)

  pub index_page_raised :
      (page : Page parts) (v : faiss.Vector) (x : Indexes parts)
      → is_raised parts x ≡ true
      → index_page parts page v x ≡ record x { lost = suc x.lost }
  unfolding index_page
  index_page_raised page v x raised = rw raised refl

  pub indexed_in-AreAligned :
      (h : faiss.Handle) (page : Page parts) (x : Indexes parts)
      → AreAligned x
      → AreAligned (indexed_in h page x)
  unfolding add update_vocab lookup Text-discrete
  indexed_in-AreAligned handle page x h =
      let n = length x.bm25.corpus in
      let grown : suc n ≡ length (x.bm25.corpus ++ Bm25.tokenize env page.text ∷ []) =
        omega (arith, length-append {0} x.bm25.corpus (Bm25.tokenize env page.text ∷ [])) in
      record {
        numbered = ap (λ xs. xs ++ n ∷ []) h.numbered ∙ ap upto grown;
        same_urls =
            map_snoc url_of x.vector_store.meta (stored page)
            ∙ ap (λ us. us ++ some page.url ∷ []) h.same_urls
            ∙ sym (map_snoc url_of x.bm25.metadata (described page));
      }
