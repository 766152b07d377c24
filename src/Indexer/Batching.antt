-- ===== src/Indexer/Batching.antt =====
-- `_stage_index` of indexer/pipeline.py: pages in batches, and both indexes.
use axon_search.Base.{ℕ, suc, some, List, [], ◌∷◌, ◌++◌, map, leb, if◌then◌else◌, length, Bool, ltb}
use axon_search.Base.Text.{Text, codes}
use axon_search.Utils.QualityScorer.{Calls, Scorer}
use axon_search.Utils.Dedup.{Lsh}
use axon_search.Crawler.Extractor.{Html, ExtractedPage}
use axon_search.Indexer.Bm25
use axon_search.Indexer.Bm25.{Env, Meta, Index}
use axon_search.Indexer.VectorStore
use axon_search.Indexer.VectorStore.{Faiss, VectorStore}

-- What the pipeline is built from: its libraries, the quality filter, the encoder of the embedder, by
-- the row of each text, and the text of a number in the metadata.
pub record Parts : Type 1 where
  pub env : Env
  pub faiss : Faiss env.floats.Float
  pub html : Html env.floats
  pub calls : Calls env.floats
  pub quality : Scorer env.floats
  pub lsh : Lsh env.floats.Float
  pub encode : List Text → ℕ → faiss.Vector
  pub number : ℕ → Text

module _ (parts : Parts) where
  open parts use {env, faiss}
  open env use {floats}

  abbrev pub Page : Type 0
  Page = ExtractedPage floats

  -- Both indexes, with `stats.indexed`, and how many pages of a batch an exception of
  -- `VectorStore.add`, which ends the stage, has kept from being indexed.
  pub record Indexes : Type 0 where
    pub bm25 : Index env
    pub vector_store : VectorStore faiss
    pub indexed : ℕ
    pub lost : ℕ

module _ (parts : Parts) where
  open parts use {env, faiss, encode, number}

  -- Whether the stage has ended with an exception.
  abbrev pub is_raised : Indexes parts → Bool
  is_raised x = ltb 0 x.lost

  -- The body of the loop of `_flush`, which is not run for the pages after an exception.
  unfoldable pub index_page : Page parts → faiss.Vector → Indexes parts → Indexes parts
  index_page page vector x =
      let (doc_id, bm25) =
        Bm25.add env page.text
          ((codes "url", page.url)
            ∷ (codes "title", page.title)
            ∷ (codes "desc", page.description)
            ∷ (codes "date", page.publish_date)
            ∷ [])
          x.bm25 in
      let (raised, store) =
        VectorStore.add faiss doc_id vector
          (some (
            (codes "url", page.url)
            ∷ (codes "title", page.title)
            ∷ (codes "word_count", number page.word_count)
            ∷ []))
          x.vector_store in
      if is_raised x
      then record x { lost = suc x.lost }
      else if raised
      then record x { bm25 = bm25; vector_store = store; lost = suc x.lost }
      else record x { bm25 = bm25; vector_store = store; indexed = suc x.indexed }

  -- The loop over the pages, from a position on.
  unfoldable pub index_rows :
      ℕ → List (Page parts) → (ℕ → faiss.Vector) → Indexes parts → Indexes parts
  unfolding index_page
  index_rows i [] vectors x = x
  index_rows i (page ∷ pages) vectors x =
      index_rows (suc i) pages vectors (index_page page (vectors i) x)

  -- `_flush`
  unfoldable pub flush : List (Page parts) → Indexes parts → Indexes parts
  unfolding index_rows
  flush [] x = x
  flush (page ∷ pages) x = index_rows 0 (page ∷ pages) (encode (map (λ p. p.text) (page ∷ pages))) x

  -- The loop of `_stage_index` for one page: the batch with it, flushed where it is full.
  unfoldable pub batch_page :
      ℕ → Page parts → List (Page parts) × Indexes parts → List (Page parts) × Indexes parts
  unfolding flush
  batch_page embed_batch page (batch, x) =
      let batch' = batch ++ page ∷ [] in
      if leb embed_batch (length batch') then ([], flush batch' x) else (batch', x)
