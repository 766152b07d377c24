-- ===== src/Indexer/Pipeline/Batches.antt =====
-- What the indexing stage leaves in the indexes (indexer/pipeline.py).
use axon_search.Base.{
  ℕ, suc, ◌+◌, ◌≡◌, refl, sym, ap, ◌∙◌, inl, inr, some, List, [], ◌∷◌, ◌++◌, map, arith, leb,
  length, get_elem?, Bool-cases,
}
use mathlib.Core.Path.{subst}
use mathlib.Core.List.{append_assoc, append-nil}
use axon_search.Base.Text.{Text, str_key}
use axon_search.Indexer.Batching.{Parts, Page, Indexes, index_page, index_rows, flush, batch_page}

module _ (parts : Parts) where
  open parts use {env, faiss, encode}

  -- The pages indexed one by one, each with the vector of its text.
  unfoldable pub index_each :
      (Text → faiss.Vector) → List (Page parts) → Indexes parts → Indexes parts
  index_each each [] x = x
  index_each each (page ∷ pages) x =
      index_each each pages (index_page parts page (each page.text) x)

  -- What `_stage_index` does with the pages that come, and with the sentinel after them.
  unfoldable pub index_pages :
      ℕ → List (Page parts) → List (Page parts) × Indexes parts → Indexes parts
  index_pages embed_batch [] (batch, x) = flush parts batch x
  index_pages embed_batch (page ∷ pages) (batch, x) =
      index_pages embed_batch pages (batch_page parts embed_batch page (batch, x))

  -- The encoder gives each text's row the vector of that text, whatever the other texts are.
  abbrev pub IsRowwise : (Text → faiss.Vector) → Type 0
  IsRowwise each =
      (texts : List Text) (i : ℕ) (text : Text)
      → get_elem? texts i ≡ some text
      → encode texts i ≡ each text

module _ (parts : Parts) where
  open parts use {env, faiss, encode}

  index_rows-each :
      (each : Text → faiss.Vector) (i : ℕ) (pages : List (Page parts)) (rows : ℕ → faiss.Vector)
      (x : Indexes parts)
      → ((j : ℕ) (text : Text)
          → get_elem? (map (λ p. p.text) pages) j ≡ some text
          → rows (i + j) ≡ each text)
      → index_rows parts i pages rows x ≡ index_each parts each pages x
  unfolding index_rows index_each
  index_rows-each each i [] rows x h = refl
  index_rows-each each i (page ∷ pages) rows x h =
      let row : rows i ≡ each page.text =
        subst (λ k. rows k ≡ each page.text) (omega arith) (h 0 page.text refl) in
      ap (λ v. index_rows parts (suc i) pages rows (index_page parts page v x)) row
      ∙ index_rows-each each (suc i) pages rows (index_page parts page (each page.text) x)
          (λ j text e. subst (λ k. rows k ≡ each text) (omega arith) (h (suc j) text e))

  flush-each :
      (each : Text → faiss.Vector)
      → IsRowwise parts each
      → (pages : List (Page parts)) (x : Indexes parts)
      → flush parts pages x ≡ index_each parts each pages x
  unfolding flush index_each
  flush-each each h [] x = refl
  flush-each each h (page ∷ pages) x =
      index_rows-each each 0 (page ∷ pages) (encode (map (λ p. p.text) (page ∷ pages))) x
        (λ j text e.
          subst (λ k. encode (map (λ p. p.text) (page ∷ pages)) k ≡ each text) (omega arith)
            (h (map (λ p. p.text) (page ∷ pages)) j text e))

  index_each-append :
      (each : Text → faiss.Vector) (xs ys : List (Page parts)) (x : Indexes parts)
      → index_each parts each (xs ++ ys) x ≡ index_each parts each ys (index_each parts each xs x)
  unfolding index_each
  index_each-append each [] ys x = refl
  index_each-append each (page ∷ xs) ys x =
      index_each-append each xs ys (index_page parts page (each page.text) x)

  index_pages-from :
      (embed_batch : ℕ) (each : Text → faiss.Vector)
      → IsRowwise parts each
      → (pages batch : List (Page parts)) (x : Indexes parts)
      → index_pages parts embed_batch pages (batch, x) ≡ index_each parts each (batch ++ pages) x
  unfolding index_pages batch_page
  index_pages-from embed_batch each h [] batch x =
      flush-each each h batch x ∙ ap (λ ps. index_each parts each ps x) (sym (append-nil batch))
  index_pages-from embed_batch each h (page ∷ pages) batch x =
      let batch' = batch ++ page ∷ [] in
      let whole = ap (λ ps. index_each parts each ps x) (append_assoc batch (page ∷ []) pages) in
      elim (Bool-cases (leb embed_batch (length batch'))) [
        | inl full ↦ rw full (
            index_pages-from embed_batch each h pages [] (flush parts batch' x)
            ∙ ap (index_each parts each pages) (flush-each each h batch' x)
            ∙ sym (index_each-append each batch' pages x)
            ∙ whole)
        | inr space ↦ rw space (index_pages-from embed_batch each h pages batch' x ∙ whole)
      ]

  -- The size of the batches makes no difference: the indexing stage leaves the indexes as they are
  -- when each page is indexed by itself, in the order in which the pages come, provided that the
  -- encoder gives a text the same vector in every batch.
  pub index_pages-each :
      (embed_batch : ℕ) (each : Text → faiss.Vector) (pages : List (Page parts)) (x : Indexes parts)
      → IsRowwise parts each
      → index_pages parts embed_batch pages ([], x) ≡ index_each parts each pages x
  index_pages-each embed_batch each pages x h = index_pages-from embed_batch each h pages [] x
