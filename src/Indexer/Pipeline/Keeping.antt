-- ===== src/Indexer/Pipeline/Keeping.antt =====
-- What indexing a page keeps, a run of the pipeline keeps (indexer/pipeline.py).
use axon_search.Base.{
  ℕ, suc, ◌≡◌, refl, sym, ap, ◌∙◌, inl, inr, Bool, true, false, Option, none, some, List, [], ◌∷◌,
  ◌++◌, leb, length, Bool-cases,
}
use mathlib.Core.Path.{subst}
use axon_search.Utils.Dedup.{DedupFilter, is_duplicate}
use axon_search.Indexer.Pipeline.Moves.{
  Move, wait, yield, enqueue, stop, see_end, begin_extract, extract_page, send_page, close,
  flush_rest, index, step-Move,
}
use axon_search.Indexer.Batching.{Parts, Page, Indexes, index_page, index_rows, flush, batch_page}
use axon_search.Indexer.Pipeline.{passes, Run, Event, dedup_gate, quality_gate, step}

module _ (parts : Parts) where
  -- The gates leave the indexes alone.
  dedup_gate-indexes :
      (page : Page parts) (answer : Bool × DedupFilter parts.lsh) (s : Run parts)
      → (dedup_gate parts page answer s).indexes ≡ s.indexes
  unfolding dedup_gate
  dedup_gate-indexes page (true, d) s = refl
  dedup_gate-indexes page (false, d) s = refl

  quality_gate-indexes :
      (page : Option (Page parts)) (s : Run parts) → (quality_gate parts page s).indexes ≡ s.indexes
  unfolding quality_gate
  quality_gate-indexes none s = refl
  quality_gate-indexes (some page) s = elim (Bool-cases (passes parts page)) [
    | inl e ↦ rw e (dedup_gate-indexes page (is_duplicate parts.lsh page.text s.dedup) s)
    | inr e ↦ rw e refl
  ]

module _ (parts : Parts) (P : Indexes parts → Type 0)
    (keep : (page : Page parts) (v : parts.faiss.Vector) (x : Indexes parts)
      → P x
      → P (index_page parts page v x)) where
  index_rows-keep :
      (i : ℕ) (pages : List (Page parts)) (rows : ℕ → parts.faiss.Vector) (x : Indexes parts)
      → P x
      → P (index_rows parts i pages rows x)
  unfolding index_rows
  index_rows-keep i [] rows x h = h
  index_rows-keep i (page ∷ pages) rows x h =
      index_rows-keep (suc i) pages rows (index_page parts page (rows i) x) (keep page (rows i) x h)

  flush-keep : (pages : List (Page parts)) (x : Indexes parts) → P x → P (flush parts pages x)
  unfolding flush
  flush-keep [] x h = h
  flush-keep (page ∷ pages) x h = index_rows-keep 0 (page ∷ pages) _ x h

  batch_page-keep :
      (embed_batch : ℕ) (page : Page parts) (batch : List (Page parts)) (x : Indexes parts)
      → P x
      → P (batch_page parts embed_batch page (batch, x)).1
  unfolding batch_page
  batch_page-keep embed_batch page batch x h =
      elim (Bool-cases (leb embed_batch (length (batch ++ page ∷ [])))) [
        | inl full ↦ rw full (flush-keep (batch ++ page ∷ []) x h)
        | inr space ↦ rw space h
      ]

  pub Move-keep :
      (embed_batch : ℕ) (s t : Run parts) → Move parts embed_batch s t → P s.indexes → P t.indexes
  Move-keep n s t (wait e) h = subst (λ u. P u.indexes) (sym e) h
  Move-keep n s t (yield result o e) h = subst (λ u. P u.indexes) (sym e) h
  Move-keep n s t (enqueue result o e) h = subst (λ u. P u.indexes) (sym e) h
  Move-keep n s t (stop e) h = subst (λ u. P u.indexes) (sym e) h
  Move-keep n s t (see_end queue q st e) h = subst (λ u. P u.indexes) (sym e) h
  Move-keep n s t (begin_extract result queue q st e) h = subst (λ u. P u.indexes) (sym e) h
  Move-keep n s t (extract_page i result g e) h =
      subst P (sym (ap (λ u. u.indexes) e ∙ quality_gate-indexes parts _ _)) h
  Move-keep n s t (send_page i page g e) h = subst (λ u. P u.indexes) (sym e) h
  Move-keep n s t (close st over e) h = subst (λ u. P u.indexes) (sym e) h
  Move-keep n s t (flush_rest queue q f e) h =
      subst (λ u. P u.indexes) (sym e) (flush-keep s.batch s.indexes h)
  Move-keep n s t (index page queue q f e) h =
      subst (λ u. P u.indexes) (sym e) (batch_page-keep n page s.batch s.indexes h)

  pub step-keep :
      (embed_batch : ℕ) (e : Event) (s : Run parts)
      → P s.indexes
      → P (step parts embed_batch e s).indexes
  step-keep n e s h = Move-keep n s (step parts n e s) (step-Move parts n e s) h
