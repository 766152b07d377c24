-- ===== src/Indexer/Pipeline/Pages.antt =====
-- The pages of a run on their way into the BM25 index (indexer/pipeline.py).
pub mod Steps
use axon_search.Indexer.Pipeline.Keeping.{step-keep}
use axon_search.Base.{
  ℕ, zero, suc, ◌+◌, ◌≤◌, ◌≡◌, refl, sym, ap, ◌∙◌, inl, inr, Bool, true, false, not, ◌&&◌, Option,
  none, some, List, [], ◌∷◌, ◌++◌, arith, get_elem?, leb, length, Bool-cases, Option-cases,
  if◌then◌else◌, ◌||◌, ◌<◌, ltb,
}
use axon_search.Base.Text.{Text}
use axon_search.Utils.Dedup.{DedupFilter, is_duplicate}
use axon_search.Crawler.Crawl.{CrawlResult, drop_at}
use axon_search.Crawler.Extractor.{extract}
use axon_search.Indexer.Bm25
use axon_search.Indexer.Bm25.{Meta, add}
use axon_search.Indexer.VectorStore.{VectorStore}
use axon_search.Indexer.Batching.{
  Parts, Page, Indexes, index_page, index_rows, flush, batch_page, is_raised,
}
use axon_search.Indexer.Pipeline.Aligned.{described}
use axon_search.Indexer.Pipeline.{
  Stage, taking, closing, closed, Run, Event, crawl_page, put_result, end_crawl, take_result,
  end_extract, put_page, end_extracting, take_page, passes, dedup_gate, quality_gate, step, run,
  start, has_room, crawl_result, offer, end_of_crawl, take_from, receive, gates, put_one,
  close_stage, index_from,
}

abbrev pub total : {A : Type 0} → (A → ℕ) → List A → ℕ
total q [] = 0
total q (x ∷ xs) = q x + total q xs

pub total-append :
    {A : Type 0} (q : A → ℕ) (xs ys : List A) → total q (xs ++ ys) ≡ total q xs + total q ys
total-append q [] ys = omega arith
total-append q (x ∷ xs) ys = omega (arith, total-append q xs ys)

pub total-drop_at :
    {A : Type 0} (q : A → ℕ) (i : ℕ) (xs : List A) (x : A)
    → get_elem? xs i ≡ some x
    → total q (drop_at i xs) + q x ≡ total q xs
unfolding drop_at
total-drop_at q i [] x e = absurd (ground (arith, e))
total-drop_at q zero (y ∷ xs) x e = ground (arith, e)
total-drop_at q (suc i) (y ∷ xs) x e = omega (arith, total-drop_at q i xs x e)

-- The pages in a queue.
abbrev pub queued : {A : Type 0} → List (Option A) → List A
queued [] = []
queued (none ∷ queue) = queued queue
queued (some x ∷ queue) = x ∷ queued queue

pub queued-append :
    {A : Type 0} (xs ys : List (Option A)) → queued (xs ++ ys) ≡ queued xs ++ queued ys
queued-append [] ys = refl
queued-append (none ∷ xs) ys = queued-append xs ys
queued-append (some x ∷ xs) ys = ap (◌∷◌ x) (queued-append xs ys)

module _ (parts : Parts) where
  open parts use {env, faiss}

  -- The page that passes the gates in an event.
  abbrev pub admitted_page : Option (Page parts) → DedupFilter parts.lsh → List (Page parts)
  admitted_page none d = []
  admitted_page (some page) d =
      if passes parts page && not (is_duplicate parts.lsh page.text d).0 then page ∷ [] else []

  abbrev pub admitted_of : Option CrawlResult → Run parts → List (Page parts)
  admitted_of none s = []
  admitted_of (some result) s = admitted_page (extract env.floats parts.html result) s.dedup

  abbrev pub admitted : Event → Run parts → List (Page parts)
  admitted (end_extract i) s = admitted_of (get_elem? s.extracting i) s
  admitted _ s = []

  -- The pages that pass the gates in the events, in their order.
  abbrev pub passed : ℕ → List Event → Run parts → List (Page parts)
  passed n [] s = []
  passed n (e ∷ es) s = admitted e s ++ passed n es (step parts n e s)

module _ (parts : Parts) (q : Meta → ℕ) where
  open parts use {env, faiss}

  -- How often the test `q` meets a page.
  abbrev pub weigh : List (Page parts) → ℕ
  weigh pages = total (λ page. q (described parts page)) pages

  abbrev pub known : Indexes parts → ℕ
  known x = total q x.bm25.metadata

  known-index_page :
      (page : Page parts) (v : faiss.Vector) (x : Indexes parts)
      → (index_page parts page v x).lost ≡ 0
      → (x.lost ≡ 0) × (known (index_page parts page v x) ≡ known x + q (described parts page))
  unfolding index_page add
  known-index_page page v x ok =
      let more = total-append q x.bm25.metadata (described parts page ∷ []) in
      (ground (arith, ok), ground (arith, ok, more))

  known-index_rows :
      (i : ℕ) (pages : List (Page parts)) (rows : ℕ → faiss.Vector) (x : Indexes parts)
      → (index_rows parts i pages rows x).lost ≡ 0
      → (x.lost ≡ 0) × (known (index_rows parts i pages rows x) ≡ known x + weigh pages)
  unfolding index_rows
  known-index_rows i [] rows x ok = (ok, omega arith)
  known-index_rows i (page ∷ pages) rows x ok =
      let (ok', later) =
        known-index_rows (suc i) pages rows (index_page parts page (rows i) x) ok in
      let (ok'', here) = known-index_page page (rows i) x ok' in (ok'', omega (arith, later, here))

  pub known-flush :
      (pages : List (Page parts)) (x : Indexes parts)
      → (flush parts pages x).lost ≡ 0
      → (x.lost ≡ 0) × (known (flush parts pages x) ≡ known x + weigh pages)
  unfolding flush
  known-flush [] x ok = (ok, omega arith)
  known-flush (page ∷ pages) x ok = known-index_rows 0 (page ∷ pages) _ x ok

  pub known-batch_page :
      (n : ℕ) (page : Page parts) (batch : List (Page parts)) (x : Indexes parts)
      → let (batch', y) = batch_page parts n page (batch, x) in
        y.lost ≡ 0
        → (x.lost ≡ 0) × (known y + weigh batch' ≡ known x + weigh batch + q (described parts page))
  unfolding batch_page
  known-batch_page n page batch x ok =
      let more = total-append (λ p. q (described parts p)) batch (page ∷ []) in
      elim (Bool-cases (leb n (length (batch ++ page ∷ [])))) [
        | inl full ↦
            let (ok', flushed) = known-flush (batch ++ page ∷ []) x (rw full at ok) in
            (ok', rw full (omega (arith, flushed, more)))
        | inr space ↦ (rw space at ok, rw space (omega (arith, more)))
      ]

  -- How often it meets a page that is indexed or on its way from the gates.
  abbrev pub mass : Run parts → ℕ
  mass s = known s.indexes + weigh s.batch + weigh (queued s.extract_q) + weigh s.putting
