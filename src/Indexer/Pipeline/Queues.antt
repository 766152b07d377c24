-- ===== src/Indexer/Pipeline/Queues.antt =====
-- The queues and the counts of the pipeline (indexer/pipeline.py).
use axon_search.Base.{
  ℕ, suc, ◌+◌, ◌≡◌, ◌≢◌, refl, ◌⊎◌, inl, inr, Option, none, some, List, [], ◌∷◌, ◌++◌, arith, leb,
  length, length-append, Bool-cases,
}
use axon_search.Indexer.Batching.{Parts, Page, Indexes, index_page, index_rows, flush, batch_page}
use axon_search.Indexer.Pipeline.{Stage, taking, closing, closed}

-- How many entries of a queue are not the sentinel.
unfoldable pub entries : {A : Type 0} → List (Option A) → ℕ
entries [] = 0
entries (none ∷ queue) = entries queue
entries (some x ∷ queue) = suc (entries queue)

pub entries-append :
    {A : Type 0} (xs ys : List (Option A)) → entries (xs ++ ys) ≡ entries xs + entries ys
unfolding entries
entries-append [] ys = omega arith
entries-append (none ∷ xs) ys = entries-append xs ys
entries-append (some x ∷ xs) ys = omega (arith, entries-append xs ys)

-- Whether an entry waits for room.
abbrev pub waiting : {A : Type 0} → Option A → ℕ
waiting none = 0
waiting (some x) = 1

-- A queue without the sentinel, and one that ends with it.
abbrev pub IsOpen : {A : Type 0} → List (Option A) → Type 0
IsOpen [] = Unit
IsOpen (none ∷ queue) = ⊥
IsOpen (some x ∷ queue) = IsOpen queue

abbrev pub IsEnded : {A : Type 0} → List (Option A) → Type 0
IsEnded [] = ⊥
IsEnded (none ∷ queue) = queue ≡ []
IsEnded (some x ∷ queue) = IsEnded queue

pub IsOpen-append :
    {A : Type 0} (queue : List (Option A)) (x : A) → IsOpen queue → IsOpen (queue ++ some x ∷ [])
IsOpen-append [] x h = tt
IsOpen-append (none ∷ queue) x h = absurd h
IsOpen-append (some y ∷ queue) x h = IsOpen-append queue x h

pub IsEnded-append :
    {A : Type 0} (queue : List (Option A)) → IsOpen queue → IsEnded (queue ++ none ∷ [])
IsEnded-append [] h = refl
IsEnded-append (none ∷ queue) h = absurd h
IsEnded-append (some y ∷ queue) h = IsEnded-append queue h

pub Stage-cases : (stage : Stage) → (stage ≡ closed) ⊎ (stage ≢ closed)
Stage-cases taking = inr (λ e. ground arith)
Stage-cases closing = inr (λ e. ground arith)
Stage-cases closed = inl refl

module _ (parts : Parts) where
  indexed-index_page :
      (page : Page parts) (v : parts.faiss.Vector) (x : Indexes parts)
      → (let y = index_page parts page v x in y.indexed + y.lost) ≡ suc (x.indexed + x.lost)
  unfolding index_page
  indexed-index_page page v x = ground arith

  indexed-index_rows :
      (i : ℕ) (pages : List (Page parts)) (rows : ℕ → parts.faiss.Vector) (x : Indexes parts)
      → (let y = index_rows parts i pages rows x in y.indexed + y.lost)
        ≡ x.indexed + x.lost + length pages
  unfolding index_rows
  indexed-index_rows i [] rows x = omega arith
  indexed-index_rows i (page ∷ pages) rows x = omega (
    arith,
    indexed-index_rows (suc i) pages rows (index_page parts page (rows i) x),
    indexed-index_page page (rows i) x,
  )

  pub indexed-flush :
      (pages : List (Page parts)) (x : Indexes parts)
      → (let y = flush parts pages x in y.indexed + y.lost) ≡ x.indexed + x.lost + length pages
  unfolding flush
  indexed-flush [] x = omega arith
  indexed-flush (page ∷ pages) x = indexed-index_rows 0 (page ∷ pages) _ x

  pub indexed-batch_page :
      (n : ℕ) (page : Page parts) (batch : List (Page parts)) (x : Indexes parts)
      → let (batch', x') = batch_page parts n page (batch, x) in
        x'.indexed + x'.lost + length batch' ≡ suc (x.indexed + x.lost + length batch)
  unfolding batch_page
  indexed-batch_page n page batch x =
      let grown = length-append {0} batch (page ∷ []) in
      elim (Bool-cases (leb n (length (batch ++ page ∷ [])))) [
        | inl full ↦ rw full (omega (arith, indexed-flush (batch ++ page ∷ []) x, grown))
        | inr space ↦ rw space (omega (arith, grown))
      ]
