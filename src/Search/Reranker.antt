-- ===== src/Search/Reranker.antt =====
-- search/reranker.py: `CrossEncoderReranker`. The model's `predict` is a parameter.
pub mod Order
pub mod Snippet
mod Tests
use axon_search.Base.{
  ℕ, zero, suc, ◌+◌, Bool, true, false, Option, none, some, List, [], ◌∷◌, ◌++◌, map, ltb,
  if◌then◌else◌, length, take, drop, keep,
}
use axon_search.Base.Dict.{nat_key, lookup, contains}
use axon_search.Base.Text.{Text, codes, str_key, lower, strip, split}
use axon_search.Base.Sort.{sort}
use axon_search.Base.Floats.{Floats}
use axon_search.Search.Retriever.{SearchResult}

-- `for i in range(0, len(xs), n): out.extend(predict(xs[i : i + n]))`, by the number of items left
-- at most. A batch has at least one item.
unfoldable pub batches : {A B : Type 0} → (List A → List B) → ℕ → ℕ → List A → List B
batches predict zero n xs = []
batches predict (suc fuel) n [] = []
batches predict (suc fuel) n (x ∷ xs) =
    predict (take n (x ∷ xs)) ++ batches predict fuel n (drop n (x ∷ xs))

unfoldable pub batch_score : {A B : Type 0} → (List A → List B) → ℕ → List A → List B
batch_score predict batch_size pairs = batches predict (length pairs) batch_size pairs

module _ (f : Floats) where
  open f use {Float}

  -- `text_map[r.doc_id]` where it is there, and the title with the snippet otherwise.
  unfoldable pub passage_of : Option (List (ℕ × Text)) → SearchResult f → Text
  passage_of text_map r =
      let from_title = strip (r.title ++ codes ". " ++ r.snippet) in
      elim text_map [
        | none ↦ from_title
        | some texts ↦ elim (lookup r.doc_id texts) [ none ↦ from_title | some text ↦ text ]
      ]

  -- `for result, score in zip(results, scores): ...`
  unfoldable pub set_scores : List (SearchResult f) → List Float → List (SearchResult f)
  set_scores (r ∷ rs) (s ∷ ss) = record r { rerank_score = some s } ∷ set_scores rs ss
  set_scores rs _ = rs

  -- The order of `results.sort(key=lambda r: r.rerank_score or 0.0, reverse=True)`.
  unfoldable pub sort_score : SearchResult f → Float
  sort_score r = elim r.rerank_score [ none ↦ f.zero | some s ↦ s ]

  unfoldable pub scores_before : SearchResult f → SearchResult f → Bool
  unfolding sort_score
  scores_before r s = f.leb (sort_score s) (sort_score r)

  -- `results[:top_k] if top_k else results`
  unfoldable pub cut : {A : Type 0} → Option ℕ → List A → List A
  cut (some (suc k)) xs = take (suc k) xs
  cut _ xs = xs

  unfoldable pub rescore :
      (List (Text × Text) → List Float)
      → ℕ
      → Text
      → List (SearchResult f)
      → Option (List (ℕ × Text))
      → List (SearchResult f)
  unfolding passage_of set_scores
  rescore predict batch_size query results text_map =
      let pairs = map (λ r. (query, passage_of text_map r)) results in
      set_scores results (batch_score predict batch_size pairs)

  unfoldable pub rerank :
      (List (Text × Text) → List Float)
      → ℕ
      → Text
      → List (SearchResult f)
      → Option (List (ℕ × Text))
      → Option ℕ
      → List (SearchResult f)
  unfolding rescore scores_before cut
  rerank predict batch_size query [] text_map top_k = []
  rerank predict batch_size query (r ∷ rs) text_map top_k =
      cut top_k (sort scores_before (rescore predict batch_size query (r ∷ rs) text_map))

-- The number of query words in a chunk.
unfoldable pub count_hits : List Text → List Text → ℕ
count_hits query_set chunk = length (keep (λ t. contains (lower t) query_set) chunk)

-- The loop over the start of the window, from position `i` on.
unfoldable pub best_window : List Text → ℕ → ℕ → List Text → ℕ × ℕ → ℕ × ℕ
best_window query_set window i [] best = best
best_window query_set window i (t ∷ tokens) (best_start, best_hits) =
    let hits = count_hits query_set (take window (t ∷ tokens)) in
    best_window query_set window (suc i) tokens
      (if ltb best_hits hits then (i, hits) else (best_start, best_hits))

-- `" ".join(tokens)`
unfoldable pub join : List Text → Text
join [] = []
join (t ∷ []) = t
join (t ∷ u ∷ tokens) = t ++ 32 ∷ join (u ∷ tokens)

unfoldable pub generate_snippet : Text → List Text → ℕ → ℕ → Text
unfolding best_window join
generate_snippet text query_terms window max_length =
    let tokens = split text in
    let (best_start, best_hits) = best_window (map lower query_terms) window 0 tokens (0, 0) in
    let snippet = join (take window (drop best_start tokens)) in
    let begun = if ltb 0 best_start then 0x2026 ∷ 32 ∷ snippet else snippet in
    let ended =
      if ltb (best_start + window) (length tokens) then begun ++ 32 ∷ 0x2026 ∷ [] else begun in
    take max_length ended
