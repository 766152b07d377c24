-- ===== src/Search/Reranker/Order.antt =====
-- What a reranking returns (search/reranker.py).
use axon_search.Base.{
  ℕ, zero, suc, ◌≤◌, ◌<◌, ◌≡◌, refl, ap, ◌∙◌, Option, none, some, List, [], ◌∷◌, ◌++◌, map, arith,
  length, take, drop, length-drop,
}
use axon_search.Base.Text.{Text}
use mathlib.Core.Path.{subst}
use axon_search.Base.Sort.{IsOrder, sort}
use axon_search.Base.Top.{IsTop, take-sort-IsTop}
use axon_search.Base.Floats.{Floats}
use axon_search.Search.Retriever.{SearchResult}
use axon_search.Search.Reranker.{
  batches, batch_score, passage_of, set_scores, sort_score, scores_before, cut, rescore, rerank,
}

map-take-drop :
    {A B : Type 0} (score : A → B) (n : ℕ) (xs : List A)
    → map score (take n xs) ++ map score (drop n xs) ≡ map score xs
map-take-drop score zero xs = refl
map-take-drop score (suc n) [] = refl
map-take-drop score (suc n) (x ∷ xs) = ap (◌∷◌ (score x)) (map-take-drop score n xs)

module _ {A B : Type 0} (predict : List A → List B) (score : A → B)
    (each : (xs : List A) → predict xs ≡ map score xs) where
  batches-map :
      (fuel n : ℕ) (xs : List A)
      → 0 < n
      → length xs ≤ fuel
      → batches predict fuel n xs ≡ map score xs
  unfolding batches
  batches-map zero n [] pos h = refl
  batches-map zero n (x ∷ xs) pos h = absurd (omega arith)
  batches-map (suc fuel) n [] pos h = refl
  batches-map (suc fuel) n (x ∷ xs) pos h =
      ap (λ ys. ys ++ batches predict fuel n (drop n (x ∷ xs))) (each (take n (x ∷ xs)))
      ∙ ap (λ ys. map score (take n (x ∷ xs)) ++ ys)
          (batches-map fuel n (drop n (x ∷ xs)) pos (omega (arith, length-drop {0} n (x ∷ xs))))
      ∙ map-take-drop score n (x ∷ xs)

module _ (f : Floats) where
  open f use {Float}

  -- The result with a score from the model.
  abbrev pub with_score : Float → SearchResult f → SearchResult f
  with_score s r = record r { rerank_score = some s }

  -- The score of a reranked result, 0 where it has none.
  abbrev pub score_of : SearchResult f → Float
  score_of r = elim r.rerank_score [ none ↦ f.zero | some s ↦ s ]

  scores_before-IsOrder : IsOrder (scores_before f)
  unfolding scores_before
  scores_before-IsOrder = record {
    total = λ r s h. f.order.total (sort_score f s) (sort_score f r) h;
    trans = λ r s t h k. f.order.trans (sort_score f t) (sort_score f s) (sort_score f r) k h;
  }

  module _ (predict : List (Text × Text) → List Float) (score : Text × Text → Float)
      (each : (xs : List (Text × Text)) → predict xs ≡ map score xs) where
    set_scores-map :
        (g : SearchResult f → Text × Text) (rs : List (SearchResult f))
        → set_scores f rs (map score (map g rs)) ≡ map (λ r. with_score (score (g r)) r) rs
    unfolding set_scores
    set_scores-map g [] = refl
    set_scores-map g (r ∷ rs) = ap (◌∷◌ (with_score (score (g r)) r)) (set_scores-map g rs)

    rescore-map :
        (batch_size : ℕ) (query : Text) (results : List (SearchResult f))
        (text_map : Option (List (ℕ × Text)))
        → 0 < batch_size
        → rescore f predict batch_size query results text_map
          ≡ map (λ r. with_score (score (query, passage_of f text_map r)) r) results
    unfolding rescore batch_score
    rescore-map batch_size query results text_map pos =
        let g : SearchResult f → Text × Text = λ r. (query, passage_of f text_map r) in
        let pairs = map g results in
        ap (set_scores f results)
          (batches-map predict score each (length pairs) batch_size pairs pos (omega arith))
        ∙ set_scores-map g results

    -- For a model that scores each pair by itself, whatever the positive batch size: the reranking
    -- gives each result the score of the query with its own passage, and returns the best `top_k`
    -- of them, a positive number, in the order of these scores.
    pub rerank-IsTop :
        (batch_size : ℕ) (query : Text) (results : List (SearchResult f))
        (text_map : Option (List (ℕ × Text))) (top_k : ℕ)
        → 0 < batch_size
        → 0 < top_k
        → IsTop
            (λ r s. f.leb (score_of s) (score_of r))
            top_k
            (map (λ r. with_score (score (query, passage_of f text_map r)) r) results)
            (rerank f predict batch_size query results text_map (some top_k))
    unfolding rerank cut scores_before sort_score
    rerank-IsTop batch_size query results text_map zero pos h = absurd (omega arith)
    rerank-IsTop batch_size query [] text_map (suc k) pos h = record {
      in_order = tt;
      bounded = omega arith;
      some_of = λ a i. i;
      no_better = λ a i. absurd i;
    }
    rerank-IsTop batch_size query (r ∷ rs) text_map (suc k) pos h =
        subst
          (λ xs. IsTop (scores_before f) (suc k) xs (
            take (suc k)
              (sort (scores_before f) (rescore f predict batch_size query (r ∷ rs) text_map))))
          (rescore-map batch_size query (r ∷ rs) text_map pos)
          (take-sort-IsTop (scores_before f) scores_before-IsOrder (suc k)
            (rescore f predict batch_size query (r ∷ rs) text_map))
