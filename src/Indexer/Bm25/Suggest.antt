-- ===== src/Indexer/Bm25/Suggest.antt =====
-- `BM25Index.suggest` (indexer/bm25.py).
use axon_search.Base.{
  ℕ, ◌≡◌, ◌≢◌, refl, List, [], ◌∷◌, map, arith, keep, take, ltb, ◌==◌, ◌||◌, ◌&&◌,
}
use axon_search.Base.Text.{Text, lower, strip, starts_with, text_leb}
use axon_search.Base.Text.Order.{text_leb_total, text_leb_trans}
use axon_search.Base.Sort.{IsOrder, sort}
use axon_search.Base.Top.{IsTop, take-sort-IsTop}
use axon_search.Indexer.Bm25.{Env, Index}
use axon_search.Indexer.Bm25.Search.{suggest_leb, suggest}

module _ (env : Env) where
  suggest_leb-IsOrder : IsOrder (suggest_leb env)
  unfolding suggest_leb
  suggest_leb-IsOrder = record {
    total = λ a b h. ground (arith, text_leb_total a.0 b.0);
    trans = λ a b c h k. ground (arith, text_leb_trans a.0 b.0 c.0);
  }

  -- The words of the vocabulary that a suggestion for `prefix` may be.
  abbrev pub matches : Text → Index env → List (Text × ℕ)
  matches prefix idx = keep (λ pair. starts_with pair.0 (lower (strip prefix))) idx.vocab_freq

  -- For a prefix that is not blank the suggestions are the best `limit` of the vocabulary's words
  -- that start with it: the most frequent first, equally frequent ones in alphabetical order.
  pub suggest-IsTop :
      (prefix : Text) (limit : ℕ) (idx : Index env)
      → lower (strip prefix) ≢ []
      → (pairs : List (Text × ℕ)) × (suggest env prefix limit idx ≡ map (λ pair. pair.0) pairs)
        × IsTop
            (λ x y. ltb y.1 x.1 || (y.1 == x.1 && text_leb x.0 y.0))
            limit
            (matches prefix idx)
            pairs
  unfolding suggest suggest_leb
  suggest-IsTop prefix limit idx h = (
    take limit (sort (suggest_leb env) (matches prefix idx)),
    go (lower (strip prefix)) refl,
    take-sort-IsTop (suggest_leb env) suggest_leb-IsOrder limit (matches prefix idx),
  )
    where
      go :
          (p : Text)
          → lower (strip prefix) ≡ p
          → suggest env prefix limit idx
            ≡ map (λ pair. pair.0) (take limit (sort (suggest_leb env) (matches prefix idx)))
      go [] e = absurd (h e)
      go (c ∷ cs) e = rw (e, suggest) refl
