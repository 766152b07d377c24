-- ===== src/Api/SearchRoute/Keys.antt =====
-- api/routes/search.py: the key of a request in the cache of results.
use mathlib.Core.List.{Perm}
use axon_search.Base.{◌≡◌, ◌↔◌, List, [], ◌∷◌, arith}
use axon_search.Cache.Keys.{Normal, value, pairs, normalise, make_key, sort_same, same_sort}
use axon_search.Api.SearchRoute.{Plain, text, number, flag, SearchRequest, Services, request_key}

-- The same request, but for the order of the filters.
pub record IsSame (r r' : SearchRequest) : Type 0 where
  pub query : r.query ≡ r'.query
  pub top_k : r.top_k ≡ r'.top_k
  pub offset : r.offset ≡ r'.offset
  pub rerank : r.rerank ≡ r'.rerank
  pub neural_filter : r.neural_filter ≡ r'.neural_filter
  pub filters : Perm r.filters r'.filters

module _ (services : Services) where
  pub key_of_same :
      (r r' : SearchRequest) → IsSame r r' → request_key services r ≡ request_key services r'
  unfolding request_key make_key normalise
  key_of_same r r' s = λ i. services.repr (
      value (text (s.query i))
      ∷ value (number (s.top_k i))
      ∷ value (number (s.offset i))
      ∷ value (flag (s.rerank i))
      ∷ value (flag (s.neural_filter i))
      ∷ pairs (sort_same r.filters r'.filters s.filters i)
      ∷ [])

  -- Two requests have one key in the cache if and only if they are the same but for the order of
  -- their filters, where `repr` gives different tuples different texts.
  pub request_key-IsSame :
      ((xs ys : List (Normal Plain)) → services.repr xs ≡ services.repr ys → xs ≡ ys)
      → (r r' : SearchRequest) → (request_key services r ≡ request_key services r') ↔ IsSame r r'
  unfolding request_key make_key normalise
  request_key-IsSame injective r r' = (
    λ e.
        let same = injective _ _ e in
        record {
          query = (ground (arith, same));
          top_k = (ground (arith, same));
          offset = (ground (arith, same));
          rerank = (ground (arith, same));
          neural_filter = (ground (arith, same));
          filters = same_sort r.filters r'.filters (ground (arith, same));
        },
    key_of_same r r',
  )
