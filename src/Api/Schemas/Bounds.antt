-- ===== src/Api/Schemas/Bounds.antt =====
-- What an accepted request is known to be (api/schemas.py).
use axon_search.Base.{
  ℕ, ◌≤◌, ◌≡◌, refl, true, Option, none, some, List, [], ◌∷◌, arith, length, take, map,
  length-take-le, length-map,
}
use mathlib.Core.Path.{subst}
use axon_search.Base.Text.{Text, strip}
use axon_search.Base.Text.Strip.{strip-strip, length-strip-le}
use axon_search.Api.SearchRoute.{
  SearchRequest, Services, AppState, compute, answer, respond, Candidates,
}
use axon_search.Search.QueryProcessor.{ProcessedQuery, process}
use axon_search.Api.Schemas.{
  ℤ, pos, negsuc, int_field, sized_field, or_default, SearchBody, search_request, ◌>>=◌,
}

int_field-bounds :
    (d lo hi : ℕ) (v : Option ℤ) (n : ℕ)
    → lo ≤ d
    → d ≤ hi
    → int_field d lo hi v ≡ some n
    → (lo ≤ n) × (n ≤ hi)
unfolding int_field
int_field-bounds d lo hi none n h k e = ground (arith, e)
int_field-bounds d lo hi (some (negsuc m)) n h k e = ground (arith, e)
int_field-bounds d lo hi (some (pos m)) n h k e = ground (arith, e)

sized_field-bounds :
    {A : Type 0} (lo hi : ℕ) (v : Option (List A)) (xs : List A)
    → sized_field lo hi v ≡ some xs
    → (lo ≤ length xs) × (length xs ≤ hi)
unfolding sized_field
sized_field-bounds lo hi none xs e = ground (arith, e)
sized_field-bounds lo hi (some ys) xs e = ground (arith, e)

length-map-take-le :
    {A B : Type 0} (f : A → B) (n : ℕ) (xs : List A) → length (map f (take n xs)) ≤ n
length-map-take-le f n xs = omega (arith, length-map f (take n xs), length-take-le {0} n xs)

abbrev IsChecked : SearchRequest → Type 0
IsChecked req =
    (1 ≤ req.top_k)
    × (req.top_k ≤ 100)
    × (req.offset ≤ 10_000)
    × (length req.query ≤ 1024)
    × (strip req.query ≡ req.query)

abbrev HasChecked : Option SearchRequest → Type 0
HasChecked none = Unit
HasChecked (some req) = IsChecked req

search_request-HasChecked : (body : SearchBody) → HasChecked (search_request body)
unfolding search_request
search_request-HasChecked body =
    go (sized_field 1 1024 body.query) (int_field 10 1 100 body.top_k)
      (int_field 0 0 10_000 body.offset) refl refl refl
  where
    go :
        (query : Option Text) (top_k offset : Option ℕ)
        → sized_field 1 1024 body.query ≡ query
        → int_field 10 1 100 body.top_k ≡ top_k
        → int_field 0 0 10_000 body.offset ≡ offset
        → HasChecked (
            query >>= λ q. top_k >>= λ k. offset >>= λ o. some (record {
              query = strip q;
              top_k = k;
              offset = o;
              rerank = or_default true body.rerank;
              neural_filter = or_default true body.neural_filter;
              filters = or_default [] body.filters;
            }))
    go none k o eq ek eo = tt
    go (some q) none o eq ek eo = tt
    go (some q) (some k) none eq ek eo = tt
    go (some q) (some k) (some o) eq ek eo =
        let (low, high) = int_field-bounds 10 1 100 body.top_k k (omega arith) (omega arith) ek in
        let (_, far) = int_field-bounds 0 0 10_000 body.offset o (omega arith) (omega arith) eo in
        let (_, long) = sized_field-bounds 1 1024 body.query q eq in
        (low, high, far, omega (arith, long, length-strip-le q), strip-strip q)

module _ (services : Services) where
  page-length-le :
      (req : SearchRequest) (pq : ProcessedQuery) (found : Candidates services)
      (s : AppState services)
      → length (answer services req pq found s).0.results ≤ req.top_k
  unfolding answer respond
  page-length-le req pq [] s = omega arith
  page-length-le req pq (c ∷ cs) s = length-map-take-le _ req.top_k _

  -- A search request that passes the checks asks for 1 to 100 results and skips at most 10000; its
  -- query is a stripped text of at most 1024 characters. Its answer, where none is cached, has at
  -- most as many results as it asks for.
  pub search_request-bounds :
      (body : SearchBody) (req : SearchRequest) (s : AppState services)
      → search_request body ≡ some req
      → (1 ≤ req.top_k)
        × (req.top_k ≤ 100)
        × (req.offset ≤ 10_000)
        × (length req.query ≤ 1024)
        × (strip req.query ≡ req.query)
        × (length (compute services req s).0.results ≤ req.top_k)
  unfolding compute
  search_request-bounds body req s e =
      let (low, high, far, long, stripped) = subst HasChecked e (search_request-HasChecked body) in
      (
        low,
        high,
        far,
        long,
        stripped,
        page-length-le req (process services.lookups services.query_proc req.query) _ _,
      )
