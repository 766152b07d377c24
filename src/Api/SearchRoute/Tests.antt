-- ===== src/Api/SearchRoute/Tests.antt =====
-- A search over one document, and instances of the theorems about the route.
use mathlib.Core.List.Perm
use axon_search.Base.{◌≡◌, ◌↔◌, ◌∷◌, refl, true, [], ◌++◌, arith}
use axon_search.Base.Text.{codes, str_key, text_leb, Text-discrete}
use axon_search.Base.Sort.{sort, insert_sorted}
use axon_search.Base.Strict.{first_then}
use axon_search.Cache.Keys.{make_key, normalise}
use axon_search.Cache.Limits.{IsValid}
use axon_search.Api.SearchRoute.{SearchRequest, request_key, compute, serve, search}
use axon_search.Api.SearchRoute.Paging.{page_request, urls, compute-append, search-serve}
use axon_search.Api.SearchRoute.Keys.{IsSame, request_key-IsSame}
use axon_search.Api.SearchRoute.Repr.{repr_injective}
use axon_search.Api.SearchRoute.Samples.{services, blank_cache, app}

compute-append_example :
    urls services (compute services (page_request services (codes "cat") [] 0 1) app).0
      ++ urls services (compute services (page_request services (codes "cat") [] 1 1) app).0
    ≡ urls services (compute services (page_request services (codes "cat") [] 0 2) app).0
compute-append_example = compute-append services (codes "cat") [] 0 1 1 app

abbrev cats : SearchRequest
cats = record {
  query = codes "cat";
  top_k = 10;
  offset = 0;
  rerank = true;
  neural_filter = true;
  filters = [];
}

blank_cache-IsValid : IsValid blank_cache
blank_cache-IsValid = record { bounded = omega arith; distinct = tt }

abbrev site_first : SearchRequest
site_first = record cats { filters = (codes "site", codes "a") ∷ (codes "intent", codes "b") ∷ [] }

abbrev intent_first : SearchRequest
intent_first = record cats {
  filters = (codes "intent", codes "b") ∷ (codes "site", codes "a") ∷ [];
}

swapped : IsSame intent_first site_first
swapped = record {
  query = refl;
  top_k = refl;
  offset = refl;
  rerank = refl;
  neural_filter = refl;
  filters = Perm.swap (codes "site", codes "a") (codes "intent", codes "b") [];
}

search-serve_example :
    let (response, s') = serve services 5 site_first app in
    (search services 35 36 intent_first s').0 ≡ record response { cached = true }
search-serve_example =
    search-serve services 5 35 36 site_first intent_first app blank_cache swapped refl
      blank_cache-IsValid (omega arith) (omega arith) (omega arith)

one_key : request_key services site_first ≡ request_key services intent_first
unfolding request_key make_key normalise sort insert_sorted first_then text_leb Text-discrete
one_key = refl

request_key-IsSame_example :
    (request_key services site_first ≡ request_key services intent_first)
    ↔ IsSame site_first intent_first
request_key-IsSame_example = request_key-IsSame services repr_injective site_first intent_first
