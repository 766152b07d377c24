-- ===== src/Api/Schemas/Tests.antt =====
-- Requests that are accepted and refused, and an instance of the theorem about them.
use axon_search.Base.{◌≡◌, refl, ◌≤◌, true, none, some, [], length}
use axon_search.Base.Text.{codes, strip}
use axon_search.Api.SearchRoute.{SearchRequest, compute}
use axon_search.Api.SearchRoute.Samples.{services, app}
use axon_search.Api.Schemas.{pos, negsuc, SearchBody, search_request}
use axon_search.Api.Schemas.Bounds.{search_request-bounds}

abbrev body : SearchBody
body = record {
  query = some (codes " cat ");
  top_k = some (pos 5);
  offset = none;
  rerank = none;
  neural_filter = none;
  filters = none;
}

abbrev accepted : SearchRequest
accepted = record {
  query = codes "cat";
  top_k = 5;
  offset = 0;
  rerank = true;
  neural_filter = true;
  filters = [];
}

accepted_is : search_request body ≡ some accepted
unfolding search_request strip
accepted_is = refl

-- A negative number is refused, and so is 0 results.
refused :
    (search_request (record body { top_k = some (negsuc 0) }) ≡ none)
    × (search_request (record body { top_k = some (pos 0) }) ≡ none)
unfolding search_request strip
refused = (refl, refl)

-- Blanks alone pass the check of the length, and leave an empty query.
blank_accepted :
    search_request (record body { query = some (codes "  ") })
    ≡ some (record {
      query = [];
      top_k = 5;
      offset = 0;
      rerank = true;
      neural_filter = true;
      filters = [];
    })
unfolding search_request strip
blank_accepted = refl

search_request-bounds_example :
    (1 ≤ accepted.top_k)
    × (accepted.top_k ≤ 100)
    × (accepted.offset ≤ 10_000)
    × (length accepted.query ≤ 1024)
    × (strip accepted.query ≡ accepted.query)
    × (length (compute services accepted app).0.results ≤ accepted.top_k)
search_request-bounds_example = search_request-bounds services body accepted app accepted_is
