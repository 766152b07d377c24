-- ===== src/Api/Metrics/Scrape.antt =====
-- api/metrics.py: the lines of a scrape and the order of the requests that were recorded.
use Prim.Native.String.{String}
use axon_search.Base.{ℕ, ◌≡◌, ap, map, leb}
use axon_search.Base.Text.{codes, text_leb}
use axon_search.Base.Text.Order.{codes_injective}
use axon_search.Base.Strict.{
  first_then, IsStrict, text_leb-IsStrict, leb-IsStrict, lexicographic, by_value,
}
use axon_search.Base.Dict.{text_discrete}
use axon_search.Base.Commute.{sort-add_to_comm}
use axon_search.Api.Metrics.{
  Route, RouteStatus, Route-discrete, RouteStatus-discrete, Registry, record_request,
}
use axon_search.Api.Metrics.Prometheus.{
  Format, string_leb, route_leb, nested, status_leb, item_leb, count_line, count_lines, timed_lines,
}

string_leb-IsStrict : IsStrict string_leb
string_leb-IsStrict = by_value codes codes_injective text_leb text_leb-IsStrict

route_leb-IsStrict : IsStrict route_leb
route_leb-IsStrict =
    lexicographic text_discrete string_leb string_leb string_leb-IsStrict string_leb-IsStrict

nested_injective : (x y : RouteStatus) → nested x ≡ nested y → x ≡ y
nested_injective x y e = ap (λ (z : Route × ℕ). (z.0.0, z.0.1, z.1)) e

status_leb-IsStrict : IsStrict status_leb
status_leb-IsStrict =
    by_value nested nested_injective (first_then Route-discrete route_leb leb)
      (lexicographic Route-discrete route_leb leb route_leb-IsStrict leb-IsStrict)

-- In a scrape, the lines of the request counts and the lines of the numbers of timed requests are the
-- same in whichever order two requests were recorded.
pub record_request_comm :
    (format : Format) (method path : String) (status duration : ℕ) (method' path' : String)
    (status' duration' : ℕ) (r : Registry)
    → let one = record_request method path status duration in
      let other = record_request method' path' status' duration' in
      (count_lines format (one (other r)) ≡ count_lines format (other (one r)))
      × (timed_lines format (one (other r)) ≡ timed_lines format (other (one r)))
unfolding count_lines timed_lines record_request
record_request_comm format method path status _ method' path' status' _ r = (
  ap (map (count_line format)) (
      sort-add_to_comm RouteStatus-discrete (item_leb RouteStatus-discrete status_leb)
        (lexicographic RouteStatus-discrete status_leb leb status_leb-IsStrict leb-IsStrict)
        (method, path, status) (method', path', status') 1 1 r.request_counts),
  ap (map _) (
      sort-add_to_comm Route-discrete (item_leb Route-discrete route_leb)
        (lexicographic Route-discrete route_leb leb route_leb-IsStrict leb-IsStrict) (method, path)
        (method', path') 1 1 r.latency_count),
)
