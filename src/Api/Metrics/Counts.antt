-- ===== src/Api/Metrics/Counts.antt =====
-- Sums over the counters of the registry (api/metrics.py).
use Prim.Native.String.{String}
use axon_search.Base.{ℕ, ◌+◌, ◌≡◌, ite, List, [], ◌∷◌, arith}
use axon_search.Base.Counter.{add_to, value, value-add_to}
use axon_search.Api.Metrics.{
  Route, RouteStatus, Route-discrete, RouteStatus-discrete, Registry, record_request,
}

-- The sum over the entries of one route, whatever their status.
unfoldable pub count_for : Route → List (RouteStatus × ℕ) → ℕ
count_for route [] = 0
count_for route (((m, p, s), n) ∷ d) = ite (Route-discrete (m, p) route) n 0 + count_for route d

count_for-add_to :
    (route : Route) (m p : String) (s n : ℕ) (d : List (RouteStatus × ℕ))
    → count_for route (add_to RouteStatus-discrete (m, p, s) n d)
      ≡ count_for route d + ite (Route-discrete (m, p) route) n 0
unfolding count_for add_to
count_for-add_to route m p s n [] = ground arith
count_for-add_to route m p s n (((m', p', s'), k) ∷ d) =
    ground (arith, count_for-add_to route m p s n d)

-- For every route the counts by status add up to the number of timed requests.
pub record IsBalanced (r : Registry) : Type 0 where
  pub balanced :
      (route : Route)
      → count_for route r.request_counts ≡ value Route-discrete route r.latency_count

-- The empty registry is balanced, and every recording keeps the balance.
pub record_request-IsBalanced :
    (m p : String) (s d : ℕ) (r : Registry) → IsBalanced r → IsBalanced (record_request m p s d r)
unfolding record_request
record_request-IsBalanced m p s d r h = record {
  balanced = λ route. omega (
    arith,
    h.balanced route,
    count_for-add_to route m p s 1 r.request_counts,
    value-add_to Route-discrete (m, p) route 1 r.latency_count,
  );
}
