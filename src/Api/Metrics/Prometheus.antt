-- ===== src/Api/Metrics/Prometheus.antt =====
-- api/metrics.py: `MetricsRegistry.render_prometheus`. The texts of the numbers are a parameter.
use Prim.Native.String.{String, ◌++◌ as ◌+++◌}
use axon_search.Base.{ℕ, ◌-◌, Bool, List, [], ◌∷◌, ◌++◌, map, leb}
use axon_search.Base.Dict.{text_discrete}
use axon_search.Base.Text.{codes, text_leb}
use axon_search.Base.Sort.{sort}
use axon_search.Base.Strict.{first_then}
use axon_search.Api.Metrics.{Route, RouteStatus, Route-discrete, RouteStatus-discrete, Registry}

-- `str` of a number, and a number of nanoseconds as seconds with so many decimals.
pub record Format : Type 0 where
  pub int : ℕ → String
  pub seconds : ℕ → ℕ → String

-- The order of strings, and of the tuples that `sorted` compares.
abbrev pub string_leb : String → String → Bool
string_leb s t = text_leb (codes s) (codes t)

abbrev pub route_leb : Route → Route → Bool
route_leb = first_then text_discrete string_leb string_leb

abbrev pub nested : RouteStatus → Route × ℕ
nested (method, path, status) = ((method, path), status)

abbrev pub status_leb : RouteStatus → RouteStatus → Bool
status_leb x y = first_then Route-discrete route_leb leb (nested x) (nested y)

abbrev pub item_leb : {K : Type 0} → Discrete K → (K → K → Bool) → K × ℕ → K × ℕ → Bool
item_leb dec le = first_then dec le leb

unfoldable pub joined : List String → String
joined [] = ""
joined (s ∷ ss) = ◌+++◌ s (joined ss)

-- `"\n".join(lines) + "\n"`
unfoldable pub text_of : List String → String
unfolding joined
text_of lines = joined (map (λ line. ◌+++◌ line "\n") lines)

module _ (format : Format) where
  unfoldable pub count_line : RouteStatus × ℕ → String
  unfolding joined
  count_line ((method, path, status), count) = joined (
      "axon_http_requests_total{method=\""
      ∷ method
      ∷ "\",path=\""
      ∷ path
      ∷ "\",status=\""
      ∷ format.int status
      ∷ "\"} "
      ∷ format.int count
      ∷ [])

  unfoldable pub route_line : String → String → Route → String
  unfolding joined
  route_line name value (method, path) =
      joined (name ∷ "{method=\"" ∷ method ∷ "\",path=\"" ∷ path ∷ "\"} " ∷ value ∷ [])

  unfoldable pub count_lines : Registry → List String
  unfolding count_line first_then
  count_lines r = map count_line (sort (item_leb RouteStatus-discrete status_leb) r.request_counts)

  unfoldable pub sum_lines : Registry → List String
  unfolding route_line first_then
  sum_lines r =
      map (λ x. route_line "axon_http_request_duration_seconds_sum" (format.seconds 6 x.1) x.0)
        (sort (item_leb Route-discrete route_leb) r.latency_sum)

  unfoldable pub timed_lines : Registry → List String
  unfolding route_line first_then
  timed_lines r =
      map (λ x. route_line "axon_http_request_duration_seconds_count" (format.int x.1) x.0)
        (sort (item_leb Route-discrete route_leb) r.latency_count)

  -- The text at the time `now`, for a registry made at the time `started_at`.
  unfoldable pub render_prometheus : ℕ → ℕ → Registry → String
  unfolding count_lines sum_lines timed_lines text_of
  render_prometheus started_at now r = text_of (
      "# HELP axon_http_requests_total Total HTTP requests handled"
        ∷ "# TYPE axon_http_requests_total counter"
        ∷ count_lines r
      ++ "# HELP axon_http_request_duration_seconds_sum Cumulative request duration"
        ∷ "# TYPE axon_http_request_duration_seconds_sum counter"
        ∷ sum_lines r
      ++ "# HELP axon_http_request_duration_seconds_count Requests timed"
        ∷ "# TYPE axon_http_request_duration_seconds_count counter"
        ∷ timed_lines r
      ++ "# HELP axon_uptime_seconds Seconds since process start"
        ∷ "# TYPE axon_uptime_seconds gauge"
        ∷ ◌+++◌ "axon_uptime_seconds " (format.seconds 2 (now - started_at))
        ∷ [])
