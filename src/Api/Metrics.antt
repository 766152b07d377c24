-- ===== src/Api/Metrics.antt =====
-- api/metrics.py: `MetricsRegistry.record` and `MetricsMiddleware`. Latencies are nanoseconds of
-- the performance counter.
pub mod Counts
pub mod Prometheus
pub mod Scrape
mod Tests
use Prim.Native.String.{String}
use axon_search.Base.{ℕ, ◌+◌, ◌-◌, Option, none, some, List, [], ◌∷◌, ite}
use axon_search.Base.Dict.{text_discrete}
use axon_search.Base.Counter.{add_to}
use axon_search.Api.{Request, Response, Answer}
use native.Mathlib.Decide.{ℕ_discrete}

abbrev pub Route : Type 0
Route = String × String

abbrev pub RouteStatus : Type 0
RouteStatus = String × String × ℕ

pub Route-discrete : Discrete Route
Route-discrete = hlevel text_discrete

pub RouteStatus-discrete : Discrete RouteStatus
RouteStatus-discrete = hlevel (ℕ_discrete, text_discrete)

pub record Registry : Type 0 where
  pub request_counts : List (RouteStatus × ℕ)
  pub latency_sum : List (Route × ℕ)
  pub latency_count : List (Route × ℕ)

abbrev pub empty : Registry
empty = record { request_counts = []; latency_sum = []; latency_count = [] }

unfoldable pub record_request : String → String → ℕ → ℕ → Registry → Registry
record_request method path status duration r = record {
  request_counts = add_to RouteStatus-discrete (method, path, status) 1 r.request_counts;
  latency_sum = add_to Route-discrete (method, path) duration r.latency_sum;
  latency_count = add_to Route-discrete (method, path) 1 r.latency_count;
}

-- The route's template where the router found one, and the raw path otherwise.
unfoldable pub label : Request → String
label request = elim request.route [ none ↦ request.path | some path ↦ path ]

-- What `dispatch` does with what `call_next` gives: an exception goes on unrecorded.
unfoldable pub record_answer : Request → ℕ → Answer → Registry → Registry
unfolding record_request label
record_answer request duration none r = r
record_answer request duration (some response) r =
    record_request request.method (label request) response.status duration r

-- `dispatch`, between the readings `t0` and `t1` of the counter.
unfoldable pub dispatch :
    {S : Type 0}
    → (Request → S → Answer × S)
    → ℕ
    → ℕ
    → Request
    → Registry × S
    → Answer × (Registry × S)
unfolding record_answer
dispatch call_next t0 t1 request (r, s) =
    let (answer, s') = call_next request s in
    (answer, (record_answer request (t1 - t0) answer r, s'))
