-- ===== src/Api/Tests.antt =====
-- Runs of the middleware, and instances of the theorems about it.
use mathlib.Core.Option.{some-injective}
use mathlib.Core.List.{cons≢nil}
use Prim.Native.String.{String}
use text.Mathlib.TextEquality.{eq_iff}
use axon_search.Base.{
  ℕ, suc, ◌+◌, ◌≤◌, ◌≡◌, refl, ◌⊎◌, Option, none, some, List, [], ◌∷◌, All, arith, zero, ◌≢◌, In,
  inl, inr,
}
use axon_search.Base.Dict.{text_discrete, text_key, contains, lookup, insert}
use axon_search.Api.{Request, is_exempt, Answer, exempt_paths}
use axon_search.Api.Auth.{is_accepted}
use axon_search.Api.Metrics.{Registry, empty, record_request}
use axon_search.Base.Counter.{add_to, total, value}
use axon_search.Api.Metrics.Counts.{count_for, IsBalanced}
use axon_search.Api.RateLimit.{
  Hits, client_key, drop_old, window_of, decide_window, retry_after, visit,
}
use axon_search.Api.RateLimit.Bound.{admissions, recent, recent-admissions-le}
use axon_search.Api.RateLimit.Retry.{IsBounded, visit-retry_after}
use axon_search.Config.{Settings, defaults}
use axon_search.Api.Stack.{Times, serve, serve_all}
use axon_search.Api.Stack.Safety.{
  serve_unauthorised, serve_all-counts, HasStatus, IsUnauthorised, answered,
}
use axon_search.Api.Stack.Flood.{answers, IsSpread, answers_spread}

program : Unit {0}
unfolding client_key drop_old window_of decide_window retry_after visit lookup insert contains
    is_exempt is_accepted text_discrete serve serve_all record_request admissions recent add_to
    total count_for value answers
program = tt

-- A handler that counts the requests that reach it.
abbrev count : Request → ℕ → Answer × ℕ
count request n = (some (record { status = 200; detail = "ok"; retry_after = none }), suc n)

-- A handler that raises at its first request.
abbrev stumble : Request → ℕ → Answer × ℕ
stumble request zero = (none, 1)
stumble request (suc n) = count request (suc n)

abbrev settings : Settings
settings = record defaults { api_keys = "k1" ∷ []; rate_limit_per_minute = 2 }

abbrev ask : Option String → Request
ask key = record {
  method = "GET";
  path = "/search";
  route = none;
  api_key = key;
  host = some "10.0.0.9";
}

abbrev at : ℕ → Times
at now = record { t0 = 0; now = now; t1 = 5 }

abbrev start : Registry × (Hits × ℕ)
start = (empty, ([], 0))

abbrev three : List (ℕ × String)
three = (1, "key:k1") ∷ (2, "key:k1") ∷ (3, "key:k1") ∷ []

three_lem : admissions 2 "key:k1" three [] ≡ 1 ∷ 2 ∷ []
unfolding program
three_lem = refl

served : (serve_all settings count ((at 1, ask (some "k1")) ∷ (at 2, ask none) ∷ []) start).1.1 ≡ 1
unfolding program
served = refl

recent-admissions-le_example : recent 9 (admissions 2 "key:k1" three []) ≤ 2
recent-admissions-le_example =
    recent-admissions-le 2 "key:k1" (omega arith) three 3 9 (omega arith) (omega arith)

abbrev full : Hits
full = ("key:k1", 1 ∷ 2 ∷ []) ∷ []

full-IsBounded : IsBounded 2 full
unfolding window_of lookup
full-IsBounded key = ground arith

visit-retry_after_example : (visit 2 61_000_000_000 "key:k1" (visit 2 3 "key:k1" full).1).0 ≡ none
unfolding program
visit-retry_after_example =
    visit-retry_after 2 3 61_000_000_000 "key:k1" full 60 (omega arith) full-IsBounded refl
      (omega arith)

k2-IsUnauthorised : IsUnauthorised settings (ask (some "k2"))
k2-IsUnauthorised = record {
  keyed = cons≢nil;
  guarded = λ path i. guarded path i;
  unknown = λ key i e. unknown key i e;
}
  where
    guarded : (path : String) → In path exempt_paths → "/search" ≢ path
    guarded path (inl e) k = ground (arith, k, e, eq_iff "/search" "/health")
    guarded path (inr (inl e)) k = ground (arith, k, e, eq_iff "/search" "/metrics")
    guarded path (inr (inr (inl e))) k = ground (arith, k, e, eq_iff "/search" "/docs")
    guarded path (inr (inr (inr (inl e)))) k = ground (arith, k, e, eq_iff "/search" "/redoc")
    guarded path (inr (inr (inr (inr (inl e))))) k =
        ground (arith, k, e, eq_iff "/search" "/openapi.json")
    guarded path (inr (inr (inr (inr (inr i))))) k = absurd i

    unknown : (key : String) → In key ("k1" ∷ []) → some "k2" ≢ some key
    unknown key (inl e) k = ground (arith, e, some-injective k, eq_iff "k2" "k1")
    unknown key (inr i) k = absurd i

serve_unauthorised_example :
    let (answer, state) = serve settings count (at 7) (ask (some "k2")) start in
    (state.1.1 ≡ 0) × (HasStatus 401 answer ⊎ HasStatus 429 answer)
serve_unauthorised_example =
    serve_unauthorised settings count (at 7) (ask (some "k2")) empty [] 0 k2-IsUnauthorised

empty-IsBalanced : IsBalanced empty
unfolding count_for value
empty-IsBalanced = record { balanced = λ route. refl }

abbrev arrivals : List (Times × Request)
arrivals = (at 1, ask (some "k1")) ∷ (at 2, ask none) ∷ []

serve_all-counts_example :
    let after = (serve_all settings stumble arrivals start).0 in
    (total after.request_counts
      ≡ total empty.request_counts + answered settings stumble arrivals start)
    × IsBalanced after
serve_all-counts_example = serve_all-counts settings stumble arrivals start empty-IsBalanced

-- The first request raises, and the second one, which shows no key, is refused.
one_answered : answered settings stumble arrivals start ≡ 1
unfolding program answered
one_answered = refl

abbrev bad_keys : List (ℕ × Request)
bad_keys = (1, ask (some "a")) ∷ (2, ask (some "b")) ∷ (3, ask (some "c")) ∷ []

bad_keys-IsSpread : IsSpread bad_keys
bad_keys-IsSpread = (
  ground (arith, eq_iff "a" ""),
  (
    (ground (arith, eq_iff "a" "b"), (ground (arith, eq_iff "a" "c"), tt)),
    (
      ground (arith, eq_iff "b" ""),
      ((ground (arith, eq_iff "b" "c"), tt), (ground (arith, eq_iff "c" ""), (tt, tt))),
    ),
  ),
)

answers_spread_example : All (λ (answer : Option ℕ). answer ≡ none) (answers 1 bad_keys [])
unfolding program
answers_spread_example = answers_spread 1 (omega arith) bad_keys bad_keys-IsSpread
