-- ===== src/Api/Stack/Safety.antt =====
-- What the middleware lets through to the handlers, and what it records (api/server.py).
use mathlib.Core.Path.{subst}
use Prim.Native.String.{String}
use axon_search.Base.Dict.{text_key, contains}
use axon_search.Base.{
  ℕ, ◌+◌, ◌≡◌, refl, ◌∙◌, ap, ◌⊎◌, inl, inr, true, false, ◌||◌, List, [], ◌∷◌, arith, Bool-cases,
  leb, Option-cases, sym, ◌≢◌, In, if_neg, Option, none, some,
}
use axon_search.Base.Counter.{total, total-add_to}
use axon_search.Api.{Request, is_exempt, Answer, exempt_paths}
use axon_search.Api.Auth
use axon_search.Api.Auth.{is_empty, is_accepted}
use axon_search.Api.Metrics
use axon_search.Api.Metrics.{
  Registry, empty, label, record_request, RouteStatus-discrete, record_answer,
}
use axon_search.Api.Metrics.Counts.{IsBalanced, record_request-IsBalanced}
use axon_search.Api.RateLimit
use axon_search.Api.RateLimit.{Hits, visit, client_key}
use axon_search.Config.{Settings}
use axon_search.Api.Stack.{Times, serve, serve_all}

-- An answer that is a response with the status.
abbrev pub HasStatus : ℕ → Answer → Type 0
HasStatus status none = ⊥
HasStatus status (some response) = response.status ≡ status

-- The limiter forwards a request with the handler's state, or answers 429 without it.
data Limited {S : Type 0} (next : Request → S → Answer × S) (request : Request) (s : S)
    (out : Answer × (Hits × S)) : Type 0 where
  forwarded : out.0 ≡ (next request s).0 → out.1.1 ≡ (next request s).1 → Limited next request s out
  limited : HasStatus 429 out.0 → out.1.1 ≡ s → Limited next request s out

limiter-Limited :
    {S : Type 0} (limit : ℕ) (next : Request → S → Answer × S) (now : ℕ) (request : Request)
    (hits : Hits) (s : S)
    → Limited next request s (RateLimit.dispatch limit next now request (hits, s))
unfolding RateLimit.dispatch
limiter-Limited limit next now request hits s =
    elim (Bool-cases (leb limit 0 || is_exempt request)) [
      | inl open' ↦ rw open' (forwarded refl refl)
      | inr closed ↦ elim (Option-cases (visit limit now (client_key request) hits).0) [
        | inl free ↦ rw (closed, free) (forwarded refl refl)
        | inr (wait, full) ↦ rw (closed, full) (limited refl refl)
      ]
    ]

-- Keys are set, and the request, whose path is none of the exempt ones, shows none of them.
pub record IsUnauthorised (settings : Settings) (request : Request) : Type 0 where
  pub keyed : settings.api_keys ≢ []
  pub guarded : (path : String) → In path exempt_paths → request.path ≢ path
  pub unknown : (key : String) → In key settings.api_keys → request.api_key ≢ some key

absent-contains :
    (x : String) (ys : List String) → ((y : String) → In y ys → x ≢ y) → contains x ys ≡ false
unfolding contains
absent-contains x [] h = refl
absent-contains x (y ∷ ys) h =
    if_neg (text_key.dec_eq y x) (λ e. h y (inl refl) (sym e)) true (contains x ys)
    ∙ absent-contains x ys (λ z i. h z (inr i))

absent-is_accepted :
    (keys : List String) (shown : Option String)
    → ((key : String) → In key keys → shown ≢ some key)
    → is_accepted keys shown ≡ false
unfolding is_accepted
absent-is_accepted keys none h = refl
absent-is_accepted keys (some key) h = absent-contains key keys (λ k i e. h k i (ap some e))

keyed-is_empty : (keys : List String) → keys ≢ [] → is_empty keys ≡ false
keyed-is_empty [] h = absurd (h refl)
keyed-is_empty (k ∷ ks) h = refl

module _ {S : Type 0} (settings : Settings) (handler : Request → S → Answer × S) where
  abbrev guard : Request → S → Answer × S
  guard = Auth.dispatch settings.api_keys handler

  auth_refuses :
      (request : Request) (s : S)
      → IsUnauthorised settings request
      → ((guard request s).1 ≡ s) × HasStatus 401 (guard request s).0
  unfolding Auth.dispatch is_exempt
  auth_refuses request s u =
      let e₁ = keyed-is_empty settings.api_keys u.keyed in
      let e₂ = absent-contains request.path exempt_paths u.guarded in
      let e₃ = absent-is_accepted settings.api_keys request.api_key u.unknown in
      rw (e₁, e₂, e₃) (refl, refl)

  -- Where API keys are set, a request that is not exempt and shows none of them never reaches the
  -- handlers: their state stays as it was, and the answer is 401, or 429 from the limiter in front.
  pub serve_unauthorised :
      (t : Times) (request : Request) (r : Registry) (hits : Hits) (s : S)
      → IsUnauthorised settings request
      → let (answer, state) = serve settings handler t request (r, (hits, s)) in
        (state.1.1 ≡ s) × (HasStatus 401 answer ⊎ HasStatus 429 answer)
  unfolding serve Metrics.dispatch
  serve_unauthorised t request r hits s u =
      let limit = settings.rate_limit_per_minute in
      let (same, refused) = auth_refuses request s u in
      elim (limiter-Limited limit guard t.now request hits s) [
        | forwarded e₁ e₂ ↦ (e₂ ∙ same, inl (subst (HasStatus 401) (sym e₁) refused))
        | limited e₁ e₂ ↦ (e₂, inr e₁)
      ]

  serve-registry :
      (t : Times) (request : Request) (state : Registry × (Hits × S))
      → (d : ℕ) × (let (answer, after) = serve settings handler t request state in
          after.0 ≡ record_answer request d answer state.0)
  unfolding serve Metrics.dispatch
  serve-registry t request state = (_, refl)

  -- How many requests are answered, and not ended by an exception of a handler.
  abbrev answered_by : Answer → ℕ
  answered_by none = 0
  answered_by (some response) = 1

  unfoldable pub answered : List (Times × Request) → Registry × (Hits × S) → ℕ
  answered [] state = 0
  answered ((t, request) ∷ rest) state =
      let (answer, state') = serve settings handler t request state in
      answered_by answer + answered rest state'

  record_answer-counts :
      (request : Request) (d : ℕ) (answer : Answer) (r : Registry)
      → IsBalanced r
      → let r' = record_answer request d answer r in
        (total r'.request_counts ≡ total r.request_counts + answered_by answer) × IsBalanced r'
  unfolding record_answer record_request
  record_answer-counts request d none r b = (omega arith, b)
  record_answer-counts request d (some response) r b = (
    total-add_to RouteStatus-discrete (request.method, label request, response.status) 1
        r.request_counts,
    record_request-IsBalanced request.method (label request) response.status d r b,
  )

  -- Every request that is answered is recorded exactly once, the refused ones too, and one that an
  -- exception of its handler ends is not recorded: the request counts grow by the number of requests
  -- answered, and for each route they agree with the latency count.
  pub serve_all-counts :
      (requests : List (Times × Request)) (state : Registry × (Hits × S))
      → IsBalanced state.0
      → let after = (serve_all settings handler requests state).0 in
        (total after.request_counts ≡ total state.0.request_counts + answered requests state)
        × IsBalanced after
  unfolding serve_all answered
  serve_all-counts [] state b = (omega arith, b)
  serve_all-counts ((t, request) ∷ rest) state b =
      let (answer, next) = serve settings handler t request state in
      let (d, e) = serve-registry t request state in
      let (one, kept) = record_answer-counts request d answer state.0 b in
      let b' : IsBalanced next.0 = subst IsBalanced (sym e) kept in
      let (sum, bal) = serve_all-counts rest next b' in
      (omega (arith, sum, ap (λ x. total x.request_counts) e, one), bal)

  -- The exempt paths stay open and free: whatever the settings, the handlers answer the request,
  -- and no window of the limiter changes.
  serve_exempt :
      (t : Times) (request : Request) (r : Registry) (hits : Hits) (s : S)
      → is_exempt request ≡ true
      → let (response, state) = serve settings handler t request (r, (hits, s)) in
        (response ≡ (handler request s).0)
        × (state.1.1 ≡ (handler request s).1)
        × (state.1.0 ≡ hits)
  unfolding serve Metrics.dispatch RateLimit.dispatch Auth.dispatch
  serve_exempt t request r hits s open' = (ground arith, ground arith, ground arith)
