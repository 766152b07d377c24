-- ===== src/Api/RateLimit.antt =====
-- api/rate_limit.py: `RateLimitMiddleware`. Times are nanoseconds of the monotonic clock, and a
-- negative limit takes the branch of 0. `hits` maps a client to the times of its admitted
-- requests, oldest first.
pub mod Bound
pub mod Retry
use Prim.Native.String.{String, ◌++◌ as ◌+++◌}
use axon_search.Base.{
  ℕ, ◌+◌, ◌-◌, ◌*◌, ◌/◌, Bool, true, false, ◌||◌, Option, none, some, List, [], ◌∷◌, ◌++◌, ltb, leb,
  if◌then◌else◌, length,
}
use axon_search.Base.Dict.{text_key, lookup, insert}
use axon_search.Api.{Request, Response, is_exempt, Answer}

abbrev pub Hits : Type 0
Hits = List (String × List ℕ)

abbrev pub second : ℕ
second = 1_000_000_000

-- `_WINDOW_S`
abbrev pub window_ns : ℕ
window_ns = 60 * second

unfoldable pub client_key : Request → String
client_key r = elim r.api_key [
  | some (String.◌∷◌ c key) ↦ ◌+++◌ "key:" (String.◌∷◌ c key)
  | _ ↦ elim r.host [ some host ↦ ◌+++◌ "ip:" host | none ↦ "ip:unknown" ]
]

-- `while window and now - window[0] > _WINDOW_S: window.popleft()`
unfoldable pub drop_old : ℕ → List ℕ → List ℕ
drop_old now [] = []
drop_old now (t ∷ ts) = if ltb (t + window_ns) now then drop_old now ts else t ∷ ts

-- The seconds of the `Retry-After` header, for a window whose oldest time is `oldest`.
unfoldable pub retry_after : ℕ → ℕ → ℕ
retry_after now oldest = (oldest + window_ns - now) / second + 1

unfoldable pub window_of : String → Hits → List ℕ
window_of key hits = elim (lookup key hits) [ none ↦ [] | some w ↦ w ]

-- What the lock guards, for the window with the old times dropped: `some s` refuses the
-- request with `Retry-After: s`. An empty window is below the limit, which is positive here.
unfoldable pub decide_window : ℕ → ℕ → List ℕ → Option ℕ × List ℕ
decide_window limit now [] = (none, now ∷ [])
decide_window limit now (t ∷ ts) =
    if leb limit (length (t ∷ ts))
    then (some (retry_after now t), t ∷ ts)
    else (none, t ∷ ts ++ now ∷ [])

unfoldable pub visit : ℕ → ℕ → String → Hits → Option ℕ × Hits
visit limit now key hits =
    let (answer, window) = decide_window limit now (drop_old now (window_of key hits)) in
    (answer, insert key window hits)

-- `dispatch`, around a handler with a state of its own.
unfoldable pub dispatch :
    {S : Type 0} → ℕ → (Request → S → Answer × S) → ℕ → Request → Hits × S → Answer × (Hits × S)
dispatch limit call_next now request (hits, s) =
    if leb limit 0 || is_exempt request
    then (let (response, s') = call_next request s in (response, (hits, s')))
    else (let (answer, hits') = visit limit now (client_key request) hits in
        elim answer [
          | none ↦ let (response, s') = call_next request s in (response, (hits', s'))
          | some s_left ↦ (
            some (record {
              status = 429;
              detail = "Rate limit exceeded. Slow down and retry shortly.";
              retry_after = some s_left;
            }),
            (hits', s),
          )
        ])
