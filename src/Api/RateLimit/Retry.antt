-- ===== src/Api/RateLimit/Retry.antt =====
-- What the `Retry-After` header promises (api/rate_limit.py).
use Prim.Native.String.{String}
use mathlib.Core.Option.{none-ne-some, some-injective}
use axon_search.Base.{
  ℕ, ◌+◌, ◌*◌, ◌≤◌, ◌<◌, ◌≡◌, refl, sym, ◌∙◌, ap, none, some, List, [], ◌∷◌, ◌++◌, arith, length,
  length-append, lt→ltb,
}
use axon_search.Base.Dict.{text_key, insert}
use axon_search.Api.RateLimit.{Hits, second, window_ns, drop_old, window_of, visit, retry_after}
use axon_search.Api.RateLimit.Bound.{
  kept, admitted, refused, visit-Visited, window_of-insert_same, window_of-insert_ne,
  length-drop_old-le,
}

-- No window holds more times than the limit.
abbrev pub IsBounded : ℕ → Hits → Type 0
IsBounded limit hits = (key : String) → length (window_of key hits) ≤ limit

-- Every visit keeps all windows within the limit.
visit-IsBounded :
    (limit now : ℕ) (key : String) (hits : Hits)
    → 0 < limit
    → IsBounded limit hits
    → IsBounded limit (visit limit now key hits).1
visit-IsBounded limit now key hits pos h other = elim (visit-Visited limit now key hits pos) [
  | admitted room e ↦ elim (text_key.dec_eq key other) [
    | yes p ↦
        let w = kept now key hits ++ now ∷ [] in
        rw e (
          omega (
            arith,
            ap length (window_of-insert_same key other w hits p),
            length-append (kept now key hits) (now ∷ []),
          ))
    | no n ↦
        rw e (rw (window_of-insert_ne key other (kept now key hits ++ now ∷ []) hits n) (h other))
  ]
  | refused t ts e₁ full e ↦ elim (text_key.dec_eq key other) [
    | yes p ↦ rw e (
        omega (
          arith,
          ap length (window_of-insert_same key other (kept now key hits) hits p),
          length-drop_old-le now (window_of key hits),
          h key,
        ))
    | no n ↦ rw e (rw (window_of-insert_ne key other (kept now key hits) hits n) (h other))
  ]
]

-- The oldest time has left the window once the announced seconds are over.
oldest_leaves :
    (now later t : ℕ) (ts : List ℕ)
    → now + retry_after now t * second ≤ later
    → drop_old later (t ∷ ts) ≡ drop_old later ts
unfolding retry_after drop_old
oldest_leaves now later t ts h = rw (lt→ltb (t + window_ns) later (omega arith))

-- A refused client that waits for the seconds of `Retry-After`, and sends nothing meanwhile, is
-- admitted at its next request.
pub visit-retry_after :
    (limit now later : ℕ) (key : String) (hits : Hits) (s : ℕ)
    → 0 < limit
    → IsBounded limit hits
    → (visit limit now key hits).0 ≡ some s
    → now + s * second ≤ later
    → (visit limit later key (visit limit now key hits).1).0 ≡ none
visit-retry_after limit now later key hits s pos h answer wait =
    elim (visit-Visited limit now key hits pos) [
      | admitted room e ↦ absurd (none-ne-some s (sym (ap (λ r. r.0) e) ∙ answer))
      | refused t ts e₁ full e ↦
          let w = kept now key hits in
          let hits' = insert key w hits in
          let announced = some-injective (retry_after now t) s (sym (ap (λ r. r.0) e) ∙ answer) in
          let wait' : now + retry_after now t * second ≤ later = rw announced wait in
          let held = window_of-insert_same key key w hits refl ∙ e₁ in
          let gone = ap (drop_old later) held ∙ oldest_leaves now later t ts wait' in
          rw e (elim (visit-Visited limit later key hits' pos) [
            | admitted room e₂ ↦ ap (λ r. r.0) e₂
            | refused u us e₂ full₂ e₃ ↦ absurd (
                omega (
                  arith,
                  ap length gone,
                  ap length e₁,
                  length-drop_old-le later ts,
                  length-drop_old-le now (window_of key hits),
                  h key,
                ))
          ])
    ]
