-- ===== src/Api/Stack/Flood.antt =====
-- The limiter keys its windows by the key that a request supplies, before any check of that key
-- (api/rate_limit.py, api/server.py).
use Prim.Native.String.{String, ◌++◌ as ◌+++◌, len, slice}
use text.Mathlib.TextPositions.{len-append, slice-append_right}
use axon_search.Base.{
  ℕ, ◌<◌, ◌≡◌, refl, ◌∙◌, ◌≢◌, ap, Option, none, List, [], ◌∷◌, All, sym, some, ◌+◌, arith,
}
use axon_search.Base.Dict.{text_key, lookup, insert}
use axon_search.Api.{Request}
use axon_search.Api.RateLimit.{Hits, client_key, drop_old, window_of, visit, decide_window}
use axon_search.Api.RateLimit.Bound.{window_of-insert_ne}

-- The answers to requests, with their times, in turn: `none` for those let through.
unfoldable pub answers : ℕ → List (ℕ × Request) → Hits → List (Option ℕ)
answers limit [] hits = []
answers limit ((now, request) ∷ rest) hits =
    let (answer, hits') = visit limit now (client_key request) hits in
    answer ∷ answers limit rest hits'

-- The key that a request shows, which is blank where it shows none.
abbrev pub shown : Request → String
shown request = elim request.api_key [ none ↦ "" | some key ↦ key ]

-- Each request shows a key, and no two show the same.
abbrev pub IsSpread : List (ℕ × Request) → Type 0
IsSpread [] = Unit
IsSpread ((now, request) ∷ rest) =
    (shown request ≢ "")
    × (All (λ (later : ℕ × Request). shown request ≢ shown later.1) rest × IsSpread rest)

append_injective : (s a b : String) → ◌+++◌ s a ≡ ◌+++◌ s b → a ≡ b
append_injective s a b e =
    let same : len a ≡ len b = omega (arith, len-append s a, len-append s b, ap len e) in
    sym (slice-append_right s a)
    ∙ (λ i. slice (e i) (len s) (len s + same i))
    ∙ slice-append_right s b

client_key-shown :
    (request : Request) → shown request ≢ "" → client_key request ≡ ◌+++◌ "key:" (shown request)
unfolding client_key
client_key-shown request h = go request.api_key refl
  where
    go :
        (key : Option String)
        → request.api_key ≡ key
        → client_key request ≡ ◌+++◌ "key:" (shown request)
    go none e = absurd (h (rw e refl))
    go (some String.[]) e = absurd (h (rw e refl))
    go (some (String.◌∷◌ c cs)) e = rw (e, client_key) refl

-- No two requests count for the same client.
abbrev IsApart : List (ℕ × Request) → Type 0
IsApart [] = Unit
IsApart ((now, request) ∷ rest) =
    All (λ (later : ℕ × Request). client_key request ≢ client_key later.1) rest × IsApart rest

differ :
    (r : Request) (rest : List (ℕ × Request))
    → shown r ≢ ""
    → All (λ (later : ℕ × Request). shown r ≢ shown later.1) rest
    → IsSpread rest
    → All (λ (later : ℕ × Request). client_key r ≢ client_key later.1) rest
differ r [] h apart spread = tt
differ r ((t, q) ∷ rest) h apart spread = (
  λ e. apart.0 (
      append_injective "key:" (shown r) (shown q)
        (sym (client_key-shown r h) ∙ e ∙ client_key-shown q spread.0)),
  differ r rest h apart.1 spread.1.1,
)

IsSpread-IsApart : (requests : List (ℕ × Request)) → IsSpread requests → IsApart requests
IsSpread-IsApart [] spread = tt
IsSpread-IsApart ((t, r) ∷ rest) spread =
    (differ r rest spread.0 spread.1.0 spread.1.1, IsSpread-IsApart rest spread.1.1)

-- No request's client has a window yet.
abbrev IsFresh : Hits → List (ℕ × Request) → Type 0
IsFresh hits = All (λ (r : ℕ × Request). window_of (client_key r.1) hits ≡ [])

module _ (limit : ℕ) (positive : 0 < limit) where
  visit_fresh :
      (now : ℕ) (key : String) (hits : Hits)
      → window_of key hits ≡ []
      → visit limit now key hits ≡ (none, insert key (now ∷ []) hits)
  unfolding visit drop_old decide_window
  visit_fresh now key hits e = rw e

  insert-IsFresh :
      (key : String) (w : List ℕ) (hits : Hits) (rest : List (ℕ × Request))
      → All (λ (later : ℕ × Request). key ≢ client_key later.1) rest
      → IsFresh hits rest
      → IsFresh (insert key w hits) rest
  insert-IsFresh key w hits [] n f = tt
  insert-IsFresh key w hits ((t, r) ∷ rest) n f = (
    window_of-insert_ne key (client_key r) w hits n.0 ∙ f.0,
    insert-IsFresh key w hits rest n.1 f.1,
  )

  answers_fresh :
      (requests : List (ℕ × Request)) (hits : Hits)
      → IsApart requests
      → IsFresh hits requests
      → All (λ (answer : Option ℕ). answer ≡ none) (answers limit requests hits)
  unfolding answers
  answers_fresh [] hits spread fresh = tt
  answers_fresh ((now, r) ∷ rest) hits spread fresh =
      let key = client_key r in
      let e = visit_fresh now key hits fresh.0 in
      let f = insert-IsFresh key (now ∷ []) hits rest spread.0 fresh.1 in
      (ap (λ x. x.0) e, rw e (answers_fresh rest (insert key (now ∷ []) hits) spread.1 f))

  IsFresh-start : (requests : List (ℕ × Request)) → IsFresh [] requests
  unfolding window_of lookup
  IsFresh-start [] = tt
  IsFresh-start (r ∷ rest) = (refl, IsFresh-start rest)

  -- However many requests arrive, and however fast, none is refused if each shows another key.
  pub answers_spread :
      (requests : List (ℕ × Request))
      → IsSpread requests
      → All (λ (answer : Option ℕ). answer ≡ none) (answers limit requests [])
  answers_spread requests spread =
      answers_fresh requests [] (IsSpread-IsApart requests spread) (IsFresh-start requests)
