-- ===== src/Search/Reranker/Snippet.antt =====
-- The snippet (search/reranker.py).
use mathlib.Core.List.{append-nil}
use axon_search.Base.{
  ◌⊎◌, inl, inr, ℕ, zero, suc, ◌+◌, ◌≤◌, ◌<◌, ◌≡◌, refl, sym, ap, Bool, true, false, List, [], ◌∷◌,
  ◌++◌, map, arith, ltb, if◌then◌else◌, length, take, drop, Bool-cases, length-take-le, ltb→lt,
  ltb→le,
}
use mathlib.Core.Path.{subst}
use axon_search.Base.Text.{Text, codes, lower, split}
use axon_search.Search.Reranker.{count_hits, best_window, join, generate_snippet}

module _ (query_set : List Text) (window : ℕ) where
  -- The query words in the window from a position on.
  abbrev pub hits_at : ℕ → List Text → ℕ
  hits_at i xs = count_hits query_set (take window (drop i xs))

  -- From position `i` on: the best start so far, or a better one further on; no window further on
  -- has more query words.
  abbrev IsBestFrom : ℕ → List Text → ℕ × ℕ → ℕ × ℕ → Type 0
  IsBestFrom i xs best result =
      (best.1 ≤ result.1)
      × ((j : ℕ) → j < length xs → hits_at j xs ≤ result.1)
      × ((result ≡ best) ⊎ ((k : ℕ) × (result.0 ≡ i + k) × (result.1 ≡ hits_at k xs)))

  IsBestFrom-skip :
      (i : ℕ) (t : Text) (ts : List Text) (best result : ℕ × ℕ)
      → hits_at 0 (t ∷ ts) ≤ best.1
      → IsBestFrom (suc i) ts best result
      → IsBestFrom i (t ∷ ts) best result
  IsBestFrom-skip i t ts best result low (grown, top, from) = (grown, all, later from)
    where
      all : (j : ℕ) → j < suc (length ts) → hits_at j (t ∷ ts) ≤ result.1
      all zero h = omega (arith, low, grown)
      all (suc j) h = top j (omega arith)

      later :
          (result ≡ best) ⊎ ((k : ℕ) × (result.0 ≡ suc i + k) × (result.1 ≡ hits_at k ts))
          → (result ≡ best) ⊎ ((k : ℕ) × (result.0 ≡ i + k) × (result.1 ≡ hits_at k (t ∷ ts)))
      later (inl e) = inl e
      later (inr (k, e, h)) = inr (suc k, omega (arith, e), h)

  IsBestFrom-move :
      (i : ℕ) (t : Text) (ts : List Text) (best result : ℕ × ℕ)
      → best.1 < hits_at 0 (t ∷ ts)
      → IsBestFrom i (t ∷ ts) (i, hits_at 0 (t ∷ ts)) result
      → IsBestFrom i (t ∷ ts) best result
  IsBestFrom-move i t ts best result high (grown, top, inl e) =
      (omega arith, top, inr (0, omega (arith, ap (λ r. r.0) e), ap (λ r. r.1) e))
  IsBestFrom-move i t ts best result high (grown, top, inr from) = (omega arith, top, inr from)

  best_window-IsBestFrom :
      (i : ℕ) (xs : List Text) (best : ℕ × ℕ)
      → IsBestFrom i xs best (best_window query_set window i xs best)
  unfolding best_window
  best_window-IsBestFrom i [] best = (omega arith, λ j h. absurd (omega arith), inl refl)
  best_window-IsBestFrom i (t ∷ ts) best =
      let h = hits_at 0 (t ∷ ts) in
      elim (Bool-cases (ltb best.1 h)) [
        | inl more ↦
            subst (IsBestFrom i (t ∷ ts) best)
              (sym (
                ap (λ b. best_window query_set window (suc i) ts (if b then (i, h) else best))
                  more))
              (IsBestFrom-move i t ts best _ (ltb→lt best.1 h more) (
                IsBestFrom-skip i t ts (i, h) _ (omega arith)
                  (best_window-IsBestFrom (suc i) ts (i, h))))
        | inr less ↦
            subst (IsBestFrom i (t ∷ ts) best)
              (sym (
                ap (λ b. best_window query_set window (suc i) ts (if b then (i, h) else best))
                  less))
              (IsBestFrom-skip i t ts best _ (ltb→le best.1 h less)
                (best_window-IsBestFrom (suc i) ts best))
      ]

-- The marks that the source adds in turn.
shown :
    (lead trail : Bool) (snippet : Text) (n : ℕ)
    → let begun = if lead then 0x2026 ∷ 32 ∷ snippet else snippet in
      take n (if trail then begun ++ 32 ∷ 0x2026 ∷ [] else begun)
      ≡ take n
          (((if lead then codes "… " else []) ++ snippet) ++ (if trail then codes " …" else []))
shown true true snippet n = refl
shown true false snippet n = ap (take n) (sym (append-nil _))
shown false true snippet n = refl
shown false false snippet n = ap (take n) (sym (append-nil _))

zero_plus : {n : ℕ} (k : ℕ) → n ≡ 0 + k → n ≡ k
zero_plus k e = omega (arith, e)

-- The snippet that shows the window from a position on: with an ellipsis where it does not begin or
-- does not end with the text, and cut to `max_length` characters.
abbrev pub shown_from : List Text → ℕ → ℕ → ℕ → Text
shown_from tokens window max_length start =
    let lead = if ltb 0 start then codes "… " else [] in
    let trail = if ltb (start + window) (length tokens) then codes " …" else [] in
    take max_length ((lead ++ join (take window (drop start tokens))) ++ trail)

-- The snippet shows a window of the text such that no window has more query words, and it has at most
-- `max_length` characters.
pub generate_snippet_lem :
    (text : Text) (query_terms : List Text) (window max_length : ℕ)
    → let query_set = map lower query_terms in
      let tokens = split text in
      let snippet = generate_snippet text query_terms window max_length in
      (length snippet ≤ max_length)
      × ((start : ℕ) × (snippet ≡ shown_from tokens window max_length start)
          × ((j : ℕ)
              → j < length tokens
              → hits_at query_set window j tokens ≤ hits_at query_set window start tokens))
unfolding generate_snippet
generate_snippet_lem text query_terms window max_length =
    let query_set = map lower query_terms in
    let tokens = split text in
    let found = best_window query_set window 0 tokens (0, 0) in
    let (_, top, from) = best_window-IsBestFrom query_set window 0 tokens (0, 0) in
    (
      length-take-le max_length _,
      (
        found.0,
        shown (ltb 0 found.0) (ltb (found.0 + window) (length tokens)) _ max_length,
        λ j h. elim from [
          | inl e ↦ omega (arith, top j h, ap (λ r. r.1) e)
          | inr (k, e, hits) ↦
              subst (λ s. hits_at query_set window j tokens ≤ hits_at query_set window s tokens)
                (sym (zero_plus k e)) (omega (arith, top j h, hits))
        ],
      ),
    )
