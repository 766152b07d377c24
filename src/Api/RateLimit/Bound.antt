-- ===== src/Api/RateLimit/Bound.antt =====
-- The sliding window of the rate limiter admits no more than its limit (api/rate_limit.py).
use Prim.Native.String.{String}
use mathlib.Core.Path.{subst}
use axon_search.Base.{
  ℕ, ◌+◌, ◌≤◌, ◌<◌, ◌≡◌, refl, sym, ◌∙◌, ap, ◌≢◌, ite, if_pos, if_neg, inl, inr, Option, none, some,
  List, [], ◌∷◌, ◌++◌, arith, leb, if◌then◌else◌, length, length-append, Bool-cases, leb→lt, leb→le,
}
use axon_search.Base.Dict.{text_key, lookup, insert, lookup-insert}
use axon_search.Api.RateLimit.{
  Hits, window_ns, drop_old, window_of, decide_window, retry_after, visit,
}

-- The time of an admission, if it is `client`'s, in front of the later ones.
logged : (Hits → List ℕ) → String → ℕ → String → Option ℕ × Hits → List ℕ
logged later client now key (none, hits) =
    ite (text_key.dec_eq key client) (now ∷ later hits) (later hits)
logged later client now key (some _, hits) = later hits

-- The times at which `client` is admitted, when the requests (time and client) arrive in turn.
unfoldable pub admissions : ℕ → String → List (ℕ × String) → Hits → List ℕ
unfolding logged
admissions limit client [] hits = []
admissions limit client ((now, key) ∷ rest) hits =
    logged (admissions limit client rest) client now key (visit limit now key hits)

-- How many of the times lie in the window that ends at `now`.
unfoldable pub recent : ℕ → List ℕ → ℕ
recent now [] = 0
recent now (t ∷ ts) = (if leb now (t + window_ns) then 1 else 0) + recent now ts

-- The arrival times do not fall, from `start` to `end`.
abbrev pub Rising : ℕ → List (ℕ × String) → ℕ → Type 0
Rising start [] end = start ≤ end
Rising start ((now, key) ∷ rest) end = (start ≤ now) × Rising now rest end

recent-append : (now : ℕ) (xs ys : List ℕ) → recent now (xs ++ ys) ≡ recent now xs + recent now ys
unfolding recent
recent-append now [] ys = omega arith
recent-append now (x ∷ xs) ys = omega (arith, recent-append now xs ys)

recent-le-length : (now : ℕ) (xs : List ℕ) → recent now xs ≤ length xs
unfolding recent
recent-le-length now [] = omega arith
recent-le-length now (x ∷ xs) = ground (arith, recent-le-length now xs)

-- Dropping the old times changes no count at this time or later.
recent-drop_old :
    (now later : ℕ) (xs : List ℕ) → now ≤ later → recent later (drop_old now xs) ≡ recent later xs
unfolding recent drop_old
recent-drop_old now later [] h = refl
recent-drop_old now later (x ∷ xs) h = ground (arith, recent-drop_old now later xs h)

pub length-drop_old-le : (now : ℕ) (xs : List ℕ) → length (drop_old now xs) ≤ length xs
unfolding drop_old
length-drop_old-le now [] = omega arith
length-drop_old-le now (x ∷ xs) = ground (arith, length-drop_old-le now xs)

pub window_of-insert :
    (key client : String) (w : List ℕ) (hits : Hits)
    → window_of client (insert key w hits)
      ≡ ite (text_key.dec_eq key client) w (window_of client hits)
unfolding window_of
window_of-insert key client w hits = ground (arith, lookup-insert key client w hits)

pub window_of-insert_same :
    (key client : String) (w : List ℕ) (hits : Hits)
    → key ≡ client
    → window_of client (insert key w hits) ≡ w
window_of-insert_same key client w hits p =
    window_of-insert key client w hits
    ∙ if_pos (text_key.dec_eq key client) p w (window_of client hits)

pub window_of-insert_ne :
    (key client : String) (w : List ℕ) (hits : Hits)
    → key ≢ client
    → window_of client (insert key w hits) ≡ window_of client hits
window_of-insert_ne key client w hits n =
    window_of-insert key client w hits
    ∙ if_neg (text_key.dec_eq key client) n w (window_of client hits)

-- The window of a client without the times that have left it.
abbrev pub kept : ℕ → String → Hits → List ℕ
kept now key hits = drop_old now (window_of key hits)

-- What a visit does: an admission needs room in the window, and puts the time last.
pub data Visited (limit now : ℕ) (key : String) (hits : Hits) (r : Option ℕ × Hits) : Type 0 where
  admitted :
      length (kept now key hits) < limit
      → r ≡ (none, insert key (kept now key hits ++ now ∷ []) hits)
      → Visited limit now key hits r
  refused :
      (t : ℕ) (ts : List ℕ)
      → kept now key hits ≡ t ∷ ts
      → limit ≤ length (kept now key hits)
      → r ≡ (some (retry_after now t), insert key (kept now key hits) hits)
      → Visited limit now key hits r

pub visit-Visited :
    (limit now : ℕ) (key : String) (hits : Hits)
    → 0 < limit
    → Visited limit now key hits (visit limit now key hits)
unfolding visit decide_window
visit-Visited limit now key hits h = go (kept now key hits) refl
  where
    go :
        (w : List ℕ) → kept now key hits ≡ w → Visited limit now key hits (visit limit now key hits)
    go [] e = admitted (rw e h) (rw e)
    go (t ∷ ts) e = elim (Bool-cases (leb limit (length (t ∷ ts)))) [
      | inl full ↦ refused t ts e (rw e (leb→le limit (length (t ∷ ts)) full)) (rw (e, full))
      | inr room ↦ admitted (rw e (leb→lt limit (length (t ∷ ts)) room)) (rw (e, room))
    ]

Rising-le : (start : ℕ) (rest : List (ℕ × String)) (end : ℕ) → Rising start rest end → start ≤ end
Rising-le start [] end h = h
Rising-le start ((t, key) ∷ rest) end h = omega (arith, Rising-le t rest end h.1)

module _ (limit : ℕ) (client : String) (now : ℕ) (key : String) (hits : Hits)
    (later : Hits → ℕ) where
  abbrev Holds : Hits → Type 0
  Holds hits' =
      length (window_of client hits') ≤ limit
      → recent now (window_of client hits') + later hits' ≤ limit

  module _ (w : List ℕ) where
    abbrev after : Hits
    after = insert key w hits

    same_step : key ≡ client → length w ≤ limit → Holds after → recent now w + later after ≤ limit
    same_step p fits ih =
        let e = window_of-insert_same key client w hits p in
        omega (arith, ap (recent now) e, ih (omega (arith, ap length e)))

    other_step :
        key ≢ client
        → length (window_of client hits) ≤ limit
        → Holds after
        → recent now (window_of client hits) + later after ≤ limit
    other_step n fits ih =
        let e = window_of-insert_ne key client w hits n in
        omega (arith, ap (recent now) e, ih (omega (arith, ap length e)))

recent-kept :
    (client key : String) (now t : ℕ) (hits : Hits)
    → t ≤ now
    → key ≡ client
    → recent now (kept t key hits) ≡ recent now (window_of client hits)
recent-kept client key now t hits past p =
    recent-drop_old t now (window_of key hits) past ∙ ap (λ k. recent now (window_of k hits)) p

module _ (limit : ℕ) (client : String) (positive : 0 < limit) where
  recent-admissions :
      (requests : List (ℕ × String)) (hits : Hits) (start end now : ℕ)
      → length (window_of client hits) ≤ limit
      → Rising start requests end
      → end ≤ now
      → recent now (window_of client hits) + recent now (admissions limit client requests hits)
        ≤ limit
  unfolding admissions recent logged
  recent-admissions [] hits start end now fits rising h =
      omega (arith, recent-le-length now (window_of client hits))
  recent-admissions ((t, key) ∷ rest) hits start end now fits rising h =
      let past : t ≤ now = omega (arith, Rising-le t rest end rising.1) in
      let later = λ (hits' : Hits). recent now (admissions limit client rest hits') in
      let ih = λ (hits' : Hits) (fits' : length (window_of client hits') ≤ limit).
        recent-admissions rest hits' t end now fits' rising.1 h in
      let same = same_step limit client now key hits later in
      let other = other_step limit client now key hits later in
      let old = kept t key hits in
      let new = old ++ t ∷ [] in
      let count = recent-kept client key now t hits past in
      let goal = λ (r : Option ℕ × Hits).
        recent now (window_of client hits)
          + recent now (logged (admissions limit client rest) client t key r)
        ≤ limit in
      elim (visit-Visited limit t key hits positive) [
        | admitted room e ↦
            let long = length-append old (t ∷ []) in
            elim (text_key.dec_eq key client) [
              | yes p ↦
                  let bound = same new p (omega (arith, long)) (ih (insert key new hits)) in
                  subst goal (sym e) (
                    rw (if_pos _ p) (omega (arith, bound, recent-append now old (t ∷ []), count p)))
              | no n ↦
                  subst goal (sym e) (rw (if_neg _ n) (other new n fits (ih (insert key new hits))))
            ]
        | refused u us e₁ full e ↦ elim (text_key.dec_eq key client) [
          | yes p ↦
              let short = length-drop_old-le t (window_of key hits) in
              let fits' = ap (λ k. length (window_of k hits)) p in
              let bound = same old p (omega (arith, short, fits')) (ih (insert key old hits)) in
              subst goal (sym e) (omega (arith, bound, count p))
          | no n ↦ subst goal (sym e) (other old n fits (ih (insert key old hits)))
        ]
      ]

  -- Among requests that arrive in turn, at rising times and from any clients, at most `limit` of
  -- one client's are admitted within any window of 60 seconds that ends after the last arrival.
  pub recent-admissions-le :
      (requests : List (ℕ × String)) (end now : ℕ)
      → Rising 0 requests end
      → end ≤ now
      → recent now (admissions limit client requests []) ≤ limit
  unfolding window_of lookup recent
  recent-admissions-le requests end now rising h =
      omega (arith, recent-admissions requests [] 0 end now (omega arith) rising h)
