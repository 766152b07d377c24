-- ===== src/Indexer/Collect.antt =====
-- The loop at the end of `BM25Index.search` and of `VectorStore.search`: candidates in rank order,
-- some skipped, until there are `top_k` results (indexer/bm25.py, indexer/vector_store.py).
use axon_search.Base.{
  ℕ, zero, suc, ◌+◌, ◌≤◌, ◌<◌, ◌≡◌, refl, sym, ◌∙◌, ap, ◌≢◌, inl, inr, true, Option, none, some,
  List, [], ◌∷◌, ◌++◌, arith, leb, if◌then◌else◌, length, take, In, All, length-append, Bool-cases,
  Option-cases, leb→le, leb→lt,
}
use axon_search.Base.Dict.{nat_key, contains}
use mathlib.Core.Bool.{false≢true}
use mathlib.Core.List.{append-nil, append_assoc}
use native.Mathlib.Decide.{ℕ_discrete}

module _ {A B : Type 0} (visit : A → Option B) where
  -- `visit` gives the result that a candidate adds, or `none` where the loop goes on.
  unfoldable pub collect : ℕ → List B → List A → List B
  collect top_k results [] = results
  collect top_k results (x ∷ xs) = elim (visit x) [
    | none ↦ collect top_k results xs
    | some hit ↦
        let results' = results ++ hit ∷ [] in
        let rest = collect top_k results' xs in
        if leb top_k (length results') then results' else rest
  ]

  -- All results, with no bound on their number.
  unfoldable pub hits : List A → List B
  hits [] = []
  hits (x ∷ xs) = elim (visit x) [ none ↦ hits xs | some hit ↦ hit ∷ hits xs ]

module _ {A B : Type 0} (visit : A → Option B) where
  take_append_full : (xs ys : List B) → take (length xs) (xs ++ ys) ≡ xs
  take_append_full [] ys = refl
  take_append_full (x ∷ xs) ys = ap (◌∷◌ x) (take_append_full xs ys)

  take_all : (n : ℕ) (xs : List B) → length xs ≤ n → take n xs ≡ xs
  take_all zero [] h = refl
  take_all zero (x ∷ xs) h = absurd (omega arith)
  take_all (suc n) [] h = refl
  take_all (suc n) (x ∷ xs) h = ap (◌∷◌ x) (take_all n xs (omega arith))

  collect-take :
      (top_k : ℕ) (results : List B) (xs : List A)
      → length results < top_k
      → collect visit top_k results xs ≡ take top_k (results ++ hits visit xs)
  unfolding collect hits
  collect-take top_k results [] h =
      sym (ap (take top_k) (append-nil results) ∙ take_all top_k results (omega arith))
  collect-take top_k results (x ∷ xs) h = elim (Option-cases (visit x)) [
    | inl skip ↦ rw (skip, collect, hits) (collect-take top_k results xs h)
    | inr (hit, e) ↦
        let results' = results ++ hit ∷ [] in
        let long = length-append results (hit ∷ []) in
        let join = append_assoc results (hit ∷ []) (hits visit xs) in
        elim (Bool-cases (leb top_k (length results'))) [
          | inl full ↦
              let exact : top_k ≡ length results' =
                omega (arith, long, leb→le top_k (length results') full) in
              rw (e, collect, hits, full)
                (sym (
                  ap (take top_k) (sym join)
                  ∙ ap (λ n. take n (results' ++ hits visit xs)) exact
                  ∙ take_append_full results' (hits visit xs)))
          | inr room ↦
              rw (e, collect, hits, room)
                (collect-take top_k results' xs (leb→lt top_k (length results') room)
                  ∙ ap (take top_k) join)
        ]
  ]

  -- With a positive bound the loop returns the first `top_k` results of all candidates.
  pub collect_lem :
      (top_k : ℕ) (xs : List A) → 0 < top_k → collect visit top_k [] xs ≡ take top_k (hits visit xs)
  collect_lem top_k xs h = collect-take top_k [] xs (omega arith)

  pub hits-In :
      (x : A) (xs : List A) (hit : B) → In x xs → visit x ≡ some hit → In hit (hits visit xs)
  unfolding hits
  hits-In x [] hit i e = absurd i
  hits-In x (y ∷ ys) hit (inl p) e = rw (sym (ap visit p) ∙ e, hits) (inl refl)
  hits-In x (y ∷ ys) hit (inr i) e = elim (Option-cases (visit y)) [
    | inl skip ↦ rw (skip, hits) (hits-In x ys hit i e)
    | inr (other, f) ↦ rw (f, hits) (inr (hits-In x ys hit i e))
  ]

  In-hits_at :
      (hit : B) (y : A) (ys : List A) (o : Option B)
      → visit y ≡ o
      → In hit (elim o [ none ↦ hits visit ys | some other ↦ other ∷ hits visit ys ])
      → ((hit' : B) → In hit' (hits visit ys) → (x : A) × In x ys × (visit x ≡ some hit'))
      → (x : A) × In x (y ∷ ys) × (visit x ≡ some hit)
  In-hits_at hit y ys none e i later = let (x, at, f) = later hit i in (x, inr at, f)
  In-hits_at hit y ys (some other) e (inl p) later = (y, inl refl, rw p e)
  In-hits_at hit y ys (some other) e (inr i) later = let (x, at, f) = later hit i in (x, inr at, f)

  pub In-hits :
      (hit : B) (xs : List A) → In hit (hits visit xs) → (x : A) × In x xs × (visit x ≡ some hit)
  unfolding hits
  In-hits hit [] i = absurd i
  In-hits hit (y ∷ ys) i = In-hits_at hit y ys (visit y) refl i (λ hit' i'. In-hits hit' ys i')

module _ {A : Type 0} where
  pub In-take : (a : A) (n : ℕ) (xs : List A) → In a (take n xs) → In a xs
  In-take a zero xs i = absurd i
  In-take a (suc n) [] i = absurd i
  In-take a (suc n) (x ∷ xs) (inl e) = inl e
  In-take a (suc n) (x ∷ xs) (inr i) = inr (In-take a n xs i)

  pub take_short : (n : ℕ) (xs : List A) → length (take n xs) < n → take n xs ≡ xs
  take_short zero xs h = absurd (omega arith)
  take_short (suc n) [] h = refl
  take_short (suc n) (x ∷ xs) h = ap (◌∷◌ x) (take_short n xs (omega arith))

-- A list of numbers with no number twice.
abbrev pub IsNodup : List ℕ → Type 0
IsNodup [] = Unit
IsNodup (x ∷ xs) = All (λ y. x ≢ y) xs × IsNodup xs

remove : ℕ → List ℕ → List ℕ
remove x [] = []
remove x (y ∷ ys) = elim (ℕ_discrete y x) [ yes _ ↦ ys | no _ ↦ y ∷ remove x ys ]

length-remove :
    (x : ℕ) (ys : List ℕ) → contains x ys ≡ true → suc (length (remove x ys)) ≡ length ys
unfolding contains remove
length-remove x [] h = ground arith
length-remove x (y ∷ ys) h = ground (arith, length-remove x ys)

contains-remove :
    (x z : ℕ) (ys : List ℕ) → x ≢ z → contains z ys ≡ true → contains z (remove x ys) ≡ true
unfolding contains remove
contains-remove x z [] n h = h
contains-remove x z (y ∷ ys) n h = ground (arith, contains-remove x z ys n)

-- The candidates that are skipped are at most as many as the set that they come from.
module _ {B : Type 0} (visit : ℕ → Option B) where
  pub length-hits :
      (xs dead : List ℕ)
      → IsNodup xs
      → All (λ x. visit x ≡ none → contains x dead ≡ true) xs
      → length xs ≤ length (hits visit xs) + length dead
  unfolding hits
  length-hits [] dead n h = omega arith
  length-hits (x ∷ xs) dead n h = elim (Option-cases (visit x)) [
    | inl skip ↦
        let shorter = remove x dead in
        let ih = length-hits xs shorter n.1 (keep-All xs n.0 h.1) in
        rw (skip, hits) (omega (arith, ih, length-remove x dead (h.0 skip)))
    | inr (hit, e) ↦ rw (e, hits) (omega (arith, length-hits xs dead n.1 h.1))
  ]
    where
      keep-All :
          (ys : List ℕ)
          → All (λ y. x ≢ y) ys
          → All (λ y. visit y ≡ none → contains y dead ≡ true) ys
          → All (λ y. visit y ≡ none → contains y (remove x dead) ≡ true) ys
      keep-All [] m g = tt
      keep-All (y ∷ ys) m g = (λ s. contains-remove x y dead m.0 (g.0 s), keep-All ys m.1 g.1)

below : ℕ → List ℕ
below zero = []
below (suc n) = n ∷ below n

contains-below : (n x : ℕ) → x < n → contains x (below n) ≡ true
unfolding contains below
contains-below zero x h = absurd (omega arith)
contains-below (suc n) x h = ground (arith, contains-below n x)

length-below : (n : ℕ) → length (below n) ≡ n
unfolding below
length-below zero = refl
length-below (suc n) = ap suc (length-below n)

-- There are no more than `n` different numbers below `n`.
pub length-IsNodup-le : (n : ℕ) (xs : List ℕ) → IsNodup xs → All (λ x. x < n) xs → length xs ≤ n
unfolding hits
length-IsNodup-le n xs once known = omega (
  arith,
  length-hits {B = ℕ} (λ _. none) xs (below n) once (all xs known),
  none_hit xs,
  length-below n,
)
  where
    all :
        (ys : List ℕ)
        → All (λ x. x < n) ys
        → All (λ x. ◌≡◌ {A = Option ℕ} none none → contains x (below n) ≡ true) ys
    all [] k = tt
    all (y ∷ ys) k = ((λ _. contains-below n y k.0), all ys k.1)

    none_hit : (ys : List ℕ) → length (hits {B = ℕ} (λ (x : ℕ). none) ys) ≡ 0
    none_hit [] = refl
    none_hit (y ∷ ys) = none_hit ys

pub In-of-contains : (x : ℕ) (xs : List ℕ) → contains x xs ≡ true → In x xs
unfolding contains
In-of-contains x [] h = absurd (false≢true h)
In-of-contains x (y ∷ ys) h = elim (ℕ_discrete y x) [
  | yes p ↦ inl (sym p)
  | no n ↦ inr (In-of-contains x ys (ground arith))
]
