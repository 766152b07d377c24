-- ===== src/Indexer/Samples.antt =====
-- The library calls of the tests: positions by descending score, and scores that count the words
-- that a document and the query share.
use axon_search.Base.{
  ℕ, zero, suc, ◌≤◌, ◌<◌, ◌≡◌, ◌≢◌, refl, sym, ap, inl, inr, Bool, false, List, [], ◌∷◌, map, arith,
  leb, length, take, keep, All, In, All-of-In, Bool-cases, ◌*◌,
}
use axon_search.Base.Dict.{nat_key, contains}
use axon_search.Base.Text.{Text, str_key}
use axon_search.Base.Sort.{sort, insert_sorted, IsOrder, length-sort}
use axon_search.Base.Top.{take-sort-IsTop, All-take}
use axon_search.Base.Samples.{hundredths, leb-IsOrder}
use axon_search.Indexer.Collect.{IsNodup}
use axon_search.Indexer.Bm25.{Env, get_or}
use axon_search.Indexer.Bm25.Ranking.{IsBest, Laws}

abbrev upto : ℕ → List ℕ
upto zero = []
upto (suc n) = n ∷ upto n

abbrev by_score : List ℕ → ℕ → ℕ → Bool
by_score scores i j = leb (get_or scores j 0) (get_or scores i 0)

unfoldable pub best_of : List ℕ → ℕ → List ℕ
best_of scores k = take k (sort (by_score scores) (upto (length scores)))

abbrev shared : List Text → List Text → ℕ
shared tokens doc = 100 * length (keep (λ t. contains t doc) tokens)

abbrev pub sample_env : Env
sample_env = record {
  floats = hundredths;
  stop_words = [];
  stem = λ w. w;
  get_scores = λ k1 b corpus tokens. map (shared tokens) corpus;
  best = best_of;
}

by_score-IsOrder : (scores : List ℕ) → IsOrder (by_score scores)
by_score-IsOrder scores = record {
  total = λ i j h. leb-IsOrder.total (get_or scores j 0) (get_or scores i 0) h;
  trans = λ i j k h l.
      leb-IsOrder.trans (get_or scores k 0) (get_or scores j 0) (get_or scores i 0) l h;
}

upto-bound : (n : ℕ) (i : ℕ) → In i (upto n) → i < n
upto-bound zero i h = absurd h
upto-bound (suc n) i (inl e) = omega arith
upto-bound (suc n) i (inr h) = omega (arith, upto-bound n i h)

bound-upto : (n : ℕ) (i : ℕ) → i < n → In i (upto n)
bound-upto zero i h = absurd (omega arith)
bound-upto (suc n) i h = ground (arith, bound-upto n i)

length-upto : (n : ℕ) → length (upto n) ≡ n
length-upto zero = refl
length-upto (suc n) = ap suc (length-upto n)

IsNodup-upto : (n : ℕ) → IsNodup (upto n)
IsNodup-upto zero = tt
IsNodup-upto (suc n) =
    (All-of-In (λ y. n ≢ y) (upto n) (λ i h e. omega (arith, upto-bound n i h)), IsNodup-upto n)

module _ (le : ℕ → ℕ → Bool) where
  All-insert :
      (P : ℕ → Type 0) (x : ℕ) (ys : List ℕ) → P x → All P ys → All P (insert_sorted le x ys)
  unfolding insert_sorted
  All-insert P x [] p h = (p, tt)
  All-insert P x (y ∷ ys) p h = elim (Bool-cases (le x y)) [
    | inl e ↦ rw e (p, h)
    | inr e ↦ rw e (h.0, All-insert P x ys p h.1)
  ]

  IsNodup-insert :
      (x : ℕ) (ys : List ℕ) → All (λ y. x ≢ y) ys → IsNodup ys → IsNodup (insert_sorted le x ys)
  unfolding insert_sorted
  IsNodup-insert x [] a n = (tt, tt)
  IsNodup-insert x (y ∷ ys) a n = elim (Bool-cases (le x y)) [
    | inl e ↦ rw e (a, n)
    | inr e ↦
        rw e (All-insert (λ z. y ≢ z) x ys (λ f. a.0 (sym f)) n.0, IsNodup-insert x ys a.1 n.1)
  ]

  All-sort : (P : ℕ → Type 0) (xs : List ℕ) → All P xs → All P (sort le xs)
  unfolding sort
  All-sort P [] h = tt
  All-sort P (x ∷ xs) h = All-insert P x (sort le xs) h.0 (All-sort P xs h.1)

  IsNodup-sort : (xs : List ℕ) → IsNodup xs → IsNodup (sort le xs)
  unfolding sort
  IsNodup-sort [] n = tt
  IsNodup-sort (x ∷ xs) n =
      IsNodup-insert x (sort le xs) (All-sort (λ y. x ≢ y) xs n.0) (IsNodup-sort xs n.1)

IsNodup-take : (k : ℕ) (xs : List ℕ) → IsNodup xs → IsNodup (take k xs)
IsNodup-take zero xs n = tt
IsNodup-take (suc k) [] n = tt
IsNodup-take (suc k) (x ∷ xs) n = (All-take (λ y. x ≢ y) k xs n.0, IsNodup-take k xs n.1)

length-take_enough : {A : Type 0} (k : ℕ) (xs : List A) → k ≤ length xs → length (take k xs) ≡ k
length-take_enough zero xs h = refl
length-take_enough (suc k) [] h = absurd (omega arith)
length-take_enough (suc k) (x ∷ xs) h = ap suc (length-take_enough k xs (omega arith))

absent : (x : ℕ) (xs : List ℕ) → contains x xs ≡ false → In x xs → ⊥
unfolding contains
absent x [] h i = absurd i
absent x (y ∷ ys) h (inl e) = ground arith
absent x (y ∷ ys) h (inr i) = absent x ys (ground arith) i

pub best_of-IsBest :
    (scores : List ℕ) (k : ℕ) → k ≤ length scores → IsBest hundredths scores k (best_of scores k)
unfolding best_of
best_of-IsBest scores k h =
    let le = by_score scores in
    let n = length scores in
    let top = take-sort-IsTop le (by_score-IsOrder scores) k (upto n) in
    record {
      many =
          length-take_enough k (sort le (upto n))
            (omega (arith, length-sort le (upto n), length-upto n));
      known =
          All-of-In (λ i. i < n) (take k (sort le (upto n)))
            (λ i at. upto-bound n i (top.some_of i at));
      once = IsNodup-take k (sort le (upto n)) (IsNodup-sort le (upto n) (IsNodup-upto n));
      dominates = λ i there left. elim (top.no_better i (bound-upto n i there)) [
        | inl kept ↦ absurd (absent i (take k (sort le (upto n))) left kept)
        | inr (_, above) ↦ above
      ];
    }

length-map : {A B : Type 0} (f : A → B) (xs : List A) → length (map f xs) ≡ length xs
length-map f [] = refl
length-map f (x ∷ xs) = ap suc (length-map f xs)

pub sample-Laws : Laws sample_env
sample-Laws = record {
  one_each = λ k1 b corpus tokens. length-map (shared tokens) corpus;
  best_is = best_of-IsBest;
}
