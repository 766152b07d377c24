-- ===== src/Utils/Dedup/Tests.antt =====
-- A run of the filter on an exact index.
use axon_search.Base.{
  ℕ, ◌≡◌, refl, inl, inr, true, false, List, [], ◌∷◌, arith, ◌==◌, if◌then◌else◌, length, In,
  Bool-cases, leb, ◌↔◌,
}
use axon_search.Base.Dict.{contains}
use axon_search.Base.Text.{codes, lower, strip, collapse, Text, Text-discrete}
use axon_search.Utils.Dedup.{Lsh, shingle, init, is_duplicate, after}
use axon_search.Utils.Dedup.Seen.{Laws, is_duplicate-again}

matches : ℕ → List (ℕ × ℕ) → List ℕ
matches mh [] = []
matches mh ((key, other) ∷ h) = let rest = matches mh h in if mh == other then key ∷ rest else rest

abbrev exact : Lsh ℕ
exact = record {
  MinHash = ℕ;
  Handle = List (ℕ × ℕ);
  blank = 0;
  update = λ s mh. if leb mh (length s) then length s else mh;
  jaccard = λ a b. if a == b then 100 else 0;
  empty = [];
  query = matches;
  insert = λ key mh h. (key, mh) ∷ h;
}

matches_self : (key mh : ℕ) (h : List (ℕ × ℕ)) → In key (matches mh ((key, mh) ∷ h))
unfolding matches
matches_self key mh h = let same : (mh == mh) ≡ true = ground arith in rw same (inl refl)

matches_more :
    (key mh other : ℕ) (h : List (ℕ × ℕ)) (found : ℕ)
    → In found (matches mh h)
    → In found (matches mh ((key, other) ∷ h))
unfolding matches
matches_more key mh other h found i = elim (Bool-cases (mh == other)) [
  | inl e ↦ rw e (inr i)
  | inr e ↦ rw e i
]

exact-Laws : Laws exact
unfolding matches
exact-Laws = record {
  update_comm = λ s t mh. ground arith;
  update-update = λ s mh. ground arith;
  query-empty = λ mh. refl;
  query-insert_self = matches_self;
  query-insert = matches_more;
}

swap : {a b s : Text} → In s (a ∷ b ∷ []) → In s (b ∷ a ∷ [])
swap (inl e) = inr (inl e)
swap (inr (inl e)) = inl e
swap (inr (inr i)) = absurd i

-- Two texts with the same shingles, in another order.
same_shingles :
    (s : Text)
    → In s (shingle (init exact 5).shingle_k (codes "Abababa"))
      ↔ In s (shingle (init exact 5).shingle_k (codes "bababab"))
unfolding init shingle lower strip collapse contains Text-discrete
same_shingles s = (swap, swap)

is_duplicate-again_example :
    ((is_duplicate exact (codes "x") (init exact 5)).0 ≡ false)
    × ((is_duplicate exact (codes "bababab") (
          after exact
            (codes "other" ∷ [])
            (is_duplicate exact (codes "Abababa") (init exact 5)).1)).0
        ≡ true)
is_duplicate-again_example =
    is_duplicate-again exact exact-Laws 5 (codes "x") (init exact 5) (codes "Abababa")
      (codes "bababab") (codes "other" ∷ []) same_shingles
