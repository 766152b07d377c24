-- ===== src/Base/Top.antt =====
-- `sorted(xs)[:k]`: the first `k` items of a sorted list are the best ones.
use Prim.Native.Nat.{ℕ, zero, suc, ◌≤◌}
use mathlib.Core.Path.{◌≡◌, refl, ap, ◌∙◌}
use mathlib.Core.Bool.{Bool, true}
use mathlib.Core.Logic.{◌⊎◌, inl, inr}
use mathlib.Core.List.{List, [], ◌∷◌}
use axon_search.Base.Lists.{length, take, In, All, length-take-le}
use axon_search.Base.Sort.{sort, IsSorted, IsOrder, In-sort, sort-In, sort-IsSorted}

module _ {A : Type 0} where
  pub In-take : (a : A) (n : ℕ) (xs : List A) → In a (take n xs) → In a xs
  In-take a zero xs i = absurd i
  In-take a (suc n) [] i = absurd i
  In-take a (suc n) (x ∷ xs) (inl e) = inl e
  In-take a (suc n) (x ∷ xs) (inr i) = inr (In-take a n xs i)

  pub All-take {κ} : (P : A → Type κ) (n : ℕ) (xs : List A) → All P xs → All P (take n xs)
  All-take P zero xs h = tt
  All-take P (suc n) [] h = tt
  All-take P (suc n) (x ∷ xs) h = (h.0, All-take P n xs h.1)

  All-In {κ} :
      (P : A → Type κ) (a : A) (xs : List A)
      → All P xs
      → ((x : A) → P x → a ≡ x → P a)
      → In a xs
      → P a
  All-In P a [] h t i = absurd i
  All-In P a (x ∷ xs) h t (inl e) = t x h.0 e
  All-In P a (x ∷ xs) h t (inr i) = All-In P a xs h.1 t i

module _ {A : Type 0} (le : A → A → Bool) where
  take-IsSorted : (n : ℕ) (xs : List A) → IsSorted le xs → IsSorted le (take n xs)
  take-IsSorted zero xs s = tt
  take-IsSorted (suc n) [] s = tt
  take-IsSorted (suc n) (x ∷ xs) s =
      (All-take (λ y. le x y ≡ true) n xs s.0, take-IsSorted n xs s.1)

  -- What is cut off comes after all that is kept.
  beyond :
      (n : ℕ) (a : A) (xs : List A)
      → IsSorted le xs
      → In a xs
      → In a (take n xs) ⊎ (length (take n xs) ≡ n) × All (λ x. le x a ≡ true) (take n xs)
  beyond zero a xs s i = inr (refl, tt)
  beyond (suc n) a [] s i = absurd i
  beyond (suc n) a (x ∷ xs) s (inl e) = inl (inl e)
  beyond (suc n) a (x ∷ xs) s (inr i) = elim (beyond n a xs s.1 i) [
    | inl kept ↦ inl (inr kept)
    | inr (full, above) ↦
        inr
          (ap suc full, (All-In (λ y. le x y ≡ true) a xs s.0 (λ y h e. ap (le x) e ∙ h) i, above))
  ]

-- The best `k` items: in order, some of the items, and no item left out that should come before one
-- of them, nor for which there is room.
pub record IsTop {A : Type 0} (le : A → A → Bool) (k : ℕ) (xs best : List A) : Type 0 where
  pub in_order : IsSorted le best
  pub bounded : length best ≤ k
  pub some_of : (a : A) → In a best → In a xs
  pub no_better : (a : A) → In a xs → In a best ⊎ (length best ≡ k) × All (λ b. le b a ≡ true) best

pub take-sort-IsTop :
    {A : Type 0} (le : A → A → Bool)
    → IsOrder le
    → (k : ℕ) (xs : List A) → IsTop le k xs (take k (sort le xs))
take-sort-IsTop le o k xs = record {
  in_order = take-IsSorted le k (sort le xs) (sort-IsSorted le o xs);
  bounded = length-take-le k (sort le xs);
  some_of = λ a i. In-sort le a xs (In-take a k (sort le xs) i);
  no_better = λ a i. beyond le k a (sort le xs) (sort-IsSorted le o xs) (sort-In le a xs i);
}
