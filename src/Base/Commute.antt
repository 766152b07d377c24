-- ===== src/Base/Commute.antt =====
-- A sorted list does not depend on the order in which its items came, nor one of counters on the order
-- in which they were counted, where the order tells the items apart.
use Prim.Native.Nat.{ℕ}
use mathlib.Core.Path.{◌≡◌, refl, sym, ap, ◌∙◌}
use mathlib.Core.Bool.{Bool, true, false}
use mathlib.Core.Logic.{inl, inr, ∥∥₁_elim}
use mathlib.Core.List.{List, [], ◌∷◌, Perm, Permᴰ}
use mathlib.Core.List.Perm
use native.Mathlib.Omega.{arith}
use axon_search.Base.Tests.{Bool-cases}
use axon_search.Base.Sort.{insert_sorted, sort}
use axon_search.Base.Strict.{IsStrict}
use axon_search.Base.Counter.{add_to}

module _ {A : Type 0} (le : A → A → Bool) (strict : IsStrict le) where
  open strict use {order, antisym}

  insert_before :
      (a b : A) (xs : List A)
      → le a b ≡ true
      → le b a ≡ false
      → insert_sorted le a (insert_sorted le b xs) ≡ insert_sorted le b (insert_sorted le a xs)
  unfolding insert_sorted
  insert_before a b [] h k = ground (arith, h, k)
  insert_before a b (y ∷ ys) h k = ground (arith, h, k, insert_before a b ys, order.trans a b y)

  insert_comm :
      (a b : A) (xs : List A)
      → insert_sorted le a (insert_sorted le b xs) ≡ insert_sorted le b (insert_sorted le a xs)
  insert_comm a b xs = elim (Bool-cases (le a b)) [
    | inl h ↦ elim (Bool-cases (le b a)) [
      | inl k ↦
          ap (λ z. insert_sorted le a (insert_sorted le z xs)) (sym (antisym a b h k))
          ∙ ap (λ z. insert_sorted le z (insert_sorted le a xs)) (antisym a b h k)
      | inr k ↦ insert_before a b xs h k
    ]
    | inr h ↦ sym (insert_before b a xs (order.total a b h) h)
  ]

  sort_permᴰ : {xs ys : List A} → Permᴰ xs ys → sort le xs ≡ sort le ys
  unfolding sort
  sort_permᴰ Permᴰ.nil = refl
  sort_permᴰ (Permᴰ.cons e p) = λ i. insert_sorted le (e i) (sort_permᴰ p i)
  sort_permᴰ (Permᴰ.swap {l = l} e f) =
      insert_comm _ _ (sort le l)
      ∙ (λ i. insert_sorted le (f i) (insert_sorted le (e i) (sort le l)))
  sort_permᴰ (Permᴰ.trans p q) = sort_permᴰ p ∙ sort_permᴰ q

  pub sort_perm : IsSet (List A) → (xs ys : List A) → Perm xs ys → sort le xs ≡ sort le ys
  sort_perm set xs ys p = ∥∥₁_elim p (set (sort le xs) (sort le ys)) sort_permᴰ

module _ {A : Type 0} (le : A → A → Bool) where
  insert_sorted-perm : (x : A) (xs : List A) → Perm (insert_sorted le x xs) (x ∷ xs)
  unfolding insert_sorted
  insert_sorted-perm x [] = Perm.refl (x ∷ [])
  insert_sorted-perm x (y ∷ ys) = elim (Bool-cases (le x y)) [
    | inl h ↦ rw h (Perm.refl (x ∷ y ∷ ys))
    | inr h ↦ rw h (Perm.trans (Perm.cons y (insert_sorted-perm x ys)) (Perm.swap x y ys))
  ]

  pub sort-perm : (xs : List A) → Perm (sort le xs) xs
  unfolding sort
  sort-perm [] = Perm.nil
  sort-perm (x ∷ xs) = Perm.trans (insert_sorted-perm x (sort le xs)) (Perm.cons x (sort-perm xs))

module _ {K : Type 0} (dec : Discrete K) (le : K × ℕ → K × ℕ → Bool) (strict : IsStrict le) where
  -- Counting for two keys, in either order.
  pub sort-add_to_comm :
      (k j : K) (n m : ℕ) (d : List (K × ℕ))
      → sort le (add_to dec k n (add_to dec j m d)) ≡ sort le (add_to dec j m (add_to dec k n d))
  unfolding add_to sort
  sort-add_to_comm k j n m [] = ground (arith, insert_comm le strict (j, m) (k, n) [])
  sort-add_to_comm k j n m ((i, x) ∷ d) =
      ground (arith, ap (insert_sorted le (i, x)) (sort-add_to_comm k j n m d))
