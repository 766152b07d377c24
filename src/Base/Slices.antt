-- ===== src/Base/Slices.antt =====
-- Slices of lists, and maps over them.
use Prim.Native.Nat.{ℕ, zero, suc, ◌+◌}
use native.Mathlib.Omega.{arith}
use mathlib.Core.Path.{◌≡◌, refl, ap, ◌∙◌}
use mathlib.Core.List.{List, [], ◌∷◌, ◌++◌, map, cons≢nil}
use axon_search.Base.Lists.{take, drop}

module _ {ℓ} {A : Type ℓ} where
  take-take : (n : ℕ) (xs : List A) → take n (take n xs) ≡ take n xs
  take-take zero xs = refl
  take-take (suc n) [] = refl
  take-take (suc n) (x ∷ xs) = ap (◌∷◌ x) (take-take n xs)

  pub take-drop-take :
      (n o k : ℕ) (xs : List A) → n ≡ o + k → take k (drop o (take n xs)) ≡ take k (drop o xs)
  take-drop-take n zero k xs e =
      let same : n ≡ k = omega (arith, e) in ap (λ m. take k (take m xs)) same ∙ take-take k xs
  take-drop-take zero (suc o) k xs e = absurd (omega (arith, e))
  take-drop-take (suc n) (suc o) k [] e = refl
  take-drop-take (suc n) (suc o) k (x ∷ xs) e = take-drop-take n o k xs (omega (arith, e))

  -- Two slices that follow each other are one.
  pub take-append :
      (n a b : ℕ) (xs : List A) → n ≡ a + b → take a xs ++ take b (drop a xs) ≡ take n xs
  take-append n zero b xs e = ap (λ m. take m xs) (omega (arith, e))
  take-append zero (suc a) b xs e = absurd (omega (arith, e))
  take-append (suc n) (suc a) zero [] e = refl
  take-append (suc n) (suc a) (suc b) [] e = refl
  take-append (suc n) (suc a) b (x ∷ xs) e = ap (◌∷◌ x) (take-append n a b xs (omega (arith, e)))

  pub drop-drop : (m o a : ℕ) (xs : List A) → m ≡ o + a → drop m xs ≡ drop a (drop o xs)
  drop-drop m zero a xs e = ap (λ k. drop k xs) (omega (arith, e))
  drop-drop zero (suc o) a xs e = absurd (omega (arith, e))
  drop-drop (suc m) (suc o) zero [] e = refl
  drop-drop (suc m) (suc o) (suc a) [] e = refl
  drop-drop (suc m) (suc o) a (x ∷ xs) e = drop-drop m o a xs (omega (arith, e))

  pub take-nil : (n : ℕ) (xs : List A) → xs ≡ [] → take n xs ≡ []
  take-nil zero xs e = refl
  take-nil (suc n) [] e = refl
  take-nil (suc n) (x ∷ xs) e = absurd (cons≢nil e)

  pub drop-nil : (n : ℕ) (xs : List A) → xs ≡ [] → drop n xs ≡ []
  drop-nil zero xs e = e
  drop-nil (suc n) [] e = refl
  drop-nil (suc n) (x ∷ xs) e = absurd (cons≢nil e)

pub map-map :
    {A B C : Type 0} (f : A → B) (g : B → C) (h : A → C) (xs : List A)
    → ((x : A) → g (f x) ≡ h x)
    → map g (map f xs) ≡ map h xs
map-map f g h [] e = refl
map-map f g h (x ∷ xs) e =
    ap (λ y. y ∷ map g (map f xs)) (e x) ∙ ap (◌∷◌ (h x)) (map-map f g h xs e)

pub map-append :
    {A B : Type 0} (f : A → B) (xs ys : List A) → map f xs ++ map f ys ≡ map f (xs ++ ys)
map-append f [] ys = refl
map-append f (x ∷ xs) ys = ap (◌∷◌ (f x)) (map-append f xs ys)
