-- ===== src/Crawler/Crawl/Occurs.antt =====
-- How often the fingerprint of a URL occurs in the lists of a crawl (crawler/async_crawler.py).
use axon_search.Base.{
  ℕ, zero, suc, ◌+◌, ◌≤◌, ◌≡◌, ◌≢◌, refl, sym, ap, ◌∙◌, false, some, List, [], ◌∷◌, ◌++◌, map,
  arith, All, get_elem?, ite,
}
use native.Mathlib.Decide.{ℕ_discrete}
use mathlib.Core.Option.{none-ne-some, some-injective}
use axon_search.Base.Dict.{nat_key, contains}
use axon_search.Indexer.Collect.{IsNodup}
use axon_search.Crawler.Crawl.{drop_at}

-- How often a number occurs.
unfoldable pub occurs : ℕ → List ℕ → ℕ
occurs h [] = 0
occurs h (x ∷ xs) = ite (ℕ_discrete x h) 1 0 + occurs h xs

pub occurs-append : (h : ℕ) (xs ys : List ℕ) → occurs h (xs ++ ys) ≡ occurs h xs + occurs h ys
unfolding occurs
occurs-append h [] ys = omega arith
occurs-append h (x ∷ xs) ys = omega (arith, occurs-append h xs ys)

map-append : {A B : Type 0} (f : A → B) (xs ys : List A) → map f (xs ++ ys) ≡ map f xs ++ map f ys
map-append f [] ys = refl
map-append f (x ∷ xs) ys = ap (◌∷◌ (f x)) (map-append f xs ys)

pub occurs-map_append :
    {A : Type 0} (f : A → ℕ) (h : ℕ) (xs ys : List A)
    → occurs h (map f (xs ++ ys)) ≡ occurs h (map f xs) + occurs h (map f ys)
occurs-map_append f h xs ys =
    ap (occurs h) (map-append f xs ys) ∙ occurs-append h (map f xs) (map f ys)

pub occurs-drop_at :
    {A : Type 0} (f : A → ℕ) (h i : ℕ) (xs : List A) (x : A)
    → get_elem? xs i ≡ some x
    → occurs h (map f (drop_at i xs)) + occurs h (f x ∷ []) ≡ occurs h (map f xs)
unfolding occurs drop_at
occurs-drop_at f h i [] x e = absurd (none-ne-some _ e)
occurs-drop_at f h zero (y ∷ xs) x e = rw (sym (some-injective _ _ e)) (omega arith)
occurs-drop_at f h (suc i) (y ∷ xs) x e = omega (arith, occurs-drop_at f h i xs x e)

pub occurs-IsNodup : (xs : List ℕ) → ((h : ℕ) → occurs h xs ≤ 1) → IsNodup xs
unfolding occurs
occurs-IsNodup [] few = tt
occurs-IsNodup (x ∷ xs) few = (others xs first, occurs-IsNodup xs (λ h. omega (arith, few h)))
  where
    first : occurs x xs ≡ 0
    first = ground (arith, few x)

    others : (ys : List ℕ) → occurs x ys ≡ 0 → All (λ y. x ≢ y) ys
    others [] e = tt
    others (y ∷ ys) e = (λ p. ground (arith, e, p), others ys (ground (arith, e)))

occurs-All : (h : ℕ) (ys : List ℕ) → All (λ y. h ≢ y) ys → occurs h ys ≡ 0
unfolding occurs
occurs-All h [] n = refl
occurs-All h (y ∷ ys) n = ground (arith, n.0, occurs-All h ys n.1)

pub IsNodup-occurs : (h : ℕ) (xs : List ℕ) → IsNodup xs → occurs h xs ≤ 1
unfolding occurs
IsNodup-occurs h [] n = omega arith
IsNodup-occurs h (x ∷ xs) n = elim (ℕ_discrete x h) [
  | yes e ↦ ground (arith, occurs-All x xs n.0, ap (λ y. occurs y xs) e)
  | no e ↦ ground (arith, IsNodup-occurs h xs n.1)
]

pub absent-occurs : (h : ℕ) (xs : List ℕ) → contains h xs ≡ false → occurs h xs ≡ 0
unfolding contains occurs
absent-occurs h [] e = refl
absent-occurs h (x ∷ xs) e = ground (arith, absent-occurs h xs)
