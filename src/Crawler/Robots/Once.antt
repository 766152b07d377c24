-- ===== src/Crawler/Robots/Once.antt =====
-- Lists in which each domain stands once, for the downloads that are under way (crawler/robots.py).
use axon_search.Base.{
  ℕ, zero, suc, ◌≡◌, ◌≢◌, refl, sym, ◌∙◌, true, false, none, some, List, [], ◌∷◌, arith, get_elem?,
  All, if_pos, if_neg,
}
use mathlib.Core.Path.{subst}
use mathlib.Core.Bool.{false≢true}
use axon_search.Base.Dict.{contains}
use axon_search.Base.Text.{Text, Text-discrete, str_key}
use axon_search.Crawler.Crawl.{drop_at}

-- Each domain once.
abbrev pub IsOnce : List Text → Type 0
IsOnce [] = Unit
IsOnce (d ∷ ds) = (contains d ds ≡ false) × IsOnce ds

pub All-map :
    {A : Type 0} (P Q : A → Type 0) (xs : List A) → ((x : A) → P x → Q x) → All P xs → All Q xs
All-map P Q [] f h = tt
All-map P Q (x ∷ xs) f (h, hs) = (f x h, All-map P Q xs f hs)

pub All-both :
    {A : Type 0} (P Q : A → Type 0) (xs : List A) → All P xs → All Q xs → All (λ x. P x × Q x) xs
All-both P Q [] h k = tt
All-both P Q (x ∷ xs) (h, hs) (k, ks) = ((h, k), All-both P Q xs hs ks)

pub All-drop_at :
    {A : Type 0} (P : A → Type 0) (i : ℕ) (xs : List A) → All P xs → All P (drop_at i xs)
unfolding drop_at
All-drop_at P i [] h = tt
All-drop_at P zero (x ∷ xs) (h, hs) = hs
All-drop_at P (suc i) (x ∷ xs) (h, hs) = (h, All-drop_at P i xs hs)

pub All-get :
    {A : Type 0} (P : A → Type 0) (i : ℕ) (xs : List A) (x : A)
    → get_elem? xs i ≡ some x
    → All P xs
    → P x
All-get P i [] x e h = ground (arith, e)
All-get P zero (y ∷ ys) x e (h, hs) =
    subst (λ o. elim o as (λ _. Type 0) [ none ↦ Unit | some z ↦ P z ]) e h
All-get P (suc i) (y ∷ ys) x e (h, hs) = All-get P i ys x e hs

pub contains-drop_at :
    (d : Text) (i : ℕ) (ds : List Text) → contains d ds ≡ false → contains d (drop_at i ds) ≡ false
unfolding contains drop_at
contains-drop_at d i [] h = refl
contains-drop_at d zero (e ∷ es) h = ground (arith, h)
contains-drop_at d (suc i) (e ∷ es) h = ground (arith, h, contains-drop_at d i es)

pub IsOnce-drop_at : (i : ℕ) (ds : List Text) → IsOnce ds → IsOnce (drop_at i ds)
unfolding drop_at
IsOnce-drop_at i [] h = tt
IsOnce-drop_at zero (d ∷ ds) (n, h) = h
IsOnce-drop_at (suc i) (d ∷ ds) (n, h) = (contains-drop_at d i ds n, IsOnce-drop_at i ds h)

pub get-contains :
    (i : ℕ) (ds : List Text) (d : Text) → get_elem? ds i ≡ some d → contains d ds ≡ true
unfolding contains
get-contains i [] d e = ground (arith, e)
get-contains zero (x ∷ xs) d e =
    subst (λ o. elim o as (λ _. Type 0) [ none ↦ Unit | some z ↦ contains z (x ∷ xs) ≡ true ]) e
      (if_pos (Text-discrete x x) refl true (contains x xs))
get-contains (suc i) (x ∷ xs) d e = ground (arith, get-contains i xs d e)

-- The other downloads are of other domains.
pub others :
    (i : ℕ) (ds : List Text) (d : Text)
    → get_elem? ds i ≡ some d
    → IsOnce ds
    → contains d (drop_at i ds) ≡ false
unfolding drop_at contains
others i [] d e h = refl
others zero (x ∷ xs) d e (n, h) =
    subst (λ o. elim o as (λ _. Type 0) [ none ↦ Unit | some z ↦ contains z xs ≡ false ]) e n
others (suc i) (x ∷ xs) d e (n, h) = elim (Text-discrete x d) [
  | yes p ↦
      absurd (false≢true (sym (subst (λ z. contains z xs ≡ false) p n) ∙ get-contains i xs d e))
  | no np ↦ if_neg (Text-discrete x d) np true (contains d (drop_at i xs)) ∙ others i xs d e h
]

pub absent-All : (d : Text) (ds : List Text) → contains d ds ≡ false → All (λ e. e ≢ d) ds
unfolding contains
absent-All d [] h = tt
absent-All d (e ∷ es) h = (ground (arith, h), absent-All d es (ground (arith, h)))
