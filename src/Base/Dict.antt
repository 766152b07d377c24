-- ===== src/Base/Dict.antt =====
-- Python's `dict`: entries in insertion order, an assignment to a present key keeps its place.
-- Keys are any type with a decidable equality, taken as an instance.
use Prim.Native.Nat.{ℕ, suc}
use Prim.Native.String.{String}
use mathlib.Core.Path.{◌≡◌, refl}
use mathlib.Core.Bool.{Bool, true, false}
use mathlib.Core.Logic.{◌≢◌, inl, inr, ite}
use mathlib.Core.List.{List, [], ◌∷◌, ◌++◌}
use mathlib.Core.Option.{Option, none, some}
use native.Mathlib.Omega.{arith}
use native.Mathlib.Decide.{ℕ_discrete}
use text.Mathlib.Text.{◌==◌ as str_eq}
use text.Mathlib.TextEquality.{eq_iff}
use axon_search.Base.Lists.{length}
use axon_search.Base.Tests.{Bool-cases}

pub record Key {ℓ} (K : Type ℓ) : Type ℓ where
  pub dec_eq : Discrete K

instance abbrev pub nat_key : Key ℕ
nat_key = record { dec_eq = ℕ_discrete }

pub ne_of_refused : (a b : String) → str_eq a b ≡ false → ¬ (a ≡ b)
ne_of_refused a b n p = ground (arith, (eq_iff a b).1 p)

unfoldable pub text_discrete : Discrete String
unfolding Bool-cases
text_discrete a b = elim (Bool-cases (str_eq a b)) [
  | inl e ↦ yes ((eq_iff a b).0 e)
  | inr n ↦ no (ne_of_refused a b n)
]

instance abbrev pub text_key : Key String
text_key = record { dec_eq = text_discrete }

module _ {ℓ} {K V : Type ℓ} ⦃e : Key K⦄ where
  unfoldable pub lookup : K → List (K × V) → Option V
  lookup k [] = none
  lookup k ((j, v) ∷ m) = ite (e.dec_eq j k) (some v) (lookup k m)

  unfoldable pub insert : K → V → List (K × V) → List (K × V)
  insert k v [] = (k, v) ∷ []
  insert k v ((j, w) ∷ m) = ite (e.dec_eq j k) ((j, v) ∷ m) ((j, w) ∷ insert k v m)

  unfoldable pub erase : K → List (K × V) → List (K × V)
  erase k [] = []
  erase k ((j, w) ∷ m) = ite (e.dec_eq j k) m ((j, w) ∷ erase k m)

  -- No key stands twice.
  abbrev pub IsDistinct : List (K × V) → Type ℓ
  IsDistinct [] = Unit
  IsDistinct ((k, v) ∷ m) = (lookup k m ≡ none) × IsDistinct m

  pub lookup-insert :
      (k j : K) (v : V) (m : List (K × V))
      → lookup j (insert k v m) ≡ ite (e.dec_eq k j) (some v) (lookup j m)
  unfolding lookup insert
  lookup-insert k j v [] = refl
  lookup-insert k j v ((i, w) ∷ m) = ground (arith, lookup-insert k j v m)

  pub insert-IsDistinct :
      (k : K) (v : V) (m : List (K × V)) → IsDistinct m → IsDistinct (insert k v m)
  unfolding lookup insert
  insert-IsDistinct k v [] h = (refl, tt)
  insert-IsDistinct k v ((i, w) ∷ m) h =
      ground (arith, lookup-insert k i v m, insert-IsDistinct k v m h.1)

  pub length-insert :
      (k : K) (v : V) (m : List (K × V))
      → length (insert k v m) ≡ elim (lookup k m) [ none ↦ suc (length m) | some w ↦ length m ]
  unfolding lookup insert
  length-insert k v [] = refl
  length-insert k v ((i, w) ∷ m) = ground (arith, length-insert k v m)

  pub lookup-erase_ne : (k j : K) (m : List (K × V)) → k ≢ j → lookup j (erase k m) ≡ lookup j m
  unfolding lookup erase
  lookup-erase_ne k j [] h = refl
  lookup-erase_ne k j ((i, w) ∷ m) h = ground (arith, lookup-erase_ne k j m h)

  pub lookup-erase_self : (k : K) (m : List (K × V)) → IsDistinct m → lookup k (erase k m) ≡ none
  unfolding lookup erase
  lookup-erase_self k [] h = refl
  lookup-erase_self k ((i, w) ∷ m) h = ground (arith, lookup-erase_self k m h.1)

  pub erase-IsDistinct : (k : K) (m : List (K × V)) → IsDistinct m → IsDistinct (erase k m)
  unfolding lookup erase
  erase-IsDistinct k [] h = tt
  erase-IsDistinct k ((i, w) ∷ m) h =
      ground (arith, lookup-erase_ne k i m, erase-IsDistinct k m h.1)

  pub length-erase :
      (k : K) (m : List (K × V))
      → length m
        ≡ elim (lookup k m) [ none ↦ length (erase k m) | some w ↦ suc (length (erase k m)) ]
  unfolding lookup erase
  length-erase k [] = refl
  length-erase k ((i, w) ∷ m) = ground (arith, length-erase k m)

  pub erase_absent : (k : K) (m : List (K × V)) → lookup k m ≡ none → erase k m ≡ m
  unfolding lookup erase
  erase_absent k [] h = refl
  erase_absent k ((i, w) ∷ m) h = ground (arith, erase_absent k m)

  -- What a lookup finds in a list that got an entry at its end.
  pub lookup-append :
      (k : K) (m n : List (K × V))
      → lookup k (m ++ n) ≡ elim (lookup k m) [ none ↦ lookup k n | some w ↦ some w ]
  unfolding lookup
  lookup-append k [] n = refl
  lookup-append k ((i, w) ∷ m) n = ground (arith, lookup-append k m n)

  pub snoc-IsDistinct :
      (k : K) (v : V) (m : List (K × V))
      → IsDistinct m
      → lookup k m ≡ none
      → IsDistinct (m ++ (k, v) ∷ [])
  unfolding lookup
  snoc-IsDistinct k v [] h n = (refl, tt)
  snoc-IsDistinct k v ((i, w) ∷ m) h n =
      ground (arith, lookup-append i m ((k, v) ∷ []), snoc-IsDistinct k v m h.1)

  -- The rest of a list with distinct keys.
  pub lookup_of_tail :
      (k i : K) (w : V) (m : List (K × V)) (v : V)
      → IsDistinct ((i, w) ∷ m)
      → lookup k m ≡ some v
      → lookup k ((i, w) ∷ m) ≡ some v
  unfolding lookup
  lookup_of_tail k i w m v h f = ground arith

-- `k in xs`
unfoldable pub contains {ℓ} : {K : Type ℓ} ⦃e : Key K⦄ → K → List K → Bool
contains k [] = false
contains ⦃e⦄ k (x ∷ xs) = ite (e.dec_eq x k) true (contains k xs)
