-- ===== src/Base/Text/Order.antt =====
-- The order of texts and of strings by their code points.
use Prim.Native.String.{String}
use mathlib.Core.Path.{◌≡◌, refl, ap}
use mathlib.Core.Bool.{true, false}
use mathlib.Core.List.{[], ◌∷◌}
use native.Mathlib.Omega.{arith}
use text.Mathlib.TextEquality.{Char-path}
use axon_search.Base.Text.{Text, codes, text_leb}

pub text_leb_total : (s t : Text) → text_leb s t ≡ false → text_leb t s ≡ true
unfolding text_leb
text_leb_total [] t h = ground arith
text_leb_total (c ∷ cs) [] h = refl
text_leb_total (c ∷ cs) (d ∷ ds) h = ground (arith, text_leb_total cs ds)

pub text_leb_trans :
    (s t u : Text) → text_leb s t ≡ true → text_leb t u ≡ true → text_leb s u ≡ true
unfolding text_leb
text_leb_trans [] t u h k = refl
text_leb_trans (c ∷ cs) [] u h k = ground arith
text_leb_trans (c ∷ cs) (d ∷ ds) [] h k = k
text_leb_trans (c ∷ cs) (d ∷ ds) (e ∷ es) h k = ground (arith, text_leb_trans cs ds es)

pub text_leb_antisym : (s t : Text) → text_leb s t ≡ true → text_leb t s ≡ true → s ≡ t
unfolding text_leb
text_leb_antisym [] [] h k = refl
text_leb_antisym [] (d ∷ ds) h k = ground (arith, k)
text_leb_antisym (c ∷ cs) [] h k = ground (arith, h)
text_leb_antisym (c ∷ cs) (d ∷ ds) h k = ground (arith, text_leb_antisym cs ds)

pub codes_injective : (s t : String) → codes s ≡ codes t → s ≡ t
codes_injective String.[] String.[] e = refl
codes_injective String.[] (String.◌∷◌ d t) e = ground (arith, e)
codes_injective (String.◌∷◌ c s) String.[] e = ground (arith, e)
codes_injective (String.◌∷◌ c s) (String.◌∷◌ d t) e =
    let head = Char-path c d (ap (λ (xs : Text). elim xs [ [] ↦ 0 | x ∷ _ ↦ x ]) e) in
    let tail = codes_injective s t (ap (λ (xs : Text). elim xs [ [] ↦ [] | _ ∷ ys ↦ ys ]) e) in
    λ i. String.◌∷◌ (head i) (tail i)
