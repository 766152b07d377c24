-- ===== src/Base/Text/Strip.antt =====
-- `strip` of a stripped text.
use Prim.Native.Nat.{ℕ, ◌≤◌}
use mathlib.Core.Path.{◌≡◌, refl, ap, ◌∙◌}
use mathlib.Core.Logic.{inl, inr}
use mathlib.Core.Bool.{false}
use mathlib.Core.List.{[], ◌∷◌}
use native.Mathlib.Omega.{arith}
use axon_search.Base.Lists.{length}
use axon_search.Base.Tests.{Bool-cases}
use axon_search.Base.Text.{Text, is_space, drop_spaces, trim_end, strip}

trim_end-trim_end : (s : Text) → trim_end (trim_end s) ≡ trim_end s
unfolding trim_end
trim_end-trim_end [] = refl
trim_end-trim_end (c ∷ cs) = ground (arith, trim_end-trim_end cs)

length-trim_end-le : (s : Text) → length (trim_end s) ≤ length s
unfolding trim_end
length-trim_end-le [] = omega arith
length-trim_end-le (c ∷ cs) = ground (arith, length-trim_end-le cs)

length-drop_spaces-le : (s : Text) → length (drop_spaces s) ≤ length s
length-drop_spaces-le [] = omega arith
length-drop_spaces-le (c ∷ cs) = ground (arith, length-drop_spaces-le cs)

drop_spaces-trim_end :
    (c : ℕ) (cs : Text) → is_space c ≡ false → drop_spaces (trim_end (c ∷ cs)) ≡ trim_end (c ∷ cs)
unfolding trim_end
drop_spaces-trim_end c cs e = ground (arith, e)

drop_spaces-trimmed : (s : Text) → drop_spaces (trim_end (drop_spaces s)) ≡ trim_end (drop_spaces s)
unfolding trim_end
drop_spaces-trimmed [] = refl
drop_spaces-trimmed (c ∷ cs) = elim (Bool-cases (is_space c)) [
  | inl e ↦ rw e (drop_spaces-trimmed cs)
  | inr e ↦ rw e (drop_spaces-trim_end c cs e)
]

-- A stripped text is as it is, and no longer than the text.
pub strip-strip : (s : Text) → strip (strip s) ≡ strip s
unfolding strip
strip-strip s = ap trim_end (drop_spaces-trimmed s) ∙ trim_end-trim_end (drop_spaces s)

pub length-strip-le : (s : Text) → length (strip s) ≤ length s
unfolding strip
length-strip-le s = omega (arith, length-trim_end-le (drop_spaces s), length-drop_spaces-le s)
