-- ===== src/Base/Text.antt =====
-- Python's `str` as a list of code points, with the operations that the program uses. `lower`
-- changes the letters A to Z only; the other characters that `str.lower` changes are left alone.
pub mod Strip
pub mod Order
use Prim.Native.Nat.{ℕ, ◌+◌}
use Prim.Native.Char.{code}
use Prim.Native.String.{String}
use mathlib.Core.Bool.{Bool, true, false, ◌&&◌, ◌||◌}
use mathlib.Core.List.{List, [], ◌∷◌, ◌++◌, map}
use native.Mathlib.Decide.{ℕ_discrete}
use axon_search.Base.Tests.{leb, ◌==◌, if◌then◌else◌}
use axon_search.Base.Lists.{keep}
use axon_search.Base.Dict.{Key}

abbrev pub Text : Type 0
Text = List ℕ

-- A literal.
abbrev pub codes : String → Text
codes String.[] = []
codes (String.◌∷◌ c s) = code c ∷ codes s

cons-discrete : Discrete Text
cons-discrete = hlevel ℕ_discrete

unfoldable pub Text-discrete : Discrete Text
unfolding cons-discrete ℕ_discrete
Text-discrete = cons-discrete

instance abbrev pub str_key : Key Text
str_key = record { dec_eq = Text-discrete }

abbrev between : ℕ → ℕ → ℕ → Bool
between lo hi c = leb lo c && leb c hi

unfoldable pub lower : Text → Text
lower = map (λ c. if between b'A' b'Z' c then c + 32 else c)

-- `string.punctuation`
unfoldable pub is_punct : ℕ → Bool
is_punct c = between 33 47 c || between 58 64 c || between 91 96 c || between 123 126 c

-- `str.isspace`, which `\s` and `str.split` use.
unfoldable pub is_space : ℕ → Bool
is_space c =
    between 9 13 c
    || between 28 32 c
    || c == 0x85
    || c == 0xa0
    || c == 0x1680
    || between 0x2000 0x200a c
    || between 0x2028 0x2029 c
    || c == 0x202f
    || c == 0x205f
    || c == 0x3000

abbrev flush : Text → List Text → List Text
flush [] ws = ws
flush (c ∷ cs) ws = (c ∷ cs) ∷ ws

split_from : Text → Text → List Text
split_from word [] = flush word []
split_from word (c ∷ cs) = elim (is_space c) [
  | true ↦ flush word (split_from [] cs)
  | false ↦ split_from (word ++ c ∷ []) cs
]

-- `s.split()`
unfoldable pub split : Text → List Text
unfolding split_from is_space
split = split_from []

abbrev drop_spaces : Text → Text
drop_spaces [] = []
drop_spaces (c ∷ cs) = if is_space c then drop_spaces cs else c ∷ cs

trim_end : Text → Text
trim_end [] = []
trim_end (c ∷ cs) = elim (trim_end cs) [
  | [] ↦ if is_space c then [] else c ∷ []
  | d ∷ ds ↦ c ∷ d ∷ ds
]

-- `s.strip()`
unfoldable pub strip : Text → Text
unfolding trim_end is_space
strip s = trim_end (drop_spaces s)

-- `re.sub(r"\s+", " ", s)`; the flag says that the character before was a space.
collapse_from : Bool → Text → Text
collapse_from seen [] = []
collapse_from seen (c ∷ cs) =
    let rest = collapse_from (is_space c) cs in
    if is_space c then (if seen then rest else 32 ∷ rest) else c ∷ rest

unfoldable pub collapse : Text → Text
unfolding collapse_from is_space
collapse = collapse_from false

-- `s.translate(str.maketrans("", "", string.punctuation))`
unfoldable pub remove_punct : Text → Text
unfolding is_punct
remove_punct = keep (λ c. if is_punct c then false else true)

-- `s.startswith(prefix)`
unfoldable pub starts_with : Text → Text → Bool
starts_with s [] = true
starts_with [] (p ∷ ps) = false
starts_with (c ∷ cs) (p ∷ ps) = c == p && starts_with cs ps

-- `sub in s`
unfoldable pub has_part : Text → Text → Bool
unfolding starts_with
has_part [] sub = starts_with [] sub
has_part (c ∷ cs) sub = starts_with (c ∷ cs) sub || has_part cs sub

-- The order of `str`: by code points, a prefix first.
unfoldable pub text_leb : Text → Text → Bool
text_leb [] t = true
text_leb (c ∷ cs) [] = false
text_leb (c ∷ cs) (d ∷ ds) = if c == d then text_leb cs ds else leb c d
