-- ===== src/Cache/Keys.antt =====
-- utils/cache.py: `make_key`. The values that are no dictionaries are of a type `A`, dictionaries have
-- text for keys and values, and `repr` of the tuple is a parameter.
use mathlib.Core.Path.{subst}
use axon_search.Base.{◌≡◌, sym, Bool, List, map}
use mathlib.Core.List.{Perm}
use mathlib.Core.List.Perm
use axon_search.Base.Text.{Text, text_leb, Text-discrete}
use axon_search.Base.Sort.{sort}
use axon_search.Base.Strict.{first_then, IsStrict, lexicographic, text_leb-IsStrict}
use axon_search.Base.Commute.{sort_perm, sort-perm}

abbrev pub Items : Type 0
Items = List (Text × Text)

pub data Part (A : Type 0) : Type 0 where
  plain : A → Part A
  dict : Items → Part A

-- A part with its dictionary made a tuple of pairs.
pub data Normal (A : Type 0) : Type 0 where
  value : A → Normal A
  pairs : Items → Normal A

abbrev pub pair_leb : Text × Text → Text × Text → Bool
pair_leb = first_then Text-discrete text_leb text_leb

unfoldable pub normalise : {A : Type 0} → Part A → Normal A
normalise (plain x) = value x
normalise (dict items) = pairs (sort pair_leb items)

unfoldable pub make_key : {A : Type 0} → (List (Normal A) → Text) → List (Part A) → Text
unfolding normalise
make_key repr parts = repr (map normalise parts)

pair_leb-IsStrict : IsStrict pair_leb
pair_leb-IsStrict =
    lexicographic Text-discrete text_leb text_leb text_leb-IsStrict text_leb-IsStrict

Items-set : IsSet Items
Items-set = hlevel Text-discrete

pub sort_same : (d d' : Items) → Perm d d' → sort pair_leb d ≡ sort pair_leb d'
sort_same d d' p = sort_perm pair_leb pair_leb-IsStrict Items-set d d' p

pub same_sort : (d d' : Items) → sort pair_leb d ≡ sort pair_leb d' → Perm d d'
same_sort d d' e =
    Perm.trans (Perm.symm (sort-perm pair_leb d))
      (subst (λ s. Perm s d') (sym e) (sort-perm pair_leb d'))
