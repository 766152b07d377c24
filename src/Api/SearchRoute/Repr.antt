-- ===== src/Api/SearchRoute/Repr.antt =====
-- A `repr` for the tests: each character is one more than itself, and 0 ends a text.
use axon_search.Base.{suc, ◌≡◌, refl, true, false, List, [], ◌∷◌, arith}
use axon_search.Base.Text.{Text}
use axon_search.Cache.Keys.{Items, Normal, value, pairs}
use axon_search.Api.SearchRoute.{Plain, text, number, flag}

put_text : Text → Text → Text
put_text [] rest = 0 ∷ rest
put_text (c ∷ cs) rest = suc c ∷ put_text cs rest

put_items : Items → Text → Text
put_items [] rest = 0 ∷ rest
put_items ((k, v) ∷ d) rest = 1 ∷ put_text k (put_text v (put_items d rest))

put_plain : Plain → Text → Text
put_plain (text t) rest = 0 ∷ put_text t rest
put_plain (number n) rest = 1 ∷ n ∷ rest
put_plain (flag true) rest = 2 ∷ rest
put_plain (flag false) rest = 3 ∷ rest

put_part : Normal Plain → Text → Text
put_part (value x) rest = 1 ∷ put_plain x rest
put_part (pairs d) rest = 2 ∷ put_items d rest

pub repr : List (Normal Plain) → Text
repr [] = []
repr (p ∷ ps) = put_part p (repr ps)

put_text_injective : (s t u v : Text) → put_text s u ≡ put_text t v → (s ≡ t) × (u ≡ v)
unfolding put_text
put_text_injective [] [] u v e = ground (arith, e)
put_text_injective [] (d ∷ ds) u v e = ground (arith, e)
put_text_injective (c ∷ cs) [] u v e = ground (arith, e)
put_text_injective (c ∷ cs) (d ∷ ds) u v e = ground (arith, e, put_text_injective cs ds u v)

put_items_injective : (s t : Items) (u v : Text) → put_items s u ≡ put_items t v → (s ≡ t) × (u ≡ v)
unfolding put_items
put_items_injective [] [] u v e = ground (arith, e)
put_items_injective [] ((l, w) ∷ ds) u v e = ground (arith, e)
put_items_injective ((k, w) ∷ cs) [] u v e = ground (arith, e)
put_items_injective ((k, x) ∷ cs) ((l, y) ∷ ds) u v e = ground (
  arith,
  e,
  put_text_injective k l (put_text x (put_items cs u)) (put_text y (put_items ds v)),
  put_text_injective x y (put_items cs u) (put_items ds v),
  put_items_injective cs ds u v,
)

put_plain_injective : (x y : Plain) (u v : Text) → put_plain x u ≡ put_plain y v → (x ≡ y) × (u ≡ v)
unfolding put_plain
put_plain_injective (text t) (text s) u v e = ground (arith, e, put_text_injective t s u v)
put_plain_injective (text t) (number m) u v e = ground (arith, e)
put_plain_injective (text t) (flag true) u v e = ground (arith, e)
put_plain_injective (text t) (flag false) u v e = ground (arith, e)
put_plain_injective (number n) (text s) u v e = ground (arith, e)
put_plain_injective (number n) (number m) u v e = ground (arith, e)
put_plain_injective (number n) (flag true) u v e = ground (arith, e)
put_plain_injective (number n) (flag false) u v e = ground (arith, e)
put_plain_injective (flag true) (text s) u v e = ground (arith, e)
put_plain_injective (flag true) (number m) u v e = ground (arith, e)
put_plain_injective (flag true) (flag true) u v e = ground (arith, e)
put_plain_injective (flag true) (flag false) u v e = ground (arith, e)
put_plain_injective (flag false) (text s) u v e = ground (arith, e)
put_plain_injective (flag false) (number m) u v e = ground (arith, e)
put_plain_injective (flag false) (flag true) u v e = ground (arith, e)
put_plain_injective (flag false) (flag false) u v e = ground (arith, e)

put_part_injective :
    (p q : Normal Plain) (u v : Text) → put_part p u ≡ put_part q v → (p ≡ q) × (u ≡ v)
unfolding put_part
put_part_injective (value x) (value y) u v e = ground (arith, e, put_plain_injective x y u v)
put_part_injective (value x) (pairs d) u v e = ground (arith, e)
put_part_injective (pairs d) (value y) u v e = ground (arith, e)
put_part_injective (pairs d) (pairs d') u v e = ground (arith, e, put_items_injective d d' u v)

pub repr_injective : (xs ys : List (Normal Plain)) → repr xs ≡ repr ys → xs ≡ ys
unfolding repr put_part
repr_injective [] [] e = refl
repr_injective [] (value y ∷ ys) e = ground (arith, e)
repr_injective [] (pairs d ∷ ys) e = ground (arith, e)
repr_injective (value x ∷ xs) [] e = ground (arith, e)
repr_injective (pairs d ∷ xs) [] e = ground (arith, e)
repr_injective (x ∷ xs) (y ∷ ys) e =
    ground (arith, put_part_injective x y (repr xs) (repr ys) e, repr_injective xs ys)
