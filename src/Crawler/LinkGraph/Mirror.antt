-- ===== src/Crawler/LinkGraph/Mirror.antt =====
-- The two edge tables of `LinkGraph` (crawler/link_graph.py).
use axon_search.Base.{
  ℕ, ◌≡◌, refl, sym, ap, ◌∙◌, inl, inr, Bool, true, false, ◌||◌, List, [], ◌∷◌, ◌++◌, arith, ite,
  if_pos, if_neg, Bool-cases,
}
use native.Mathlib.Decide.{ℕ_discrete}
use axon_search.Base.Dict.{nat_key, contains, lookup-insert}
use axon_search.Base.Text.{Text}
use axon_search.Base.Floats.{Floats}
use axon_search.Crawler.LinkGraph.{
  Edges, at, touch, push, LinkGraph, get_or_create, link, add_link, add_page,
}

at-touch : (j k : ℕ) (e : Edges) → at j (touch k e) ≡ at j e
unfolding at touch
at-touch j k e = ground (arith, lookup-insert k j [] e)

at-push :
    (j k x : ℕ) (e : Edges) → at j (push k x e) ≡ ite (ℕ_discrete k j) (at k e ++ x ∷ []) (at j e)
unfolding at push
at-push j k x e = ground (arith, lookup-insert k j (at k e ++ x ∷ []) e)

contains-append :
    (y x : ℕ) (xs : List ℕ)
    → contains y (xs ++ x ∷ []) ≡ (contains y xs || ite (ℕ_discrete x y) true false)
unfolding contains
contains-append y x [] = ground arith
contains-append y x (z ∷ zs) = ground (arith, contains-append y x zs)

or-false : (b : Bool) → (b || false) ≡ b
or-false true = refl
or-false false = refl

contains-push :
    (j y k x : ℕ) (e : Edges)
    → contains y (at j (push k x e))
      ≡ (contains y (at j e) || ite (ℕ_discrete k j) (ite (ℕ_discrete x y) true false) false)
contains-push j y k x e = elim (ℕ_discrete k j) [
  | yes p ↦
      ap (contains y) (at-push j k x e ∙ if_pos (ℕ_discrete k j) p (at k e ++ x ∷ []) (at j e))
      ∙ contains-append y x (at k e)
      ∙ ap (λ n. contains y (at n e) || ite (ℕ_discrete x y) true false) p
      ∙ ap (λ b. contains y (at j e) || b)
          (sym (if_pos (ℕ_discrete k j) p (ite (ℕ_discrete x y) true false) false))
  | no n ↦
      ap (contains y) (at-push j k x e ∙ if_neg (ℕ_discrete k j) n (at k e ++ x ∷ []) (at j e))
      ∙ sym (or-false (contains y (at j e)))
      ∙ ap (λ b. contains y (at j e) || b)
          (sym (if_neg (ℕ_discrete k j) n (ite (ℕ_discrete x y) true false) false))
]

both :
    (a b : Bool) (s d src dst : ℕ)
    → a ≡ b
    → (a || ite (ℕ_discrete src s) (ite (ℕ_discrete dst d) true false) false)
      ≡ (b || ite (ℕ_discrete dst d) (ite (ℕ_discrete src s) true false) false)
both a b s d src dst h = ground arith

module _ (f : Floats) where
  -- An edge stands in one table exactly when it stands in the other.
  abbrev pub IsMirrored : LinkGraph f → Type 0
  IsMirrored g = (s d : ℕ) → contains d (at s g.out_edges) ≡ contains s (at d g.in_edges)

  link-IsMirrored : (src dst : ℕ) (g : LinkGraph f) → IsMirrored g → IsMirrored (link f src dst g)
  unfolding link
  link-IsMirrored src dst g h s d =
      elim (Bool-cases (contains dst (at src (touch src g.out_edges)))) [
        | inl there ↦ rw there (ap (contains d) (at-touch s src g.out_edges) ∙ h s d)
        | inr fresh ↦ rw fresh (
            contains-push s d src dst (touch src g.out_edges)
            ∙ both (contains d (at s (touch src g.out_edges))) (contains s (at d g.in_edges)) s d
                src dst (ap (contains d) (at-touch s src g.out_edges) ∙ h s d)
            ∙ sym (contains-push d s dst src g.in_edges))
      ]

  get_or_create-edges :
      (url : Text) (g : LinkGraph f)
      → ((get_or_create f url g).1.out_edges ≡ g.out_edges)
        × ((get_or_create f url g).1.in_edges ≡ g.in_edges)
  unfolding get_or_create
  get_or_create-edges url g = ground arith

  get_or_create-IsMirrored :
      (url : Text) (g : LinkGraph f) → IsMirrored g → IsMirrored (get_or_create f url g).1
  get_or_create-IsMirrored url g h s d =
      let (out, into) = get_or_create-edges url g in
      ap (λ e. contains d (at s e)) out ∙ h s d ∙ ap (λ e. contains s (at d e)) (sym into)

  -- Recording a page's links keeps the two edge tables in agreement.
  add_page-IsMirrored :
      (url : Text) (outlinks : List Text) (g : LinkGraph f)
      → IsMirrored g
      → IsMirrored (add_page f url outlinks g)
  unfolding add_page add_link
  add_page-IsMirrored url [] g h = h
  add_page-IsMirrored url (dst ∷ outlinks) g h =
      let (src_id, g') = get_or_create f url g in
      let (dst_id, g'') = get_or_create f dst g' in
      add_page-IsMirrored url outlinks (link f src_id dst_id g'') (
        link-IsMirrored src_id dst_id g''
          (get_or_create-IsMirrored dst g' (get_or_create-IsMirrored url g h)))
