-- ===== src/Search/QueryProcessor/Expansion.antt =====
-- What the expansion of a query adds (search/query_processor.py).
use axon_search.Base.{
  ℕ, suc, ◌+◌, ◌*◌, ◌≤◌, ◌<◌, ◌≡◌, refl, inl, inr, false, not, ◌&&◌, List, [], ◌∷◌, ◌++◌, arith,
  leb, length, length-append, Bool-cases, leb→lt,
}
use axon_search.Base.Dict.{contains}
use axon_search.Base.Text.{Text, str_key}
use axon_search.Search.QueryProcessor.{Lookups, lemma_name, add_lemmas, add_synsets, extras_from}

-- No text stands twice, and none is a token of the query.
abbrev pub AreNew : List Text → List Text → Type 0
AreNew tokens [] = Unit
AreNew tokens (e ∷ extras) =
    (contains e tokens ≡ false) × (contains e extras ≡ false) × AreNew tokens extras

contains-snoc :
    (x y : Text) (xs : List Text)
    → contains x xs ≡ false
    → contains x (y ∷ []) ≡ false
    → contains x (xs ++ y ∷ []) ≡ false
unfolding contains
contains-snoc x y [] h k = k
contains-snoc x y (z ∷ xs) h k = ground (arith, contains-snoc x y xs)

contains-swap : (x y : Text) → contains x (y ∷ []) ≡ false → contains y (x ∷ []) ≡ false
unfolding contains
contains-swap x y h = ground arith

AreNew-snoc :
    (tokens extras : List Text) (name : Text)
    → AreNew tokens extras
    → contains name tokens ≡ false
    → contains name extras ≡ false
    → AreNew tokens (extras ++ name ∷ [])
unfolding contains
AreNew-snoc tokens [] name h out new = (out, refl, tt)
AreNew-snoc tokens (e ∷ extras) name h out new = (
  h.0,
  contains-snoc e name extras h.1 (contains-swap name e (ground (arith, new))),
  AreNew-snoc tokens extras name h.2 out (ground (arith, new)),
)

module _ (max_expansion : ℕ) (token : Text) (tokens : List Text) where
  -- What the loops over one token keep, for the extras before that token.
  abbrev Keeps : List Text → ℕ × List Text → Type 0
  Keeps before (added, extras) =
      AreNew tokens extras × (added ≤ max_expansion) × (length extras ≡ length before + added)

  add_lemmas-Keeps :
      (lemmas before : List Text) (added : ℕ) (extras : List Text)
      → added < max_expansion
      → Keeps before (added, extras)
      → Keeps before (add_lemmas max_expansion token tokens lemmas (added, extras))
  unfolding add_lemmas
  add_lemmas-Keeps [] before added extras room h = h
  add_lemmas-Keeps (lemma ∷ lemmas) before added extras room h =
      let name = lemma_name lemma in
      let new =
        not (contains name (token ∷ []))
        && not (contains name tokens)
        && not (contains name extras) in
      elim (Bool-cases new) [
        | inr old ↦ rw old (add_lemmas-Keeps lemmas before added extras room h)
        | inl fresh ↦
            let grown : Keeps before (suc added, extras ++ name ∷ []) = (
              AreNew-snoc tokens extras name h.0 (ground (arith, fresh)) (ground (arith, fresh)),
              omega (arith, room),
              omega (arith, h.2, length-append {0} extras (name ∷ [])),
            ) in
            elim (Bool-cases (leb max_expansion (suc added))) [
              | inl full ↦ rw (fresh, full) grown
              | inr more ↦
                  rw (fresh, more)
                    (add_lemmas-Keeps lemmas before (suc added) (extras ++ name ∷ [])
                      (leb→lt max_expansion (suc added) more) grown)
            ]
      ]

  add_synsets-Keeps :
      (synsets : List (List Text)) (before : List Text) (state : ℕ × List Text)
      → Keeps before state
      → Keeps before (add_synsets max_expansion token tokens synsets state)
  unfolding add_synsets
  add_synsets-Keeps [] before state h = h
  add_synsets-Keeps (synset ∷ synsets) before (added, extras) h =
      elim (Bool-cases (leb max_expansion added)) [
        | inl full ↦ rw full h
        | inr room ↦ rw room (
            add_synsets-Keeps synsets before
              (add_lemmas max_expansion token tokens synset (added, extras))
              (add_lemmas-Keeps synset before added extras (leb→lt max_expansion added room) h))
      ]

module _ (lookups : Lookups) where
  extras_from-AreNew :
      (max_expansion : ℕ) (tokens rest extras : List Text)
      → AreNew tokens extras
      → let all = extras_from lookups max_expansion tokens rest extras in
        AreNew tokens all × (length all ≤ length extras + max_expansion * length rest)
  unfolding extras_from
  extras_from-AreNew n tokens [] extras h = (h, omega arith)
  extras_from-AreNew n tokens (token ∷ rest) extras h =
      let added = add_synsets n token tokens (lookups.synsets token) (0, extras) in
      let (new, few, count) =
        add_synsets-Keeps n token tokens (lookups.synsets token) extras (0, extras)
          (h, omega arith, omega arith) in
      let (all_new, bound) = extras_from-AreNew n tokens rest added.1 new in
      (all_new, grind (arith, few, count, bound))

  -- The expansion of a query adds no token of the query and no text twice, and at most
  -- `max_expansion` texts for each token.
  pub extras_from-bounded :
      (max_expansion : ℕ) (tokens : List Text)
      → let extras = extras_from lookups max_expansion tokens tokens [] in
        AreNew tokens extras × (length extras ≤ max_expansion * length tokens)
  extras_from-bounded n tokens =
      let (new, bound) = extras_from-AreNew n tokens tokens [] tt in (new, omega (arith, bound))
