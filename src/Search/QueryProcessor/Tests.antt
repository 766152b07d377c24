-- ===== src/Search/QueryProcessor/Tests.antt =====
-- A processed query, and an instance of the theorem about its expansion.
use axon_search.Base.{◌*◌, ◌≤◌, ◌≡◌, refl, true, none, List, [], ◌∷◌, length}
use axon_search.Base.Text.{Text, Text-discrete, codes, lower, split, strip}
use axon_search.Base.Dict.{contains}
use axon_search.Search.QueryProcessor.{Lookups, extras_from, process}
use axon_search.Search.QueryProcessor.Expansion.{AreNew, extras_from-bounded}

-- No operators; every word has one synset with two names.
abbrev lookups : Lookups
lookups = record {
  search = λ pattern q. none;
  sub = λ pattern by q. q;
  excluded = λ q. [];
  must_groups = λ q. [];
  synsets = λ word. (codes "Big_Cat" ∷ codes "cat" ∷ []) ∷ [];
}

abbrev tokens : List Text
tokens = codes "buy" ∷ codes "cat" ∷ []

expanded_once :
    (process lookups
      (record { expand_synonyms = true; max_expansion = 3 })
      (codes "Buy  cat")).expanded
    ≡ codes "buy cat big cat"
unfolding process split lower strip contains Text-discrete
expanded_once = refl

extras_from-bounded_example :
    let extras = extras_from lookups 3 tokens tokens [] in
    AreNew tokens extras × (length extras ≤ 3 * length tokens)
extras_from-bounded_example = extras_from-bounded lookups 3 tokens
