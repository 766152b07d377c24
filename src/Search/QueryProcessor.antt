-- ===== src/Search/QueryProcessor.antt =====
-- search/query_processor.py: `QueryProcessor`. The matches of its patterns and WordNet are
-- parameters.
pub mod Expansion
mod Tests
use axon_search.Base.{
  ℕ, zero, suc, Bool, true, false, not, ◌&&◌, ◌||◌, Option, none, some, List, [], ◌∷◌, ◌++◌, map,
  leb, ◌==◌, if◌then◌else◌,
}
use axon_search.Base.Dict.{contains}
use axon_search.Base.Text.{Text, codes, str_key, lower, split, strip}
use axon_search.Search.Reranker.{join}
use axon_search.Search.Retriever
use axon_search.Search.Retriever.{any}

pub data Pattern : Type 0 where
  site_re : Pattern
  filetype_re : Pattern
  lang_re : Pattern
  date_from_re : Pattern
  date_to_re : Pattern
  must_re : Pattern
  exclude_re : Pattern

-- What the patterns match: the first group of the first match, the text with each match replaced,
-- the words of `_EXCLUDE_RE`, both groups of each match of `_MUST_RE`; and for each synset of a word
-- the names of its lemmas.
pub record Lookups : Type 0 where
  pub search : Pattern → Text → Option Text
  pub sub : Pattern → Text → Text → Text
  pub excluded : Text → List Text
  pub must_groups : Text → List (Option Text × Text)
  pub synsets : Text → List (List Text)

pub record ParsedOperators : Type 0 where
  pub site : Option Text
  pub filetype : Option Text
  pub date_from : Option Text
  pub date_to : Option Text
  pub language : Option Text
  pub exclude_terms : List Text
  pub must_include : List Text

pub data Intent : Type 0 where
  informational : Intent
  navigational : Intent
  transactional : Intent

pub record ProcessedQuery : Type 0 where
  pub raw : Text
  pub clean : Text
  pub normalised : Text
  pub expanded : Text
  pub tokens : List Text
  pub operators : ParsedOperators
  pub intent : Intent
  pub is_question : Bool

pub record QueryProcessor : Type 0 where
  pub expand_synonyms : Bool
  pub max_expansion : ℕ

abbrev nav_signals : List Text
nav_signals = map codes ("site" ∷ "www" ∷ ".com" ∷ ".org" ∷ ".net" ∷ "login" ∷ "homepage" ∷ [])

abbrev trans_signals : List Text
trans_signals = map codes (
    "buy" ∷ "price" ∷ "cheap" ∷ "discount" ∷ "order" ∷ "shop" ∷ "download" ∷ "install" ∷ "hire"
    ∷ "subscribe" ∷ "sign up" ∷ "register" ∷ [])

abbrev question_starts : List Text
question_starts =
    map codes
      ("what" ∷ "why" ∷ "how" ∷ "when" ∷ "where" ∷ "who" ∷ "which" ∷ "is" ∷ "are" ∷ "can" ∷ [])

-- `s.lstrip("+")`
unfoldable pub strip_plus : Text → Text
strip_plus [] = []
strip_plus (c ∷ cs) = if c == b'+' then strip_plus cs else c ∷ cs

-- `m.group(1) or m.group(2).lstrip("+")` for each match.
unfoldable pub must_terms : List (Option Text × Text) → List Text
unfolding strip_plus
must_terms [] = []
must_terms ((some (c ∷ cs), second) ∷ groups) = (c ∷ cs) ∷ must_terms groups
must_terms ((_, second) ∷ groups) = strip_plus second ∷ must_terms groups

unfoldable pub detect_intent : List Text → Intent
detect_intent tokens =
    if any (λ t. contains t nav_signals) tokens
    then navigational
    else if any (λ t. contains t trans_signals) tokens
    then transactional
    else informational

abbrev is_question_of : List Text → Bool
is_question_of [] = false
is_question_of (t ∷ tokens) = contains t question_starts

-- `name.replace("_", " ").lower()`
unfoldable pub lemma_name : Text → Text
lemma_name name = lower (map (λ c. if c == b'_' then 32 else c) name)

-- The loop over the lemmas of a synset, which ends once `added` has come to `max_expansion`.
unfoldable pub add_lemmas : ℕ → Text → List Text → List Text → ℕ × List Text → ℕ × List Text
unfolding lemma_name
add_lemmas max_expansion token tokens [] state = state
add_lemmas max_expansion token tokens (lemma ∷ lemmas) (added, extras) =
    let name = lemma_name lemma in
    let grown : ℕ × List Text = (suc added, extras ++ name ∷ []) in
    let more = add_lemmas max_expansion token tokens lemmas grown in
    let rest = add_lemmas max_expansion token tokens lemmas (added, extras) in
    if not (contains name (token ∷ [])) && not (contains name tokens) && not (contains name extras)
    then (if leb max_expansion (suc added) then grown else more)
    else rest

-- The loop over the synsets of a token.
unfoldable pub add_synsets : ℕ → Text → List Text → List (List Text) → ℕ × List Text → ℕ × List Text
unfolding add_lemmas
add_synsets max_expansion token tokens [] state = state
add_synsets max_expansion token tokens (synset ∷ synsets) (added, extras) =
    let rest =
      add_synsets max_expansion token tokens synsets
        (add_lemmas max_expansion token tokens synset (added, extras)) in
    if leb max_expansion added then (added, extras) else rest

module _ (lookups : Lookups) where
  open lookups use {search, sub, excluded, must_groups, synsets}

  unfoldable pub parse_operators : Text → ParsedOperators
  unfolding must_terms
  parse_operators query = record {
    site = search site_re query;
    filetype = search filetype_re query;
    date_from = search date_from_re query;
    date_to = search date_to_re query;
    language = search lang_re query;
    exclude_terms = excluded query;
    must_include = must_terms (must_groups query);
  }

  abbrev sub_all : List Pattern → Text → Text
  sub_all [] q = q
  sub_all (pat ∷ patterns) q = sub_all patterns (sub pat [] q)

  unfoldable pub strip_operators : Text → Text
  unfolding join
  strip_operators query =
      let patterns = site_re ∷ filetype_re ∷ lang_re ∷ date_from_re ∷ date_to_re ∷ must_re ∷ [] in
      strip (join (split (sub exclude_re (codes " ") (sub_all patterns query))))

  -- The loop of `_expand` over the tokens, from the extras so far.
  unfoldable pub extras_from : ℕ → List Text → List Text → List Text → List Text
  unfolding add_synsets
  extras_from max_expansion tokens [] extras = extras
  extras_from max_expansion tokens (token ∷ rest) extras =
      extras_from max_expansion tokens rest
        (add_synsets max_expansion token tokens (synsets token) (0, extras)).1

  abbrev with_extras : Text → List Text → Text
  with_extras query [] = query
  with_extras query (e ∷ extras) = query ++ 32 ∷ join (e ∷ extras)

  unfoldable pub expand : ℕ → Text → Text
  unfolding extras_from join
  expand max_expansion query =
      let tokens = split query in with_extras query (extras_from max_expansion tokens tokens [])

  unfoldable pub process : QueryProcessor → Text → ProcessedQuery
  unfolding parse_operators strip_operators detect_intent expand join
  process p raw_query =
      let clean = strip_operators raw_query in
      let norm = join (split (lower clean)) in
      let tokens = split norm in
      record {
        raw = raw_query;
        clean = clean;
        normalised = norm;
        expanded = if p.expand_synonyms then expand p.max_expansion norm else norm;
        tokens = tokens;
        operators = parse_operators raw_query;
        intent = detect_intent tokens;
        is_question = is_question_of tokens;
      }

-- The part of a processed query that retrieval reads.
unfoldable pub for_retrieval : ProcessedQuery → Retriever.ProcessedQuery
for_retrieval q = record {
  normalised = q.normalised;
  expanded = q.expanded;
  operators = record {
    site = q.operators.site;
    exclude_terms = q.operators.exclude_terms;
    must_include = q.operators.must_include;
  };
}
