-- ===== src/Utils/TextCleaner.antt =====
-- utils/text_cleaner.py: `TextCleaner`. Unicode's normal form, the patterns of boilerplate and the
-- end of a sentence are parameters.
mod Tests
use axon_search.Base.{
  ℕ, zero, suc, ◌+◌, ◌-◌, Bool, true, false, not, ◌||◌, Option, none, some, List, [], ◌∷◌, ◌++◌,
  map, ltb, ◌==◌, if◌then◌else◌, length, take, drop, keep,
}
use axon_search.Base.Text.{Text, split, strip}
use axon_search.Base.Floats.{Floats}
use axon_search.Crawler.Fetch.{is_blank}
use axon_search.Crawler.Extractor.{multi_newline}

-- `unicodedata.normalize("NFKC", text)`, the substitution of a space for each match of the three
-- patterns, the split at `_SENTENCE_END`, and `int(tokens * approx_chars_per_token)`.
pub record Calls : Type 0 where
  pub nfkc : Text → Text
  pub without_urls : Text → Text
  pub without_emails : Text → Text
  pub without_boilerplate : Text → Text
  pub split_sentences : Text → List Text
  pub chars_of : ℕ → ℕ

pub record TextCleaner : Type 0 where
  pub strip_urls : Bool
  pub strip_emails : Bool
  pub strip_boilerplate : Bool
  pub normalise_unicode : Bool

-- The blanks and tabs just read: none, one, or more.
pub data Blanks : Type 0 where
  no_blank : Blanks
  one_blank : ℕ → Blanks
  blanks : Blanks

abbrev blank_text : Blanks → Text
blank_text no_blank = []
blank_text (one_blank c) = c ∷ []
blank_text blanks = 32 ∷ []

abbrev one_more : ℕ → Blanks → Blanks
one_more c no_blank = one_blank c
one_more c (one_blank d) = blanks
one_more c blanks = blanks

-- `_MULTI_SPACE.sub(" ", text)`
unfoldable pub multi_blank_from : Blanks → Text → Text
multi_blank_from run [] = blank_text run
multi_blank_from run (c ∷ cs) =
    let more = multi_blank_from (one_more c run) cs in
    let rest = multi_blank_from no_blank cs in
    if c == 32 || c == b'\t' then more else blank_text run ++ c ∷ rest

-- `text[-n:]`, which is the whole text for 0.
unfoldable pub last_of : ℕ → Text → Text
last_of n text = if n == 0 then text else drop (length text - n) text

-- The pieces of a sentence, each of `size` characters, `step` apart; by the length of the rest, which
-- is enough since a step has at least one character.
unfoldable pub cut_from : ℕ → ℕ → ℕ → Text → List Text
cut_from zero size step text = []
cut_from (suc fuel) size step [] = []
cut_from (suc fuel) size step (c ∷ cs) =
    take size (c ∷ cs) ∷ cut_from fuel size step (drop step (c ∷ cs))

-- The loop over `range(0, len(sent), max_chars - overlap_chars)`; `none` where the step is 0, which
-- `range` refuses, and no piece where it is negative.
unfoldable pub hard_split : ℕ → ℕ → Text → Option (List Text)
unfolding cut_from
hard_split max_chars overlap_chars sent =
    if max_chars == overlap_chars
    then none
    else if ltb max_chars overlap_chars
    then some []
    else some (cut_from (length sent) max_chars (max_chars - overlap_chars) sent)

-- A sentence that does not fit behind the current text.
unfoldable pub overflow : ℕ → ℕ → Text → List Text × Text → Option (List Text × Text)
unfolding hard_split last_of
overflow max_chars overlap_chars sent (chunks, []) =
    elim (hard_split max_chars overlap_chars sent) [
      | none ↦ none
      | some pieces ↦ some (chunks ++ pieces, [])
    ]
overflow max_chars overlap_chars sent (chunks, c ∷ cs) =
    some (chunks ++ strip (c ∷ cs) ∷ [], strip (last_of overlap_chars (c ∷ cs)) ++ 32 ∷ sent)

unfoldable pub add_sentence : ℕ → ℕ → Text → List Text × Text → Option (List Text × Text)
unfolding overflow
add_sentence max_chars overlap_chars sent (chunks, current) =
    if ltb max_chars (length current + length sent + 1)
    then overflow max_chars overlap_chars sent (chunks, current)
    else some (chunks, strip (current ++ 32 ∷ sent))

-- The loop over the sentences, with the rest after it.
unfoldable pub chunk_from : ℕ → ℕ → List Text → List Text × Text → Option (List Text)
unfolding add_sentence
chunk_from max_chars overlap_chars [] (chunks, current) =
    some (if is_blank current then chunks else chunks ++ strip current ∷ [])
chunk_from max_chars overlap_chars (sent ∷ sents) state =
    elim (add_sentence max_chars overlap_chars sent state) [
      | none ↦ none
      | some state' ↦ chunk_from max_chars overlap_chars sents state'
    ]

module _ (calls : Calls) where
  open calls use {
    nfkc, without_urls, without_emails, without_boilerplate, split_sentences, chars_of,
  }

  unfoldable pub clean_text : TextCleaner → Text → Text
  unfolding multi_blank_from
  clean_text cleaner text =
      let normal = if cleaner.normalise_unicode then nfkc text else text in
      let no_urls = if cleaner.strip_urls then without_urls normal else normal in
      let no_emails = if cleaner.strip_emails then without_emails no_urls else no_urls in
      let plain = if cleaner.strip_boilerplate then without_boilerplate no_emails else no_emails in
      strip (multi_newline (multi_blank_from no_blank plain))

  unfoldable pub sentences : Text → List Text
  sentences text = map strip (keep (λ s. not (is_blank (strip s))) (split_sentences text))

  unfoldable pub chunk : ℕ → ℕ → Text → Option (List Text)
  unfolding chunk_from sentences
  chunk max_tokens overlap_tokens text =
      chunk_from (chars_of max_tokens) (chars_of overlap_tokens) (sentences text) ([], [])

unfoldable pub word_count : Text → ℕ
word_count text = length (split text)

abbrev total_length : List Text → ℕ
total_length [] = 0
total_length (w ∷ ws) = length w + total_length ws

unfoldable pub avg_word_len : (f : Floats) → Text → f.Float
avg_word_len f text = elim (split text) [
  | [] ↦ f.zero
  | w ∷ ws ↦ f.div (f.of_ℕ (total_length (w ∷ ws))) (f.of_ℕ (length (w ∷ ws)))
]
