-- ===== src/Utils/QualityScorer.antt =====
-- utils/quality_scorer.py: `QualityScorer`. The exponential, the rounding, the tests of characters
-- and the count of the boilerplate pattern's matches are parameters.
pub mod Gates
use axon_search.Base.{
  ℕ, Bool, true, false, not, ◌||◌, ◌&&◌, Option, none, some, List, [], ◌∷◌, ◌++◌, map, leb, ltb,
  if◌then◌else◌, length, keep,
}
use axon_search.Base.Dict.{contains}
use axon_search.Base.Text.{Text, str_key, lower, split}
use axon_search.Base.Floats.{Floats}

-- The library calls of the scorer: `math.exp` of `-0.01 * (wc - 300)` by the word count, `round` to
-- 4 digits, `str.isdigit`, `str.isupper`, and the number of matches of `_BOILERPLATE_RE`.
pub record Calls (f : Floats) : Type 0 where
  pub decay : ℕ → f.Float
  pub round4 : f.Float → f.Float
  pub is_digit : ℕ → Bool
  pub is_upper : ℕ → Bool
  pub boilerplate : Text → ℕ

-- The attributes of `ExtractedPage` that the scorer reads.
pub record Page (f : Floats) : Type 0 where
  pub text : Text
  pub word_count : ℕ
  pub link_density : f.Float
  pub avg_sentence_len : f.Float

pub record Scorer (f : Floats) : Type 0 where
  pub threshold : f.Float
  pub min_words : ℕ
  pub max_link_density : f.Float

pub record QualityReport (f : Floats) : Type 0 where
  pub score : f.Float
  pub word_count : ℕ
  pub ttr : f.Float
  pub link_density : f.Float
  pub avg_sent_len : f.Float
  pub digit_ratio : f.Float
  pub upper_ratio : f.Float
  pub passed : Bool

-- `len({w.lower() for w in words})`
unfoldable pub distinct : List Text → ℕ
distinct words = go words []
  where
    go : List Text → List Text → ℕ
    go [] seen = length seen
    go (w ∷ ws) seen = if contains (lower w) seen then go ws seen else go ws (lower w ∷ seen)

-- `max(n, 1)`
abbrev pub at_least_one : ℕ → ℕ
at_least_one n = if leb n 0 then 1 else n

module _ (f : Floats) (calls : Calls f) where
  open f use {Float}
  open calls use {decay, round4, is_digit, is_upper, boilerplate}

  abbrev one : Float
  one = f.of_ℕ 1

  abbrev ratio : ℕ → ℕ → Float
  ratio n m = f.div (f.of_ℕ n) (f.of_ℕ m)

  abbrev lesser : Float → Float → Float
  lesser a b = if f.leb a b then a else b

  abbrev greater : Float → Float → Float
  greater a b = if f.leb a b then b else a

  -- `len(re.findall(...))` and the like: how many characters pass a test, by the length.
  abbrev share : (ℕ → Bool) → Text → Float
  share p text = ratio (length (keep p text)) (at_least_one (length text))

  unfoldable pub sentence_score : Float → Float
  sentence_score len =
      if f.leb (f.of_ℕ 6) len && f.leb len (f.of_ℕ 50)
      then one
      else if not (f.leb (f.of_ℕ 6) len)
      then f.div len (f.of_ℕ 6)
      else greater f.zero (f.sub one (f.div (f.sub len (f.of_ℕ 50)) (f.of_ℕ 50)))

  -- The values with their weights, in the order in which they are appended.
  unfoldable pub signals : Scorer f → Text → ℕ → Float → Float → List (Float × Float)
  unfolding sentence_score distinct
  signals q text wc link_density avg_sentence_len =
      let words = split text in
      let wc_score = f.div one (f.add one (decay wc)) in
      let ttr_score = lesser (f.mul (ratio (distinct words) (at_least_one wc)) (f.of_ℕ 2)) one in
      let ld_score = f.sub one (lesser (f.div link_density q.max_link_density) one) in
      let sl : List (Float × Float) =
        (if f.leb avg_sentence_len f.zero
          then []
          else (sentence_score avg_sentence_len, one) ∷ []) in
      let dig_score = f.sub one (lesser (f.mul (share is_digit text) (f.of_ℕ 5)) one) in
      let up_score = f.sub one (lesser (f.mul (share is_upper text) (f.of_ℕ 3)) one) in
      let bp_score = greater f.zero (f.sub one (ratio (boilerplate text) 10)) in
      (wc_score, f.of_ℕ 2) ∷ (ttr_score, ratio 3 2) ∷ (ld_score, ratio 3 2) ∷ sl
      ++ (dig_score, ratio 1 2) ∷ (up_score, ratio 1 2) ∷ (bp_score, ratio 4 5) ∷ []

  unfoldable pub sum_of : List Float → Float
  sum_of xs = go f.zero xs
    where
      go : Float → List Float → Float
      go acc [] = acc
      go acc (x ∷ xs) = go (f.add acc x) xs

  unfoldable pub average : List (Float × Float) → Float
  unfolding sum_of
  average pairs = f.div (sum_of (map (λ p. f.mul p.0 p.1) pairs)) (sum_of (map (λ p. p.1) pairs))

  unfoldable pub score_text : Scorer f → Text → Option ℕ → Float → Float → Float
  unfolding signals average
  score_text q text word_count link_density avg_sentence_len =
      let wc : ℕ = elim word_count [ none ↦ length (split text) | some n ↦ n ] in
      if ltb wc q.min_words || not (f.leb link_density q.max_link_density)
      then f.zero
      else round4 (average (signals q text wc link_density avg_sentence_len))

  unfoldable pub score : Scorer f → Page f → Float
  unfolding score_text
  score q page =
      score_text q page.text (some page.word_count) page.link_density page.avg_sentence_len

  unfoldable pub report : Scorer f → Page f → QualityReport f
  unfolding score distinct
  report q page =
      let words = split page.text in
      let wc = length words in
      record {
        score = score q page;
        word_count = wc;
        ttr = round4 (ratio (distinct words) (at_least_one wc));
        link_density = page.link_density;
        avg_sent_len = page.avg_sentence_len;
        digit_ratio = round4 (share is_digit page.text);
        upper_ratio = round4 (share is_upper page.text);
        passed = f.leb q.threshold (score q page);
      }
