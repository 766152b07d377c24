-- ===== src/Crawler/Extractor.antt =====
-- crawler/content_extractor.py: `ContentExtractor`. trafilatura, readability, BeautifulSoup and
-- `urlparse` are parameters.
pub mod Fields
pub mod Samples
mod Tests
use axon_search.Base.{
  ℕ, zero, suc, ◌+◌, min, Bool, true, false, not, ◌&&◌, ◌||◌, Option, none, some, List, [], ◌∷◌,
  ◌++◌, map, leb, ◌==◌, if◌then◌else◌, length, keep,
}
use Prim.Native.String.{String}
use axon_search.Base.Dict.{contains}
use axon_search.Base.Text.{Text, Text-discrete, codes, str_key, split, strip, starts_with, is_space}
use axon_search.Base.Floats.{Floats}
use axon_search.Utils.QualityScorer.{at_least_one}
use axon_search.Crawler.Crawl.{CrawlResult}
use axon_search.Crawler.Fetch.{is_blank, before}

pub record ExtractedPage (f : Floats) : Type 0 where
  pub url : Text
  pub canonical_url : Text
  pub title : Text
  pub text : Text
  pub description : Text
  pub author : Text
  pub language : Text
  pub publish_date : Text
  pub outlinks : List Text
  pub word_count : ℕ
  pub char_count : ℕ
  pub link_density : f.Float
  pub avg_sentence_len : f.Float

-- The libraries' calls; `none` is an exception of the call where it can raise. `extract_article` is
-- `trafilatura.extract`, `summary_text` the text of readability's summary, `content` the attribute
-- `content` of the first `meta` tag with an attribute of that value, and `anchors` the attribute
-- `href` and the text of each link.
pub record Html (f : Floats) : Type 1 where
  pub Soup : Type 0
  pub extract_article : Text → Text → Option (Option Text)
  pub summary_text : Text → Option Text
  pub parse : Text → Option Soup
  pub decompose : List Text → Soup → Soup
  pub get_text : Soup → Text
  pub title : Soup → Option Text
  pub content : Text → Text → Soup → Option Text
  pub canonical : Soup → Option Text
  pub lang : Soup → Option (Option Text)
  pub anchors : Soup → List (Option Text × Text)
  pub netloc : Text → Text
  pub round2 : f.Float → f.Float
  pub round4 : f.Float → f.Float

-- The whitespace characters just read: none, one, or more.
pub data Run : Type 0 where
  no_space : Run
  one_space : ℕ → Run
  spaces : Run

unfoldable pub multi_space_from : Run → Text → Text
multi_space_from no_space [] = []
multi_space_from (one_space c) [] = c ∷ []
multi_space_from spaces [] = 32 ∷ []
multi_space_from no_space (c ∷ cs) =
    let more = multi_space_from (one_space c) cs in
    let rest = multi_space_from no_space cs in if is_space c then more else c ∷ rest
multi_space_from (one_space d) (c ∷ cs) =
    let more = multi_space_from spaces cs in
    let rest = multi_space_from no_space cs in if is_space c then more else d ∷ c ∷ rest
multi_space_from spaces (c ∷ cs) =
    let more = multi_space_from spaces cs in
    let rest = multi_space_from no_space cs in if is_space c then more else 32 ∷ c ∷ rest

-- `_MULTI_SPACE.sub(" ", text)`
unfoldable pub multi_space : Text → Text
unfolding multi_space_from
multi_space = multi_space_from no_space

abbrev pub newlines : ℕ → Text → Text
newlines zero t = t
newlines (suc n) t = b'\n' ∷ newlines n t

unfoldable pub multi_newline_from : ℕ → Text → Text
multi_newline_from n [] = newlines (min n 2) []
multi_newline_from n (c ∷ cs) =
    let more = multi_newline_from (suc n) cs in
    let rest = multi_newline_from 0 cs in if c == b'\n' then more else newlines (min n 2) (c ∷ rest)

-- `_MULTI_NEWLINE.sub("\n\n", text)`
unfoldable pub multi_newline : Text → Text
unfolding multi_newline_from
multi_newline = multi_newline_from 0

unfoldable pub clean : Text → Text
unfolding multi_space multi_newline
clean text = strip (multi_newline (multi_space text))

-- `_SENTENCE_SPLIT.split(text)`: the flags say that the character before ends a sentence, and that
-- it is in a separator.
unfoldable pub sentences_from : Bool → Bool → Text → Text → List Text
sentences_from ended skipped sentence [] = sentence ∷ []
sentences_from ended skipped sentence (c ∷ cs) =
    let on = sentences_from false true [] cs in
    let rest = sentences_from (c == b'.' || c == b'!' || c == b'?') false (sentence ++ c ∷ []) cs in
    if is_space c && skipped then on else if is_space c && ended then sentence ∷ on else rest

-- `value if value else default`, for a value that may be missing.
abbrev pub or_default : Option Text → Text → Text
or_default none d = d
or_default (some []) d = d
or_default (some (c ∷ cs)) d = c ∷ cs

-- The first of the values that there is and that is not empty.
unfoldable pub first_content : List (Option Text) → Text
first_content [] = []
first_content (o ∷ os) = or_default o (first_content os)

-- What `_extract_meta` and `_compute_stats` return.
pub record Meta : Type 0 where
  pub outlinks : List Text
  pub title : Text
  pub description : Text
  pub canonical : Text
  pub author : Text
  pub date : Text
  pub language : Text

pub record Stats (f : Floats) : Type 0 where
  pub word_count : ℕ
  pub char_count : ℕ
  pub link_density : f.Float
  pub avg_sentence_len : f.Float

module _ (f : Floats) (lib : Html f) where
  -- `_extract_text`; `none` is an exception.
  unfoldable pub raw_text : Text → Option Text
  unfolding clean
  raw_text html = elim (lib.parse html) [
    | none ↦ none
    | some soup ↦
        let tags = map codes ("script" ∷ "style" ∷ "nav" ∷ "footer" ∷ "header" ∷ "aside" ∷ []) in
        some (clean (lib.get_text (lib.decompose tags soup)))
  ]

  unfoldable pub readable_text : Text → Option Text
  unfolding raw_text
  readable_text html = elim (lib.summary_text html) [
    | none ↦ raw_text html
    | some summary ↦
        let body = clean summary in
        if leb 50 (length (split body)) then some body else raw_text html
  ]

  unfoldable pub extract_text : Text → Text → Option Text
  unfolding readable_text
  extract_text html url = elim (lib.extract_article html url) [
    | none ↦ none
    | some none ↦ readable_text html
    | some (some text) ↦
        if not (is_blank text) && leb 50 (length (split text))
        then some (clean text)
        else readable_text html
  ]

  -- The loop over the links with an `href`.
  unfoldable pub outlinks_of : Text → List (Option Text × Text) → List Text
  outlinks_of base_domain [] = []
  outlinks_of base_domain ((none, text) ∷ tags) = outlinks_of base_domain tags
  outlinks_of base_domain ((some raw, text) ∷ tags) =
      let href = strip raw in
      let rest = outlinks_of base_domain tags in
      let other = not (contains (lib.netloc href) (base_domain ∷ [])) in
      if starts_with href (codes "http") && other then href ∷ rest else rest

  abbrev language_of : Option (Option Text) → Text
  language_of none = codes "en"
  language_of (some none) = codes "en"
  language_of (some (some lang)) = before b'-' lang

  -- `_extract_meta`
  unfoldable pub extract_meta : Text → lib.Soup → Meta
  unfolding first_content outlinks_of before
  extract_meta url soup =
      let named : String → Option Text = λ name. lib.content (codes "name") (codes name) soup in
      let property : String → Option Text =
        λ name. lib.content (codes "property") (codes name) soup in
      record {
        outlinks = outlinks_of (lib.netloc url) (lib.anchors soup);
        title = or_default (property "og:title") (first_content (lib.title soup ∷ []));
        description = first_content (property "og:description" ∷ named "description" ∷ []);
        canonical = or_default (lib.canonical soup) url;
        author = first_content (named "author" ∷ []);
        date = first_content (
            named "article:published_time"
            ∷ property "article:published_time"
            ∷ lib.content (codes "itemprop") (codes "datePublished") soup
            ∷ named "pubdate"
            ∷ []);
        language = language_of (lib.lang soup);
      }

  abbrev ratio : ℕ → ℕ → f.Float
  ratio n m = f.div (f.of_ℕ n) (f.of_ℕ m)

  unfoldable pub link_words : List (Option Text × Text) → ℕ
  link_words [] = 0
  link_words ((href, text) ∷ tags) = length (split text) + link_words tags

  -- `_compute_stats`
  unfoldable pub compute_stats : lib.Soup → Text → Stats f
  unfolding sentences_from link_words
  compute_stats soup text =
      let words = length (split text) in
      let sentences = keep (λ s. not (is_blank (strip s))) (sentences_from false false [] text) in
      let density = ratio (link_words (lib.anchors soup)) (at_least_one words) in
      record {
        word_count = words;
        char_count = length text;
        link_density = lib.round4 density;
        avg_sentence_len = lib.round2 (ratio words (at_least_one (length sentences)));
      }

  -- `extract`, once the text is there.
  unfoldable pub build_page : Text → Text → lib.Soup → ExtractedPage f
  unfolding extract_meta compute_stats
  build_page url text soup =
      let meta = extract_meta url soup in
      let stats = compute_stats soup text in
      record {
        url = url;
        canonical_url = meta.canonical;
        title = meta.title;
        text = text;
        description = meta.description;
        author = meta.author;
        language = meta.language;
        publish_date = meta.date;
        outlinks = meta.outlinks;
        word_count = stats.word_count;
        char_count = stats.char_count;
        link_density = stats.link_density;
        avg_sentence_len = stats.avg_sentence_len;
      }

  -- `extract`, by the text and the parsed page.
  unfoldable pub page_of : Text → Option Text → Option lib.Soup → Option (ExtractedPage f)
  unfolding build_page
  page_of url none soup = none
  page_of url (some []) soup = none
  page_of url (some (c ∷ cs)) none = none
  page_of url (some (c ∷ cs)) (some soup) = some (build_page url (c ∷ cs) soup)

  unfoldable pub extract : CrawlResult → Option (ExtractedPage f)
  unfolding extract_text page_of
  extract page =
      let url = if is_blank page.final_url then page.url else page.final_url in
      page_of url (extract_text page.html url) (lib.parse page.html)

  unfoldable pub is_valid : ℕ → ExtractedPage f → Bool
  is_valid min_words page = leb min_words page.word_count && not (is_blank (strip page.text))
