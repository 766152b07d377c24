-- ===== src/Crawler/Extractor/Fields.antt =====
-- What an extracted page holds (crawler/content_extractor.py).
use axon_search.Base.{
  ℕ, ◌≡◌, ◌≢◌, refl, ap, ◌⊎◌, inl, inr, true, false, not, ◌&&◌, Option, none, some, List, [], ◌∷◌,
  arith, ◌==◌, if◌then◌else◌, length, All, Bool-cases,
}
use mathlib.Core.Path.{subst}
use mathlib.Core.List.{cons≢nil}
use axon_search.Base.Dict.{contains}
use axon_search.Base.Text.{Text, codes, str_key, split, strip, starts_with, is_space}
use axon_search.Base.Floats.{Floats}
use axon_search.Crawler.Crawl.{CrawlResult}
use axon_search.Crawler.Fetch.{is_blank}
use axon_search.Crawler.Extractor.{
  ExtractedPage, Html, Run, no_space, one_space, spaces, multi_space_from, multi_space,
  multi_newline_from, multi_newline, clean, outlinks_of, extract_meta, compute_stats, build_page,
  page_of, extract_text, extract,
}

newline-is_space : (c : ℕ) → is_space c ≡ false → (c == b'\n') ≡ false
unfolding is_space
newline-is_space c e = ground arith

-- A character in front of one that is no newline is kept.
multi_newline-cons :
    (c d : ℕ) (cs : Text)
    → (d == b'\n') ≡ false
    → multi_newline_from 0 cs ≡ cs
    → multi_newline_from 0 (c ∷ d ∷ cs) ≡ c ∷ d ∷ cs
unfolding multi_newline_from
multi_newline-cons c d cs e h = ground (arith, h)

-- After the first pattern no run of newlines is left that the second one would change.
multi_newline-run :
    (run : Run) (text : Text)
    → multi_newline_from 0 (multi_space_from run text) ≡ multi_space_from run text
unfolding multi_newline_from multi_space_from
multi_newline-run no_space [] = refl
multi_newline-run (one_space c) [] = ground arith
multi_newline-run spaces [] = refl
multi_newline-run no_space (c ∷ cs) = elim (Bool-cases (is_space c)) [
  | inl e ↦ rw e (multi_newline-run (one_space c) cs)
  | inr e ↦ rw (e, newline-is_space c e, multi_newline-run no_space cs) refl
]
multi_newline-run (one_space d) (c ∷ cs) = elim (Bool-cases (is_space c)) [
  | inl e ↦ rw e (multi_newline-run spaces cs)
  | inr e ↦ rw e (
      multi_newline-cons d c (multi_space_from no_space cs) (newline-is_space c e)
        (multi_newline-run no_space cs))
]
multi_newline-run spaces (c ∷ cs) = elim (Bool-cases (is_space c)) [
  | inl e ↦ rw e (multi_newline-run spaces cs)
  | inr e ↦ rw e (
      multi_newline-cons 32 c (multi_space_from no_space cs) (newline-is_space c e)
        (multi_newline-run no_space cs))
]

-- The second pattern of the cleaner never finds a match after the first one: every run of two or
-- more whitespace characters, paragraph breaks among them, has become one space.
pub clean-multi_space : (text : Text) → clean text ≡ strip (multi_space text)
unfolding clean multi_space multi_newline
clean-multi_space text = ap strip (multi_newline-run no_space text)

apart : (a b : Text) → not (contains a (b ∷ [])) ≡ true → a ≢ b
unfolding contains
apart a b e = λ same. ground (arith, same)

module _ (f : Floats) (lib : Html f) where
  -- A link to another host, written out in full.
  abbrev pub IsOutlink : Text → Text → Type 0
  IsOutlink url link = (starts_with link (codes "http") ≡ true) × (lib.netloc link ≢ lib.netloc url)

  outlinks_of-IsOutlink :
      (url : Text) (tags : List (Option Text × Text))
      → All (IsOutlink url) (outlinks_of f lib (lib.netloc url) tags)
  unfolding outlinks_of contains
  outlinks_of-IsOutlink url [] = tt
  outlinks_of-IsOutlink url ((none, text) ∷ tags) = outlinks_of-IsOutlink url tags
  outlinks_of-IsOutlink url ((some raw, text) ∷ tags) =
      let href = strip raw in
      let far = not (contains (lib.netloc href) (lib.netloc url ∷ [])) in
      elim (Bool-cases (starts_with href (codes "http") && far)) [
        | inl e ↦ rw e (
          (ground arith, apart (lib.netloc href) (lib.netloc url) (ground arith)),
          outlinks_of-IsOutlink url tags,
        )
        | inr e ↦ rw e (outlinks_of-IsOutlink url tags)
      ]

  -- What the extractor promises of a page that it gives.
  pub record IsExtracted (result : CrawlResult) (page : ExtractedPage f) : Type 0 where
    pub has_text : page.text ≢ []
    pub words : page.word_count ≡ length (split page.text)
    pub chars : page.char_count ≡ length page.text
    pub from_result :
        (page.url ≡ result.final_url) ⊎ (result.final_url ≡ []) × (page.url ≡ result.url)
    pub found : extract_text f lib result.html page.url ≡ some page.text
    pub outside : All (IsOutlink page.url) page.outlinks

  abbrev OfPage : (ExtractedPage f → Type 0) → Option (ExtractedPage f) → Type 0
  OfPage P none = Unit
  OfPage P (some page) = P page

  page_of-OfPage :
      (result : CrawlResult) (url : Text) (text : Option Text) (soup : Option lib.Soup)
      → extract_text f lib result.html url ≡ text
      → (url ≡ result.final_url) ⊎ (result.final_url ≡ []) × (url ≡ result.url)
      → OfPage (IsExtracted result) (page_of f lib url text soup)
  unfolding page_of build_page extract_meta compute_stats
  page_of-OfPage result url none soup e from = tt
  page_of-OfPage result url (some []) soup e from = tt
  page_of-OfPage result url (some (c ∷ cs)) none e from = tt
  page_of-OfPage result url (some (c ∷ cs)) (some soup) e from = record {
    has_text = λ none. cons≢nil none;
    words = refl;
    chars = refl;
    from_result = from;
    found = e;
    outside = outlinks_of-IsOutlink url (lib.anchors soup);
  }

  url_from :
      (first second : Text)
      → let url = if is_blank first then second else first in
        (url ≡ first) ⊎ (first ≡ []) × (url ≡ second)
  url_from [] second = inr (refl, refl)
  url_from (c ∷ cs) second = inl refl

  -- Where the extractor gives a page, the page has a text, which is what the cascade found; its
  -- counts are those of the text; its URL is the final URL or, where that is empty, the URL; and
  -- each outlink starts with http and leads to another host.
  pub extract-IsExtracted :
      (result : CrawlResult) (page : ExtractedPage f)
      → extract f lib result ≡ some page
      → IsExtracted result page
  unfolding extract
  extract-IsExtracted result page e =
      let url = if is_blank result.final_url then result.url else result.final_url in
      subst (OfPage (IsExtracted result)) e (
        page_of-OfPage result url (extract_text f lib result.html url) (lib.parse result.html) refl
          (url_from result.final_url result.url))
