-- ===== src/Crawler/Extractor/Tests.antt =====
-- An extraction, and an instance of the theorem about it.
use axon_search.Base.{◌≡◌, refl, some, [], ◌∷◌, keep}
use axon_search.Base.Dict.{contains}
use axon_search.Base.Text.{Text-discrete, codes, strip, starts_with, split}
use axon_search.Base.Samples.{hundredths}
use axon_search.Crawler.Extractor.Samples.{html, result}
use axon_search.Crawler.Extractor.{ExtractedPage, clean, multi_space, extract}
use axon_search.Crawler.Extractor.Fields.{clean-multi_space, IsExtracted, extract-IsExtracted}

abbrev page : ExtractedPage hundredths
page = record {
  url = codes "u";
  canonical_url = codes "u";
  title = [];
  text = codes "one two. Three";
  description = [];
  author = [];
  language = codes "en";
  publish_date = [];
  outlinks = codes "http://b" ∷ [];
  word_count = 3;
  char_count = 14;
  link_density = 66;
  avg_sentence_len = 150;
}

extracted : extract hundredths html result ≡ some page
unfolding extract strip starts_with split keep contains Text-discrete
extracted = refl

extract-IsExtracted_example : IsExtracted hundredths html result page
extract-IsExtracted_example = extract-IsExtracted hundredths html result page extracted

-- A paragraph break becomes a space.
one_line : clean (codes "a\n\nb") ≡ codes "a b"
unfolding clean strip
one_line = refl

clean-multi_space_example : clean (codes "a\n\nb") ≡ strip (multi_space (codes "a\n\nb"))
clean-multi_space_example = clean-multi_space (codes "a\n\nb")
