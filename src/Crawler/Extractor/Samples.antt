-- ===== src/Crawler/Extractor/Samples.antt =====
-- The libraries and a crawled page of the tests.
use axon_search.Base.{none, some, [], ◌∷◌}
use axon_search.Base.Text.{Text, codes}
use axon_search.Base.Samples.{hundredths}
use axon_search.Crawler.Crawl.{CrawlResult}
use axon_search.Crawler.Extractor.{Html}

-- The page is its own text; it has a link to another host, and one to its own.
abbrev pub html : Html hundredths
html = record {
  Soup = Text;
  extract_article = λ html url. some none;
  summary_text = λ html. none;
  parse = λ html. some html;
  decompose = λ tags soup. soup;
  get_text = λ soup. soup;
  title = λ soup. none;
  content = λ attribute value soup. none;
  canonical = λ soup. none;
  lang = λ soup. some (some (codes "en-US"));
  anchors = λ soup.
      (some (codes "http://b"), codes "b") ∷ (some (codes "/c"), codes "c") ∷ (none, []) ∷ [];
  netloc = λ url. url;
  round2 = λ x. x;
  round4 = λ x. x;
}

abbrev pub result : CrawlResult
result = record {
  url = codes "u";
  status = 200;
  html = codes " one  two. Three ";
  content_type = codes "text/html";
  final_url = [];
  depth = 0;
  parent_url = [];
}
