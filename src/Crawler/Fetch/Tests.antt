-- ===== src/Crawler/Fetch/Tests.antt =====
-- A fetch, a run of a bucket, and instances of the theorems about them.
use axon_search.Base.{◌≡◌, refl, true, false, none, some, [], ◌∷◌, if◌then◌else◌}
use axon_search.Base.Dict.{contains}
use axon_search.Base.Text.{Text, Text-discrete, codes, str_key, strip, has_part}
use axon_search.Crawler.Crawl.{Page}
use axon_search.Crawler.Fetch.{
  Library, Settings, Response, responded, fetched, fetch_one, retried, first_of, failed, refused,
}
use axon_search.Crawler.Fetch.Guard.{IsKept, fetch_one-IsKept}
use axon_search.Crawler.Fetch.Politeness.{accesses}

abbrev private_ip : Text
private_ip = codes "10.0.0.1"

abbrev public_ip : Text
public_ip = codes "93.1.1.1"

-- Every URL is on one public host.
abbrev library : Library
library = record {
  is_global = λ host.
      if contains host (private_ip ∷ [])
      then some false
      else if contains host (public_ip ∷ [])
      then some true
      else none;
  resolve = λ host. some (public_ip ∷ []);
  scheme = λ url. codes "http";
  netloc = λ url. codes "h";
  hostname = λ url. some (codes "h");
  urljoin = λ base href. some href;
  hrefs = λ html. codes "#top" ∷ codes "mailto:x" ∷ codes "http://h/b#c" ∷ [];
  decode = λ body. body;
}

abbrev settings : Settings
settings = record {
  max_response_size = 4;
  allowed_domains = [];
  disallowed_extensions = codes ".pdf" ∷ [];
}

abbrev response : Response
response = responded 200 (some (codes "text/html")) none (codes "<p>abc") []

abbrev page : Page
page = record {
  status = 200;
  html = codes "<p>a";
  content_type = codes "text/html";
  final_url = [];
  links = some (codes "http://h/b" ∷ []);
}

attempt_succeeds : fetch_one library settings (codes "http://h/a") true response ≡ fetched page
unfolding fetch_one contains Text-discrete has_part strip
attempt_succeeds = refl

fetch_one-IsKept_example : IsKept library settings (codes "http://h/a") true page
fetch_one-IsKept_example =
    fetch_one-IsKept library settings (codes "http://h/a") true response page attempt_succeeds

private_refused :
    fetch_one
      (record library { resolve = λ host. some (private_ip ∷ []) })
      settings
      (codes "http://h/a")
      true
      response
    ≡ refused
unfolding fetch_one contains Text-discrete has_part
private_refused = refl

-- Two attempts fail, and the third one has a page.
third_attempt : retried (failed ∷ failed ∷ fetched page ∷ []) ≡ some page
unfolding retried first_of
third_attempt = refl

-- A bucket with a delay of 5 that was last used at 10 sleeps for 4 at 11.
bucket_waits :
    accesses (record { delay = 5; last_access = 10 }) ((11, 15) ∷ (16, 20) ∷ []) ≡ 15 ∷ 20 ∷ []
unfolding accesses
bucket_waits = refl
