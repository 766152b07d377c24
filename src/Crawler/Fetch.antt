-- ===== src/Crawler/Fetch.antt =====
-- crawler/async_crawler.py: what may be fetched, how often, and what a fetch gives. URL parsing, IP
-- addresses, name resolution, the HTML parser and the responses are parameters.
pub mod Guard
pub mod Politeness
mod Tests
use mathlib.Core.Option
use axon_search.Base.{
  ℕ, zero, suc, ◌+◌, ◌-◌, Bool, true, false, not, ◌&&◌, ◌||◌, Option, none, some, List, [], ◌∷◌,
  ◌++◌, map, leb, ltb, ◌==◌, if◌then◌else◌, take,
}
use axon_search.Base.Dict.{contains}
use axon_search.Base.Text.{Text, codes, str_key, lower, strip, starts_with, has_part}
use axon_search.Crawler.Crawl.{Page}

-- `ipaddress.ip_address(host).is_global` (`none` for no address), `socket.getaddrinfo` (`none` where
-- it fails), `urlparse`, `urljoin` (`none` where it
-- raises), the `href` values of the links of a page, and `bytes.decode`.
pub record Library : Type 0 where
  pub is_global : Text → Option Bool
  pub resolve : Text → Option (List Text)
  pub scheme : Text → Text
  pub netloc : Text → Text
  pub hostname : Text → Option Text
  pub urljoin : Text → Text → Option Text
  pub hrefs : Text → List Text
  pub decode : List ℕ → Text

-- The settings that a fetch reads.
pub record Settings : Type 0 where
  pub max_response_size : ℕ
  pub allowed_domains : List Text
  pub disallowed_extensions : List Text

-- `s.split(c)[0]`
unfoldable pub before : ℕ → Text → Text
before c [] = []
before c (x ∷ xs) = if x == c then [] else x ∷ before c xs

-- `s.rsplit(c, 1)[-1]`
unfoldable pub after_last : ℕ → Text → Text
after_last c [] = []
after_last c (x ∷ xs) =
    if has_part xs (c ∷ []) then after_last c xs else if x == c then xs else x ∷ xs

-- `"." + url.rsplit(".", 1)[-1].split("?")[0].lower() if "." in url else ""`
unfoldable pub extension : Text → Text
unfolding before after_last
extension url =
    if has_part url (b'.' ∷ []) then b'.' ∷ lower (before b'?' (after_last b'.' url)) else []

-- `_DomainBucket`, with the delay and the time of the last access.
pub record Bucket : Type 0 where
  pub delay : ℕ
  pub last_access : ℕ

-- How long `acquire` sleeps at the time `now`.
unfoldable pub wait : ℕ → Bucket → ℕ
wait now b = b.last_access + b.delay - now

-- `acquire`, that reads the time `now` before its sleep and `woken` after it.
unfoldable pub acquire : ℕ → ℕ → Bucket → Bucket
acquire now woken b = record b { last_access = woken }

-- How a request ends: with an exception, or with a response.
pub data Response : Type 0 where
  raised : Response
  responded :
      (status : ℕ) (content_type : Option Text) (content_length : Option ℕ) (body : List ℕ)
      (final_url : Text)
      → Response

-- What an attempt of `_fetch_one` gives: an exception, which is retried, no page, or a page.
pub data Attempt : Type 0 where
  failed : Attempt
  refused : Attempt
  fetched : Page → Attempt

-- `not s`
abbrev pub is_blank {ℓ} : {A : Type ℓ} → List A → Bool
is_blank [] = true
is_blank (x ∷ xs) = false

-- `if resp.content_length and resp.content_length > self.max_response_size`
unfoldable pub is_oversized : Settings → Option ℕ → Bool
is_oversized settings none = false
is_oversized settings (some n) = ltb settings.max_response_size n

module _ (lib : Library) where
  abbrev pub any_private : List Text → Bool
  any_private [] = false
  any_private (ip ∷ ips) = elim (lib.is_global ip) [
    | none ↦ any_private ips
    | some global ↦ not global || any_private ips
  ]

  -- `_is_private_host`
  unfoldable pub is_private_host : Text → Bool
  is_private_host host = elim (lib.is_global host) [
    | some global ↦ not global
    | none ↦ elim (lib.resolve host) [ none ↦ false | some ips ↦ any_private ips ]
  ]

  -- `parsed.hostname or ""`
  unfoldable pub host_of : Text → Text
  host_of url = elim (lib.hostname url) [ none ↦ [] | some host ↦ host ]

  -- `_is_allowed_url`
  unfoldable pub is_allowed_url : Settings → Text → Bool
  unfolding extension host_of is_private_host
  is_allowed_url settings url =
      contains (lib.scheme url) (codes "http" ∷ codes "https" ∷ [])
      && not (contains (extension url) settings.disallowed_extensions)
      && (is_blank settings.allowed_domains || contains (lib.netloc url) settings.allowed_domains)
      && not (is_blank (host_of url) || is_private_host (host_of url))

  -- The loop of `_extract_links`; `none` where it raises.
  unfoldable pub links_of : Text → List Text → Option (List Text)
  unfolding before
  links_of base_url [] = some []
  links_of base_url (raw ∷ tags) =
      let href = strip raw in
      let rest = links_of base_url tags in
      if is_blank href
        || starts_with href (b'#' ∷ [])
        || starts_with href (codes "javascript:")
        || starts_with href (codes "mailto:")
      then rest
      else elim (lib.urljoin base_url href) [
        | none ↦ none
        | some url ↦ Option.map (λ links. before b'#' url ∷ links) rest
      ]

  unfoldable pub extract_links : Text → Text → Option (List Text)
  unfolding links_of
  extract_links html base_url = links_of base_url (lib.hrefs html)

  -- What `_fetch_one` does with a response, and `_worker` with the links of its page.
  unfoldable pub read_response : Settings → Text → Response → Attempt
  unfolding is_oversized extract_links
  read_response settings url raised = failed
  read_response settings url (responded status content_type content_length body final_url) =
      let kind : Text = elim content_type [ none ↦ [] | some t ↦ t ] in
      let html = lib.decode (take settings.max_response_size body) in
      let base = if is_blank final_url then url else final_url in
      if not (has_part kind (codes "text/html")) || is_oversized settings content_length
      then refused
      else fetched (record {
        status = status;
        html = html;
        content_type = kind;
        final_url = final_url;
        links = extract_links html base;
      })

  -- `_fetch_one`, by the answer of the robots cache and the response to the request that it may make.
  unfoldable pub fetch_one : Settings → Text → Bool → Response → Attempt
  unfolding is_allowed_url read_response
  fetch_one settings url robots_allow response =
      if not (is_allowed_url settings url)
      then refused
      else if robots_allow
      then read_response settings url response
      else refused

-- `@retry(stop=stop_after_attempt(3), reraise=False)` with the worker's `except`: the first attempt
-- of three that does not fail, and no page where all fail.
unfoldable pub first_of : List Attempt → Option Page
first_of [] = none
first_of (failed ∷ attempts) = first_of attempts
first_of (refused ∷ attempts) = none
first_of (fetched page ∷ attempts) = some page

unfoldable pub retried : List Attempt → Option Page
unfolding first_of
retried attempts = first_of (take 3 attempts)
