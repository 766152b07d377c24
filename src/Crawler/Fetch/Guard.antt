-- ===== src/Crawler/Fetch/Guard.antt =====
-- What a fetched page is known to be (crawler/async_crawler.py).
use mathlib.Core.Option
use axon_search.Base.{
  ℕ, ◌≡◌, ◌≢◌, refl, sym, ap, ◌∙◌, inl, inr, Bool, true, false, not, ◌||◌, none, some, List, [],
  ◌∷◌, arith, All, if◌then◌else◌, take, Bool-cases, Option,
}
use mathlib.Core.Bool.{false≢true}
use mathlib.Core.Path.{subst}
use axon_search.Base.Dict.{contains}
use axon_search.Base.Text.{Text, codes, str_key, strip, starts_with, has_part}
use axon_search.Crawler.Crawl.{Page}
use axon_search.Crawler.Fetch.{
  Library, Settings, Response, raised, responded, Attempt, failed, refused, fetched, before,
  any_private, is_private_host, host_of, extension, is_blank, is_allowed_url, links_of,
  extract_links, is_oversized, read_response, fetch_one,
}

before-has_part : (c : ℕ) (xs : Text) → has_part (before c xs) (c ∷ []) ≡ false
unfolding before has_part starts_with
before-has_part c [] = refl
before-has_part c (x ∷ xs) = ground (arith, before-has_part c xs)

module _ (lib : Library) where
  -- A link without a fragment.
  abbrev pub IsPlain : Text → Type 0
  IsPlain link = has_part link (b'#' ∷ []) ≡ false

  -- What links are known to be, where they are found at all.
  abbrev pub OfLinks : (Text → Type 0) → Option (List Text) → Type 0
  OfLinks P none = Unit
  OfLinks P (some links) = All P links

  joined-IsPlain :
      (joined : Option Text) (rest : Option (List Text))
      → OfLinks IsPlain rest
      → OfLinks IsPlain (elim joined [
        | none ↦ none
        | some url ↦ Option.map (λ links. before b'#' url ∷ links) rest
      ])
  joined-IsPlain none rest h = tt
  joined-IsPlain (some url) none h = tt
  joined-IsPlain (some url) (some links) h = (before-has_part b'#' url, h)

  links_of-IsPlain :
      (base_url : Text) (tags : List Text) → OfLinks IsPlain (links_of lib base_url tags)
  unfolding links_of
  links_of-IsPlain base_url [] = tt
  links_of-IsPlain base_url (raw ∷ tags) =
      let href = strip raw in
      let skipped =
        is_blank href
        || starts_with href (b'#' ∷ [])
        || starts_with href (codes "javascript:")
        || starts_with href (codes "mailto:") in
      elim (Bool-cases skipped) [
        | inl e ↦ rw e (links_of-IsPlain base_url tags)
        | inr e ↦ rw e (
            joined-IsPlain (lib.urljoin base_url href) (links_of lib base_url tags)
              (links_of-IsPlain base_url tags))
      ]

  any_private-none :
      (ips : List Text)
      → any_private lib ips ≡ false
      → All (λ ip. lib.is_global ip ≢ some false) ips
  any_private-none [] h = tt
  any_private-none (ip ∷ ips) h =
      (λ e. false≢true (sym h ∙ rw (e, any_private) refl), any_private-none ips (ground (arith, h)))

  private_no_address :
      (host : Text) → is_private_host lib host ≡ false → lib.is_global host ≢ some false
  unfolding is_private_host
  private_no_address host h e = false≢true (sym h ∙ rw (e, is_private_host) refl)

  private_no_name :
      (host : Text)
      → is_private_host lib host ≡ false
      → (ips : List Text) → lib.is_global host ≡ none
      → lib.resolve host ≡ some ips
      → All (λ ip. lib.is_global ip ≢ some false) ips
  unfolding is_private_host
  private_no_name host h ips named e = any_private-none ips (rw (named, e, is_private_host) at h)

  -- What the guards of a fetch let through: a host that is no private address, and that does not
  -- resolve to any where it is a name.
  pub record IsPublic (settings : Settings) (url : Text) : Type 0 where
    pub web : contains (lib.scheme url) (codes "http" ∷ codes "https" ∷ []) ≡ true
    pub document : contains (extension url) settings.disallowed_extensions ≡ false
    pub hosted : host_of lib url ≢ []
    pub host_global : lib.is_global (host_of lib url) ≢ some false
    pub addresses_global :
        (ips : List Text)
        → lib.is_global (host_of lib url) ≡ none
        → lib.resolve (host_of lib url) ≡ some ips
        → All (λ ip. lib.is_global ip ≢ some false) ips

  is_allowed_url-IsPublic :
      (settings : Settings) (url : Text)
      → is_allowed_url lib settings url ≡ true
      → IsPublic settings url
  unfolding is_allowed_url
  is_allowed_url-IsPublic settings url e =
      let hosted : is_blank (host_of lib url) ≡ false = ground arith in
      record {
        web = ground arith;
        document = ground arith;
        hosted = λ none. false≢true (sym hosted ∙ ap is_blank none);
        host_global = private_no_address (host_of lib url) (ground arith);
        addresses_global = private_no_name (host_of lib url) (ground arith);
      }

  -- What a page that is kept says of its URL and of its response.
  pub record IsKept (settings : Settings) (url : Text) (robots_allow : Bool) (page : Page)
      : Type 0 where
    pub public : IsPublic settings url
    pub robots : robots_allow ≡ true
    pub html : has_part page.content_type (codes "text/html") ≡ true
    pub plain : OfLinks IsPlain page.links

  abbrev OfPage : (Page → Type 0) → Attempt → Type 0
  OfPage P failed = Unit
  OfPage P refused = Unit
  OfPage P (fetched page) = P page

  OfPage-map :
      {P Q : Page → Type 0}
      → ((page : Page) → P page → Q page)
      → (a : Attempt) → OfPage P a
      → OfPage Q a
  OfPage-map f failed h = tt
  OfPage-map f refused h = tt
  OfPage-map f (fetched page) h = f page h

  -- The page of a response is HTML, and its links have no fragment.
  read_response-IsPlain :
      (settings : Settings) (url : Text) (response : Response)
      → OfPage
          (λ page.
            (has_part page.content_type (codes "text/html") ≡ true) × OfLinks IsPlain page.links)
          (read_response lib settings url response)
  unfolding read_response extract_links
  read_response-IsPlain settings url raised = tt
  read_response-IsPlain settings url (responded status content_type content_length body final_url) =
      let kind : Text = elim content_type [ none ↦ [] | some t ↦ t ] in
      let base = if is_blank final_url then url else final_url in
      let html = lib.decode (take settings.max_response_size body) in
      let skipped =
        not (has_part kind (codes "text/html")) || is_oversized settings content_length in
      elim (Bool-cases skipped) [
        | inl e ↦ rw e tt
        | inr e ↦ rw e (ground arith, links_of-IsPlain base (lib.hrefs html))
      ]

  fetch_one-OfPage :
      (settings : Settings) (url : Text) (robots_allow : Bool) (response : Response)
      → OfPage (IsKept settings url robots_allow) (fetch_one lib settings url robots_allow response)
  unfolding fetch_one
  fetch_one-OfPage settings url robots_allow response =
      elim (Bool-cases (is_allowed_url lib settings url)) [
        | inr bad ↦ rw bad tt
        | inl good ↦ elim (Bool-cases robots_allow) [
          | inr closed ↦ rw (good, closed) tt
          | inl robots ↦
              rw (good, robots)
                (OfPage-map
                  (λ page h. record {
                    public = is_allowed_url-IsPublic settings url good;
                    robots = refl;
                    html = h.0;
                    plain = h.1;
                  })
                  (read_response lib settings url response)
                  (read_response-IsPlain settings url response))
        ]
      ]

  -- Where an attempt to fetch a URL gives a page, the URL has the scheme http or https, an extension
  -- that is not disallowed, and a host, which is neither a private address nor resolves to one; the
  -- robots cache allows it; the page's content type is HTML; and no link of the page has a fragment.
  pub fetch_one-IsKept :
      (settings : Settings) (url : Text) (robots_allow : Bool) (response : Response) (page : Page)
      → fetch_one lib settings url robots_allow response ≡ fetched page
      → IsKept settings url robots_allow page
  fetch_one-IsKept settings url robots_allow response page e =
      subst (OfPage (IsKept settings url robots_allow)) e
        (fetch_one-OfPage settings url robots_allow response)
