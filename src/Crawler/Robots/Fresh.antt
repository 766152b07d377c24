-- ===== src/Crawler/Robots/Fresh.antt =====
-- How long a robots.txt is kept (crawler/robots.py).
use axon_search.Base.{
  ℕ, ◌+◌, ◌≤◌, ◌≡◌, refl, ap, ◌∙◌, false, none, some, List, arith, if◌then◌else◌, if_pos,
}
use axon_search.Base.Dict.{lookup, insert, lookup-insert}
use axon_search.Base.Text.{Text, str_key}
use axon_search.Crawler.Robots.{
  Library, Download, CachedRobots, ttl, is_expired, fetch, refetch, get_or_fetch,
}

module _ (lib : Library) where
  pub fetched_at-fetch :
      (download : Download lib) (now : ℕ) → (fetch lib download now).fetched_at ≡ now
  unfolding fetch
  fetched_at-fetch download now = ground arith

  unexpired :
      (now : ℕ) (entry : CachedRobots lib)
      → now ≤ entry.fetched_at + ttl
      → is_expired lib now entry ≡ false
  unfolding is_expired
  unexpired now entry h = ground arith

  get_or_fetch-hit :
      (now : ℕ) (download : Download lib) (done : ℕ) (domain : Text)
      (cache : List (Text × CachedRobots lib)) (entry : CachedRobots lib)
      → lookup domain cache ≡ some entry
      → is_expired lib now entry ≡ false
      → get_or_fetch lib now download done domain cache ≡ (entry, cache)
  unfolding get_or_fetch
  get_or_fetch-hit now download done domain cache entry e fresh =
      ap
        (λ o. elim o [
          | none ↦ refetch lib download done domain cache
          | some x ↦
              if is_expired lib now x then refetch lib download done domain cache else (x, cache)
        ])
        e
      ∙ ap (λ b. if b then refetch lib download done domain cache else (entry, cache)) fresh

  -- A robots.txt that was just downloaded, at the time `done`, is used for its domain until a day
  -- has gone by: a call until then returns it and changes nothing, whatever it would download.
  get_or_fetch-again :
      (first second : Download lib) (done now later : ℕ) (domain : Text)
      (cache : List (Text × CachedRobots lib))
      → now ≤ done + ttl
      → let (entry, cache') = refetch lib first done domain cache in
        get_or_fetch lib now second later domain cache' ≡ (entry, cache')
  unfolding refetch
  get_or_fetch-again first second done now later domain cache h =
      let entry = fetch lib first done in
      get_or_fetch-hit now second later domain (insert domain entry cache) entry
        (lookup-insert domain domain entry cache
          ∙ if_pos (str_key.dec_eq domain domain) refl (some entry) (lookup domain cache))
        (fresh entry (fetched_at-fetch first done))
    where
      fresh :
          (entry : CachedRobots lib) → entry.fetched_at ≡ done → is_expired lib now entry ≡ false
      fresh entry e = unexpired now entry (omega (arith, e))
