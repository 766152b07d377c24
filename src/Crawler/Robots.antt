-- ===== src/Crawler/Robots.antt =====
-- crawler/robots.py: `RobotsCache`. The parser of robots.txt and the download are parameters; here
-- one call of `_get_or_fetch` is one step, and Crawler.Robots.Locks has the calls that overlap.
-- Times are seconds of the monotonic clock.
pub mod Fresh
pub mod Locks
pub mod Once
pub mod Spacing
mod Tests
use axon_search.Base.{ℕ, ◌+◌, Bool, true, false, Option, none, some, List, ltb, if◌then◌else◌}
use axon_search.Base.Dict.{lookup, insert}
use axon_search.Base.Text.{Text, str_key}

-- `RobotFileParser` and `urlparse(url).netloc`: a parser for no file, a parser that allows all, the
-- parser of a text, whether a bot may fetch a URL, and the bot's delay, `none` or 0 where it has none.
pub record Library : Type 1 where
  pub Parser : Type 0
  pub Delay : Type 0
  pub default_delay : Delay
  pub blank : Parser
  pub allow_all : Parser
  pub parse : Text → Parser
  pub can_fetch : Parser → Text → Bool
  pub delay_of : Parser → Option Delay
  pub netloc : Text → Text

-- How the download ends: an exception, with a session another status than 200 or the text, without a
-- session the parser that `parser.read` leaves.
pub data Download (lib : Library) : Type 0 where
  raised : Download lib
  refused : Download lib
  received : Text → Download lib
  was_read : lib.Parser → Download lib

-- `_TTL`
abbrev pub ttl : ℕ
ttl = 86400

module _ (lib : Library) where
  -- `_CachedRobots`
  pub record CachedRobots : Type 0 where
    pub parser : lib.Parser
    pub crawl_delay : lib.Delay
    pub fetched_at : ℕ

module _ (lib : Library) where
  -- `time.monotonic() - self.fetched_at > _TTL`
  unfoldable pub is_expired : ℕ → CachedRobots lib → Bool
  is_expired now entry = ltb (entry.fetched_at + ttl) now

  -- `_fetch`, that ends at the time `now`.
  unfoldable pub fetch : Download lib → ℕ → CachedRobots lib
  fetch raised now = record {
    parser = lib.allow_all;
    crawl_delay = lib.default_delay;
    fetched_at = now;
  }
  fetch refused now = record {
    parser = lib.blank;
    crawl_delay = lib.default_delay;
    fetched_at = now;
  }
  fetch (received text) now = record {
    parser = lib.parse text;
    crawl_delay = elim (lib.delay_of (lib.parse text)) [ none ↦ lib.default_delay | some d ↦ d ];
    fetched_at = now;
  }
  fetch (was_read parser) now = record {
    parser = parser;
    crawl_delay = lib.default_delay;
    fetched_at = now;
  }

  -- The end of `_get_or_fetch`, where there is no entry to use.
  unfoldable pub refetch :
      Download lib
      → ℕ
      → Text
      → List (Text × CachedRobots lib)
      → CachedRobots lib × List (Text × CachedRobots lib)
  unfolding fetch
  refetch download done domain cache =
      let entry = fetch download done in (entry, insert domain entry cache)

  -- `_get_or_fetch` at the time `now`, with the download that it makes where it makes one.
  unfoldable pub get_or_fetch :
      ℕ
      → Download lib
      → ℕ
      → Text
      → List (Text × CachedRobots lib)
      → CachedRobots lib × List (Text × CachedRobots lib)
  unfolding is_expired refetch
  get_or_fetch now download done domain cache = elim (lookup domain cache) [
    | none ↦ refetch download done domain cache
    | some entry ↦
        if is_expired now entry then refetch download done domain cache else (entry, cache)
  ]

  unfoldable pub is_allowed :
      ℕ
      → Download lib
      → ℕ
      → Text
      → List (Text × CachedRobots lib)
      → Bool × List (Text × CachedRobots lib)
  unfolding get_or_fetch
  is_allowed now download done url cache =
      let (cached, cache') = get_or_fetch now download done (lib.netloc url) cache in
      (lib.can_fetch cached.parser url, cache')

  unfoldable pub crawl_delay :
      ℕ
      → Download lib
      → ℕ
      → Text
      → List (Text × CachedRobots lib)
      → lib.Delay × List (Text × CachedRobots lib)
  unfolding get_or_fetch
  crawl_delay now download done url cache =
      let (cached, cache') = get_or_fetch now download done (lib.netloc url) cache in
      (cached.crawl_delay, cache')
