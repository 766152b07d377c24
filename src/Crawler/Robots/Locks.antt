-- ===== src/Crawler/Robots/Locks.antt =====
-- crawler/robots.py: calls of `_get_or_fetch` that overlap. Each event is one stretch between two
-- waits: a call looks into the cache, gets its domain's lock, or ends its download. The clock, in
-- seconds, goes on by any amount before an event.
use axon_search.Base.{
  ℕ, ◌+◌, Bool, true, false, Option, none, some, List, [], ◌∷◌, ◌++◌, get_elem?, if◌then◌else◌,
}
use axon_search.Base.Dict.{lookup, insert, contains}
use axon_search.Base.Text.{Text, str_key}
use axon_search.Crawler.Crawl.{drop_at}
use axon_search.Crawler.Robots.{Library, Download, CachedRobots, is_expired, fetch}

module _ (lib : Library) where
  -- The cache, the domains of the calls that wait for a lock, and of those that hold it and download,
  -- and the downloads so far with the times at which they ended, the latest first.
  pub record Robots : Type 0 where
    pub cache : List (Text × CachedRobots lib)
    pub waiting : List Text
    pub fetching : List Text
    pub clock : ℕ
    pub arrived : List (Text × ℕ)

  pub data Event : Type 0 where
    ask : Text → Event
    acquire : ℕ → Event
    arrive : ℕ → Download lib → Event

module _ (lib : Library) where
  abbrev pub init : Robots lib
  init = record { cache = []; waiting = []; fetching = []; clock = 0; arrived = [] }

  -- `entry and not entry.is_expired()`
  unfoldable pub is_usable : ℕ → Option (CachedRobots lib) → Bool
  is_usable now none = false
  is_usable now (some entry) = if is_expired lib now entry then false else true

  -- The fast path: a call that finds no entry to use waits for the lock.
  unfoldable pub look : Text → Robots lib → Robots lib
  unfolding is_usable
  look domain s =
      if is_usable s.clock (lookup domain s.cache)
      then s
      else record s { waiting = s.waiting ++ domain ∷ [] }

  -- A waiting call of the domain gets the lock, if no other call holds it, and looks again.
  unfoldable pub take_lock : ℕ → Text → Robots lib → Robots lib
  unfolding is_usable
  take_lock i domain s =
      let rest = record s { waiting = drop_at i s.waiting } in
      if contains domain s.fetching
      then s
      else if is_usable s.clock (lookup domain s.cache)
      then rest
      else record rest { fetching = domain ∷ s.fetching }

  -- A download ends: its entry is stored and the lock is released.
  unfoldable pub store : ℕ → Download lib → Text → Robots lib → Robots lib
  store i download domain s = record s {
    cache = insert domain (fetch lib download s.clock) s.cache;
    fetching = drop_at i s.fetching;
    arrived = (domain, s.clock) ∷ s.arrived;
  }

  unfoldable pub happen : Event lib → Robots lib → Robots lib
  unfolding look take_lock store
  happen (ask domain) s = look domain s
  happen (acquire i) s = elim (get_elem? s.waiting i) [
    | none ↦ s
    | some domain ↦ take_lock i domain s
  ]
  happen (arrive i download) s = elim (get_elem? s.fetching i) [
    | none ↦ s
    | some domain ↦ store i download domain s
  ]

  unfoldable pub run : List (ℕ × Event lib) → Robots lib → Robots lib
  unfolding happen
  run [] s = s
  run ((seconds, event) ∷ events) s =
      run events (happen event (record s { clock = s.clock + seconds }))
