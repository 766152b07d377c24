-- ===== src/Crawler/Robots/Spacing.antt =====
-- The downloads of one domain (crawler/robots.py).
use axon_search.Base.{
  ℕ, ◌+◌, ◌≤◌, ◌<◌, ◌≡◌, refl, sym, ap, ◌∙◌, inl, inr, false, Option, none, some, List, [], ◌∷◌,
  arith, get_elem?, All, Bool-cases, if_pos, if_neg,
}
use mathlib.Core.Path.{subst}
use axon_search.Base.Dict.{lookup, insert, contains, lookup-insert}
use axon_search.Base.Text.{Text, Text-discrete, str_key}
use axon_search.Crawler.Crawl.{drop_at}
use axon_search.Crawler.Robots.{Library, Download, CachedRobots, ttl, is_expired, fetch}
use axon_search.Crawler.Robots.Fresh.{fetched_at-fetch}
use axon_search.Crawler.Robots.Locks.{
  Robots, Event, ask, acquire, arrive, init, is_usable, look, take_lock, store, happen, run,
}
use axon_search.Crawler.Robots.Once.{
  IsOnce, All-map, All-both, All-drop_at, All-get, IsOnce-drop_at, others, absent-All,
}

-- Two downloads of one domain, the latest of a list first, end more than a day apart.
abbrev pub AreSpaced : List (Text × ℕ) → Type 0
AreSpaced [] = Unit
AreSpaced ((d, t) ∷ log) = All (λ x. x.0 ≡ d → x.1 + ttl < t) log × AreSpaced log

module _ (lib : Library) where
  -- The cache has an entry of the domain that is as new as a download.
  abbrev IsKept : List (Text × CachedRobots lib) → Text × ℕ → Type 0
  IsKept cache x =
      (entry : CachedRobots lib) × ((lookup x.0 cache ≡ some entry) × (x.1 ≤ entry.fetched_at))

  record IsTidy (s : Robots lib) : Type 0 where
    once : IsOnce s.fetching
    spaced : AreSpaced s.arrived
    past : All (λ x. x.1 ≤ s.clock) s.arrived
    kept : All (IsKept s.cache) s.arrived
    stale : All (λ d. All (λ x. x.0 ≡ d → x.1 + ttl < s.clock) s.arrived) s.fetching

  tick-IsTidy :
      (seconds : ℕ) (s : Robots lib) → IsTidy s → IsTidy (record s { clock = s.clock + seconds })
  tick-IsTidy seconds s h = record {
    once = h.once;
    spaced = h.spaced;
    past = All-map _ _ s.arrived (λ x le. omega (arith, le)) h.past;
    kept = h.kept;
    stale =
        All-map _ _ s.fetching (λ d a. All-map _ _ s.arrived (λ x f e. omega (arith, f e)) a)
          h.stale;
  }

  -- Where there is no entry to use, the downloads of the domain are a day old.
  unusable-stale :
      (domain : Text) (s : Robots lib)
      → is_usable lib s.clock (lookup domain s.cache) ≡ false
      → All (IsKept s.cache) s.arrived
      → All (λ x. x.0 ≡ domain → x.1 + ttl < s.clock) s.arrived
  unfolding is_usable is_expired
  unusable-stale domain s u kept = All-map _ _ s.arrived (λ x k e. go x k e) kept
    where
      go : (x : Text × ℕ) → IsKept s.cache x → x.0 ≡ domain → x.1 + ttl < s.clock
      go x (entry, (at, le)) e = ground (
        arith,
        le,
        subst (λ o. is_usable lib s.clock o ≡ false) (ap (λ d. lookup d s.cache) (sym e) ∙ at) u,
      )

  look-IsTidy : (domain : Text) (s : Robots lib) → IsTidy s → IsTidy (look lib domain s)
  unfolding look
  look-IsTidy domain s h = elim (Bool-cases (is_usable lib s.clock (lookup domain s.cache))) [
    | inl e ↦ rw e h
    | inr e ↦
        rw e (record {
          once = h.once;
          spaced = h.spaced;
          past = h.past;
          kept = h.kept;
          stale = h.stale;
        })
  ]

  take_lock-IsTidy :
      (i : ℕ) (domain : Text) (s : Robots lib) → IsTidy s → IsTidy (take_lock lib i domain s)
  unfolding take_lock
  take_lock-IsTidy i domain s h = elim (Bool-cases (contains domain s.fetching)) [
    | inl held ↦ rw held h
    | inr free ↦ elim (Bool-cases (is_usable lib s.clock (lookup domain s.cache))) [
      | inl e ↦
          rw (free, e)
            (record {
              once = h.once;
              spaced = h.spaced;
              past = h.past;
              kept = h.kept;
              stale = h.stale;
            })
      | inr e ↦
          rw (free, e)
            (record {
              once = (free, h.once);
              spaced = h.spaced;
              past = h.past;
              kept = h.kept;
              stale = (unusable-stale domain s e h.kept, h.stale);
            })
    ]
  ]

  insert-IsKept :
      (domain : Text) (entry : CachedRobots lib) (cache : List (Text × CachedRobots lib))
      (x : Text × ℕ)
      → IsKept cache x
      → x.1 ≤ entry.fetched_at
      → IsKept (insert domain entry cache) x
  insert-IsKept domain entry cache x (old, (at, le)) new = elim (Text-discrete domain x.0) [
    | yes e ↦ (
      entry,
      (
        lookup-insert domain x.0 entry cache
            ∙ if_pos (Text-discrete domain x.0) e (some entry) (lookup x.0 cache),
        new,
      ),
    )
    | no n ↦ (
      old,
      (
        lookup-insert domain x.0 entry cache
            ∙ if_neg (Text-discrete domain x.0) n (some entry) (lookup x.0 cache)
            ∙ at,
        le,
      ),
    )
  ]

  store-IsTidy :
      (i : ℕ) (download : Download lib) (domain : Text) (s : Robots lib)
      → get_elem? s.fetching i ≡ some domain
      → IsTidy s
      → IsTidy (store lib i download domain s)
  unfolding store
  store-IsTidy i download domain s e h =
      let entry = fetch lib download s.clock in
      let new = fetched_at-fetch lib download s.clock in
      let here : IsKept (insert domain entry s.cache) (domain, s.clock) = (
        entry,
        (
          lookup-insert domain domain entry s.cache
              ∙ if_pos (Text-discrete domain domain) refl (some entry) (lookup domain s.cache),
          omega (arith, new),
        ),
      ) in
      let others_differ =
        absent-All domain (drop_at i s.fetching) (others i s.fetching domain e h.once) in
      record {
        once = IsOnce-drop_at i s.fetching h.once;
        spaced = (All-get _ i s.fetching domain e h.stale, h.spaced);
        past = (omega arith, h.past);
        kept = (
          here,
          All-map _ _ s.arrived
              (λ x both. insert-IsKept domain entry s.cache x both.0 (omega (arith, both.1, new)))
              (All-both _ _ s.arrived h.kept h.past),
        );
        stale =
            All-map _ _ (drop_at i s.fetching) (λ d both. (λ p. absurd (both.0 (sym p)), both.1))
              (All-both _ _ (drop_at i s.fetching) others_differ
                (All-drop_at _ i s.fetching h.stale));
      }

  -- The event where it picks a call that there is, and nothing otherwise.
  picked :
      (o : Option Text) (f : Text → Robots lib) (s : Robots lib)
      → ((domain : Text) → o ≡ some domain → IsTidy (f domain))
      → IsTidy s
      → IsTidy (elim o as (λ _. Robots lib) [ none ↦ s | some domain ↦ f domain ])
  picked none f s g h = h
  picked (some domain) f s g h = g domain refl

  happen-IsTidy : (event : Event lib) (s : Robots lib) → IsTidy s → IsTidy (happen lib event s)
  unfolding happen
  happen-IsTidy (ask domain) s h = look-IsTidy domain s h
  happen-IsTidy (acquire i) s h =
      picked (get_elem? s.waiting i) (λ d. take_lock lib i d s) s
        (λ domain e. take_lock-IsTidy i domain s h) h
  happen-IsTidy (arrive i download) s h =
      picked (get_elem? s.fetching i) (λ d. store lib i download d s) s
        (λ domain e. store-IsTidy i download domain s e h) h

  run-IsTidy :
      (events : List (ℕ × Event lib)) (s : Robots lib) → IsTidy s → IsTidy (run lib events s)
  unfolding run
  run-IsTidy [] s h = h
  run-IsTidy ((seconds, event) ∷ events) s h =
      run-IsTidy events (happen lib event (record s { clock = s.clock + seconds }))
        (happen-IsTidy event (record s { clock = s.clock + seconds }) (tick-IsTidy seconds s h))

  -- However the calls overlap and whatever the downloads give, no two downloads of one robots.txt
  -- are under way at a time, and two that have ended have ended more than a day apart.
  pub run-AreSpaced :
      (events : List (ℕ × Event lib))
      → let s = run lib events (init lib) in IsOnce s.fetching × AreSpaced s.arrived
  run-AreSpaced events =
      let h =
        run-IsTidy events (init lib)
          (record { once = tt; spaced = tt; past = tt; kept = tt; stale = tt }) in
      (h.once, h.spaced)
