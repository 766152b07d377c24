-- ===== src/Crawler/Robots/Tests.antt =====
-- An instance of the theorem about the downloads.
use axon_search.Base.{ℕ, ◌≡◌, refl, some, true, List, [], ◌∷◌}
use axon_search.Base.Text.{codes, Text-discrete}
use axon_search.Base.Dict.{lookup, insert, contains}
use axon_search.Crawler.Crawl.{drop_at}
use axon_search.Crawler.Robots.{Library, raised, received, is_expired, fetch}
use axon_search.Crawler.Robots.Locks.{Event, ask, acquire, arrive, init, run}
use axon_search.Crawler.Robots.Once.{IsOnce}
use axon_search.Crawler.Robots.Spacing.{AreSpaced, run-AreSpaced}

abbrev library : Library
library = record {
  Parser = ℕ;
  Delay = ℕ;
  default_delay = 1;
  blank = 0;
  allow_all = 1;
  parse = λ text. 2;
  can_fetch = λ parser url. true;
  delay_of = λ parser. some 5;
  netloc = λ url. url;
}

-- Two calls of one domain overlap; the second finds the entry of the first, and a third one, more
-- than a day later, downloads again.
abbrev calls : List (ℕ × Event library)
calls =
    (1, ask (codes "a.org"))
    ∷ (0, ask (codes "a.org"))
    ∷ (1, acquire 0)
    ∷ (1, acquire 0)
    ∷ (2, arrive 0 (received (codes "User-agent: *")))
    ∷ (1, acquire 0)
    ∷ (90000, ask (codes "a.org"))
    ∷ (1, acquire 0)
    ∷ (1, arrive 0 raised)
    ∷ []

two_downloads :
    (run library calls (init library)).arrived ≡ (codes "a.org", 90008) ∷ (codes "a.org", 5) ∷ []
unfolding run lookup insert contains Text-discrete is_expired fetch drop_at
two_downloads = refl

run-AreSpaced_example :
    let s = run library calls (init library) in IsOnce s.fetching × AreSpaced s.arrived
run-AreSpaced_example = run-AreSpaced library calls
