-- ===== src/Crawler/Fetch/Politeness.antt =====
-- The delay between two requests to one domain (crawler/async_crawler.py).
use axon_search.Base.{ℕ, ◌+◌, ◌≤◌, List, [], ◌∷◌, arith}
use axon_search.Crawler.Fetch.{Bucket, wait, acquire}

-- The times at which the calls of `acquire` end, for their readings before and after the sleep.
unfoldable pub accesses : Bucket → List (ℕ × ℕ) → List ℕ
accesses b [] = []
accesses b ((now, woken) ∷ calls) = woken ∷ accesses (acquire now woken b) calls

-- The readings of calls that follow each other, none of which wakes before its time.
abbrev pub IsTimed : Bucket → List (ℕ × ℕ) → Type 0
IsTimed b [] = Unit
IsTimed b ((now, woken) ∷ calls) =
    (b.last_access ≤ now) × (now + wait now b ≤ woken) × IsTimed (acquire now woken b) calls

-- Each time comes at least `delay` after the one before it, the first one after `last`.
abbrev pub IsSpaced : ℕ → ℕ → List ℕ → Type 0
IsSpaced delay last [] = Unit
IsSpaced delay last (t ∷ ts) = (last + delay ≤ t) × IsSpaced delay t ts

-- Two requests to one domain are at least the domain's delay apart, provided that a sleep lasts as
-- long as asked for and that the clock never runs back.
accesses-IsSpaced :
    (b : Bucket) (calls : List (ℕ × ℕ))
    → IsTimed b calls
    → IsSpaced b.delay b.last_access (accesses b calls)
unfolding accesses acquire wait
accesses-IsSpaced b [] h = tt
accesses-IsSpaced b ((now, woken) ∷ calls) h =
    (omega (arith, h.1), accesses-IsSpaced (acquire now woken b) calls h.2)
