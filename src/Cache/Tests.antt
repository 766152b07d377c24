-- ===== src/Cache/Tests.antt =====
-- Runs of the cache, and instances of the theorems about it.
use axon_search.Base.{ℕ, ◌+◌, ◌≡◌, refl, ◌≤◌, none, some, List, [], ◌∷◌, arith}
use axon_search.Base.Dict.{nat_key, lookup, insert, erase}
use axon_search.Cache.{Cache, init, get, set, clear}
use axon_search.Cache.History.{Call, write, run, step, last_write, get-last_write}
use axon_search.Cache.Eviction.{set-items_full}
use native.Mathlib.Decide.{ℕ_discrete}

program : Unit {0}
unfolding init get set clear lookup insert erase run step last_write ℕ_discrete
program = tt

abbrev two : Cache ℕ ℕ
two = record {
  maxsize = 2;
  ttl = 30;
  items = (1, (10, 30)) ∷ (2, (20, 35)) ∷ [];
  hits = 0;
  misses = 0;
}

abbrev calls : List (Call ℕ ℕ)
calls = write 0 1 10 ∷ write 5 2 20 ∷ []

two_lem : run calls (init 2 30) ≡ two
unfolding program
two_lem = refl

-- At time 32 the entry of key 1, which was used last, has expired, and the live entry of key 2 goes.
abbrev stale : Cache ℕ ℕ
stale = record two { items = (2, (20, 35)) ∷ (1, (10, 30)) ∷ [] }

set-items_full_example : (set 32 3 30 stale).items ≡ (1, (10, 30)) ∷ (3, (30, 62)) ∷ []
unfolding lookup ℕ_discrete
set-items_full_example =
    set-items_full 32 3 30 stale (2, (20, 35)) ((1, (10, 30)) ∷ []) refl refl refl (omega arith)

get-last_write_example : (t : ℕ) × (last_write 1 none calls ≡ some (10, t)) × (29 ≤ t + 30)
unfolding program
get-last_write_example = get-last_write 2 30 calls 29 1 10 refl
