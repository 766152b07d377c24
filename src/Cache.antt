-- ===== src/Cache.antt =====
-- utils/cache.py: `TTLCache`. The ordered dictionary is a list of entries, least recently used
-- first. Times are ticks of the monotonic clock, and a method takes the reading that it makes.
-- A negative `ttl` or `maxsize` takes the branches of 0.
pub mod Limits
pub mod History
pub mod Eviction
pub mod Keys
mod Tests
use axon_search.Base.{
  ℕ, zero, suc, ◌+◌, Bool, true, false, ◌||◌, Option, none, some, List, [], ◌∷◌, ◌++◌, ltb, leb,
  if◌then◌else◌, length,
}
use axon_search.Base.Dict.{Key, lookup, insert, erase}

pub record Cache {ℓ} (K V : Type ℓ) : Type ℓ where
  pub maxsize : ℕ
  pub ttl : ℕ
  pub items : List (K × (V × ℕ))
  pub hits : ℕ
  pub misses : ℕ

unfoldable pub init {ℓ} : {K V : Type ℓ} → ℕ → ℕ → Cache K V
init maxsize ttl = record { maxsize = maxsize; ttl = ttl; items = []; hits = 0; misses = 0 }

-- `while len(d) > n: d.popitem(last=False)`
unfoldable pub trim {ℓ} : {A : Type ℓ} → ℕ → List A → List A
trim n [] = []
trim n (x ∷ xs) = if ltb n (length (x ∷ xs)) then trim n xs else x ∷ xs

module _ {ℓ} {K V : Type ℓ} where
  unfoldable pub clear : Cache K V → Cache K V
  clear c = record c { items = [] }

  unfoldable pub size : Cache K V → ℕ
  size c = length c.items

  unfoldable pub stats : Cache K V → record { size : ℕ; hits : ℕ; misses : ℕ }
  unfolding size
  stats c = record { size = size c; hits = c.hits; misses = c.misses }

module _ {ℓ} {K V : Type ℓ} ⦃e : Key K⦄ where
  -- `d.move_to_end(k)`, for an entry that is there
  unfoldable pub move_to_end : K → V → List (K × V) → List (K × V)
  move_to_end k v d = erase k d ++ (k, v) ∷ []

module _ {ℓ} {K V : Type ℓ} ⦃e : Key K⦄ where
  -- The part of `get` behind the test for a missing entry.
  unfoldable take_entry : ℕ → K → V × ℕ → Cache K V → Option V × Cache K V
  unfolding move_to_end
  take_entry now key (value, expires_at) c =
      if ltb expires_at now
      then (none, record c { items = erase key c.items; misses = c.misses + 1 })
      else (
        some value,
        record c { items = move_to_end key (value, expires_at) c.items; hits = c.hits + 1 },
      )

  unfoldable pub get : ℕ → K → Cache K V → Option V × Cache K V
  unfolding take_entry
  get now key c = if leb c.ttl 0 then (none, c) else elim (lookup key c.items) [
    | none ↦ (none, record c { misses = c.misses + 1 })
    | some entry ↦ take_entry now key entry c
  ]

  unfoldable pub set : ℕ → K → V → Cache K V → Cache K V
  unfolding trim move_to_end
  set now key value c =
      if leb c.ttl 0 || leb c.maxsize 0
      then c
      else (let entry : V × ℕ = (value, now + c.ttl) in
          let items = insert key entry c.items in
          record c { items = trim c.maxsize (move_to_end key entry items) })
