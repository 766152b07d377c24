-- ===== src/Base/Counter.antt =====
-- Counters: `d[k] += n` on a `defaultdict(int)`, and `d[k] = d.get(k, 0) + n`.
use Prim.Native.Nat.{ℕ, ◌+◌}
use mathlib.Core.Path.{◌≡◌}
use mathlib.Core.Logic.{ite}
use mathlib.Core.List.{List, [], ◌∷◌}
use native.Mathlib.Omega.{arith}

unfoldable pub add_to {ℓ} : {K : Type ℓ} → Discrete K → K → ℕ → List (K × ℕ) → List (K × ℕ)
add_to dec k n [] = (k, n) ∷ []
add_to dec k n ((j, m) ∷ d) = ite (dec j k) ((j, m + n) ∷ d) ((j, m) ∷ add_to dec k n d)

-- The sum of all values.
unfoldable pub total {ℓ} : {K : Type ℓ} → List (K × ℕ) → ℕ
total [] = 0
total ((k, n) ∷ d) = n + total d

-- `d.get(k, 0)`
unfoldable pub value : {K : Type 0} → Discrete K → K → List (K × ℕ) → ℕ
value dec k [] = 0
value dec k ((j, n) ∷ d) = ite (dec j k) n (value dec k d)

pub total-add_to {ℓ} :
    {K : Type ℓ} (dec : Discrete K) (k : K) (n : ℕ) (d : List (K × ℕ))
    → total (add_to dec k n d) ≡ total d + n
unfolding total add_to
total-add_to dec k n [] = omega arith
total-add_to dec k n ((j, m) ∷ d) = ground (arith, total-add_to dec k n d)

pub value-add_to :
    {K : Type 0} (dec : Discrete K) (k j : K) (n : ℕ) (d : List (K × ℕ))
    → value dec j (add_to dec k n d) ≡ value dec j d + ite (dec k j) n 0
unfolding value add_to
value-add_to dec k j n [] = ground arith
value-add_to dec k j n ((i, m) ∷ d) = ground (arith, value-add_to dec k j n d)
