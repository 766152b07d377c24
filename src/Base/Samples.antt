-- ===== src/Base/Samples.antt =====
-- Floating-point numbers of the tests: hundredths, as natural numbers.
use Prim.Native.Nat.{ℕ, zero, suc, ◌+◌, ◌-◌, ◌*◌, ◌/◌}
use native.Mathlib.Omega.{arith}
use axon_search.Base.Tests.{leb, leb→le, leb→lt, le→leb}
use axon_search.Base.Sort.{IsOrder}
use axon_search.Base.Floats.{Floats}

abbrev pub quotient : ℕ → ℕ → ℕ
quotient n zero = 0
quotient n (suc m) = n / suc m

pub leb-IsOrder : IsOrder leb
leb-IsOrder = record {
  total = λ a b h. le→leb b a (omega (arith, leb→lt a b h));
  trans = λ a b c h k. le→leb a c (omega (arith, leb→le a b h, leb→le b c k));
}

abbrev pub hundredths : Floats
hundredths = record {
  Float = ℕ;
  zero = 0;
  of_ℕ = λ n. 100 * n;
  add = λ a b. a + b;
  sub = λ a b. a - b;
  abs = λ a. a;
  log1p = λ a. a;
  mul = λ a b. (a * b) / 100;
  div = λ a b. quotient (100 * a) b;
  leb = leb;
  order = leb-IsOrder;
}
