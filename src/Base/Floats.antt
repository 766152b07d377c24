-- ===== src/Base/Floats.antt =====
-- The floating-point numbers of the program: a type with operations that no law is assumed of,
-- but that the order of the numbers that occur is total (there is no NaN among them).
use Prim.Native.Nat.{ℕ}
use mathlib.Core.Bool.{Bool}
use axon_search.Base.Sort.{IsOrder}

pub record Floats : Type 1 where
  pub Float : Type 0
  pub zero : Float
  pub of_ℕ : ℕ → Float
  pub add : Float → Float → Float
  pub sub : Float → Float → Float
  pub abs : Float → Float
  pub log1p : Float → Float
  pub mul : Float → Float → Float
  pub div : Float → Float → Float
  pub leb : Float → Float → Bool
  pub order : IsOrder leb
