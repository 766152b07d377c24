-- ===== src/Base/Strict.antt =====
-- Orders in which only equal items are in order both ways.
use mathlib.Core.Path.{◌≡◌}
use mathlib.Core.Bool.{Bool, true, false}
use mathlib.Core.Logic.{ite}
use native.Mathlib.Omega.{arith}
use axon_search.Base.Tests.{leb}
use axon_search.Base.Sort.{IsOrder}
use axon_search.Base.Text.{text_leb}
use axon_search.Base.Text.Order.{text_leb_total, text_leb_trans, text_leb_antisym}

pub record IsStrict {A : Type 0} (le : A → A → Bool) : Type 0 where
  pub order : IsOrder le
  pub antisym : (a b : A) → le a b ≡ true → le b a ≡ true → a ≡ b

-- Pairs are compared by their first parts, and by the second ones where these are equal.
unfoldable pub first_then :
    {A B : Type 0} → Discrete A → (A → A → Bool) → (B → B → Bool) → A × B → A × B → Bool
first_then dec le le' (a, b) (a', b') = ite (dec a a') (le' b b') (le a a')

module _ {A B : Type 0} (dec : Discrete A) (le : A → A → Bool) (le' : B → B → Bool)
    (s : IsStrict le) (s' : IsStrict le') where
  first_then_total :
      (x y : A × B) → first_then dec le le' x y ≡ false → first_then dec le le' y x ≡ true
  unfolding first_then
  first_then_total (a, b) (c, d) h = ground (arith, h, s.order.total a c, s'.order.total b d)

  first_then_trans :
      (x y z : A × B)
      → first_then dec le le' x y ≡ true
      → first_then dec le le' y z ≡ true
      → first_then dec le le' x z ≡ true
  unfolding first_then
  first_then_trans (a, b) (c, d) (e, f) h k =
      ground (arith, h, k, s.order.trans a c e, s'.order.trans b d f, s.antisym a c, s.antisym c e)

  first_then_antisym :
      (x y : A × B) → first_then dec le le' x y ≡ true → first_then dec le le' y x ≡ true → x ≡ y
  unfolding first_then
  first_then_antisym (a, b) (c, d) h k = ground (arith, h, k, s.antisym a c, s'.antisym b d)

  pub lexicographic : IsStrict (first_then dec le le')
  lexicographic = record {
    order = record { total = first_then_total; trans = first_then_trans };
    antisym = first_then_antisym;
  }

pub leb-IsStrict : IsStrict leb
leb-IsStrict = record {
  order = record { total = λ a b h. ground arith; trans = λ a b c h k. ground arith };
  antisym = λ a b h k. ground arith;
}

-- An order by values that tell the items apart.
pub by_value :
    {A B : Type 0} (f : A → B)
    → ((x y : A) → f x ≡ f y → x ≡ y)
    → (le : B → B → Bool) → IsStrict le
    → IsStrict (λ (x : A) y. le (f x) (f y))
by_value f injective le s = record {
  order = record {
    total = λ x y. s.order.total (f x) (f y);
    trans = λ x y z. s.order.trans (f x) (f y) (f z);
  };
  antisym = λ x y h k. injective x y (s.antisym (f x) (f y) h k);
}

pub text_leb-IsStrict : IsStrict text_leb
text_leb-IsStrict = record {
  order = record { total = text_leb_total; trans = text_leb_trans };
  antisym = text_leb_antisym;
}
