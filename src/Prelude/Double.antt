-- ===== src/Prelude/Double.antt =====
-- The type `double` of the program: its arithmetic is the compiler's and is a parameter.
use metric_bench.Prelude.{refl, ◌/◌, ℕ, ◌^◌, ◌≤◌, ◌<◌, ◌≡◌, Bool}
use metric_bench.Prelude.Int.{ℤ, quot, ltb_ℤ, quot-*ℤ, pos, pos_part, neg_part, ◌+ℤ◌, ◌-ℤ◌, ◌*ℤ◌}

pub record Double : Type 1 where
  pub Carrier : Type 0
  -- conversion from an integer type
  pub of_ℤ : ℤ → Carrier
  -- `static_cast` to an integer type, towards zero
  pub trunc : Carrier → ℤ
  pub add : Carrier → Carrier → Carrier
  pub sub : Carrier → Carrier → Carrier
  pub mul : Carrier → Carrier → Carrier
  pub div : Carrier → Carrier → Carrier
  -- `std::pow`
  pub pow : Carrier → Carrier → Carrier
  -- `<`
  pub lt : Carrier → Carrier → Bool
  -- a decimal literal, m / 10 ^ k
  pub literal : (m k : ℕ) → Carrier

-- The integers that a `double` holds exactly.
abbrev pub IsSmall : ℤ → Type 0
IsSmall a = (pos_part a ≤ 2 ^ 53) × (neg_part a ≤ 2 ^ 53)

-- IEEE 754: an operation whose operands and exact result are such integers gives that result.
pub record IsExact (d : Double) : Type 0 where
  pub add_exact :
      (a b : ℤ)
      → IsSmall a
      → IsSmall b
      → IsSmall (a +ℤ b)
      → d.add (d.of_ℤ a) (d.of_ℤ b) ≡ d.of_ℤ (a +ℤ b)
  pub sub_exact :
      (a b : ℤ)
      → IsSmall a
      → IsSmall b
      → IsSmall (a -ℤ b)
      → d.sub (d.of_ℤ a) (d.of_ℤ b) ≡ d.of_ℤ (a -ℤ b)
  pub div_exact :
      (a : ℤ) (n : ℕ)
      → 0 < n
      → IsSmall a
      → IsSmall (pos n)
      → IsSmall (a *ℤ pos n)
      → d.div (d.of_ℤ (a *ℤ pos n)) (d.of_ℤ (pos n)) ≡ d.of_ℤ a

-- Whole numbers in the place of `double`, for examples: quotients are rounded towards zero.
abbrev pub integers : Double
integers = record {
  Carrier = ℤ;
  of_ℤ = λ a. a;
  trunc = λ a. a;
  add = ◌+ℤ◌;
  sub = ◌-ℤ◌;
  mul = ◌*ℤ◌;
  div = λ a b. quot a (pos_part b);
  pow = λ a _. a;
  lt = ltb_ℤ;
  literal = λ m k. pos (m / 10 ^ k);
}

pub integers-IsExact : IsExact integers
integers-IsExact = record {
  add_exact = λ a b _ _ _. refl;
  sub_exact = λ a b _ _ _. refl;
  div_exact = λ a n h _ _ _. quot-*ℤ a n h;
}
