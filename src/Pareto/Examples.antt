-- ===== src/Pareto/Examples.antt =====
-- `GetNext` of src/pareto.hpp over whole numbers, whose only draw below 1 is 0.
use metric_bench.Prelude.{ℕ, ◌+◌, ◌/◌, ◌≤◌, ◌≡◌, refl, some, arith}
use metric_bench.Prelude.Double.{integers}
use metric_bench.Prelude.Int.{ℤ, pos, negsuc, pos_part, quot, ◌-ℤ◌, ◌+ℤ◌, ◌≤ℤ◌}
use metric_bench.Pareto.{ParetoGenerator, new, get_next}
use metric_bench.Pareto.Bounds.{
  IsShare, IsAtLeastOne, IsNotPositive, IsWithin, IsPowerLaw, get_next_bounds,
}

abbrev pub IsZero : ℤ → Type 0
IsZero u = u ≡ pos 0

zero_rest : (u : ℤ) → IsZero u → IsShare integers (pos 1 -ℤ u)
unfolding ◌-ℤ◌
zero_rest u e = rw e (refl, refl)

quot_minus_one : (k : ℕ) → IsNotPositive integers (quot (negsuc 0) k)
quot_minus_one k = (ground arith, ground arith)

one_share : (x : ℤ) → IsShare integers x → IsAtLeastOne integers x
one_share x h = (h.0, ground arith)

quot_up : (n k : ℕ) → 1 ≤ k → n / k ≤ n
quot_up n k h = grind arith

quot_within : (s : ℤ) (k : ℕ) → 1 ≤ k → IsWithin integers s (quot s k)
quot_within (pos n) k h = (
  λ p. (omega arith, omega (arith, quot_up n k h)),
  λ q. (omega (arith, quot_up n k h), omega (arith, quot_up n k h)),
)
quot_within (negsuc n) k h = (
  λ p. absurd (omega arith),
  λ q. (ground (arith, quot_up (n + 1) k), ground (arith, quot_up (n + 1) k)),
)

pub integers-IsPowerLaw : IsPowerLaw integers IsZero
integers-IsPowerLaw = record {
  rest = zero_rest;
  power = λ h above. quot_minus_one (pos_part (h -ℤ pos 1));
  pow_share = λ x p share negative. one_share x share;
  quotient = λ s y small many. quot_within s (pos_part y) (positive y many);
}
  where
    positive : (y : ℤ) → IsAtLeastOne integers y → 1 ≤ pos_part y
    positive y many = ground arith

pub made : (g : ParetoGenerator integers) × (new integers (pos 2) ≡ some g)
unfolding new
made = (_, refl)

-- The least draw gives b + 1.
least : get_next integers made.0 (pos 0) (pos 100) (pos 0) ≡ pos 1
unfolding get_next made new ◌+ℤ◌ ◌-ℤ◌
least = refl

get_next_bounds_example :
    (pos 5 ≤ℤ pos 9 +ℤ pos 1
      → (pos 5 ≤ℤ get_next integers made.0 (pos 0) (pos 5) (pos 9))
        × (get_next integers made.0 (pos 0) (pos 5) (pos 9) ≤ℤ pos 9 +ℤ pos 1))
    × (pos 9 +ℤ pos 1 ≤ℤ pos 5
        → (pos 9 +ℤ pos 1 ≤ℤ get_next integers made.0 (pos 0) (pos 5) (pos 9))
          × (get_next integers made.0 (pos 0) (pos 5) (pos 9) ≤ℤ pos 5))
unfolding ◌+ℤ◌ ◌-ℤ◌
get_next_bounds_example =
    get_next_bounds integers IsZero integers-IsPowerLaw (pos 2) made.0 made.1 (pos 0) refl (pos 5)
      (pos 9) (omega arith, omega arith)
