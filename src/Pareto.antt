-- ===== src/Pareto.antt =====
-- src/pareto.hpp: `ParetoGenerator`. A draw of the uniform distribution is an argument; what `double` and
-- `std::pow` do is the parameter `d`. A NaN for the constructor is left out, and so is a
-- `b - a + 1` that is no `int`, which the program leaves undefined.
pub mod Bounds
pub mod Examples
use metric_bench.Prelude.{ℕ, Bool, Option, none, some, if◌then◌else◌}
use metric_bench.Prelude.Double.{Double}
use metric_bench.Prelude.Int.{ℤ, pos, negsuc, ◌+ℤ◌, ◌-ℤ◌, int32}

module _ (d : Double) where
  -- `class ParetoGenerator`, but for its random engine
  pub record ParetoGenerator : Type 0 where
    pub pareto_h : d.Carrier
    pub pareto_power : d.Carrier

  -- the constructor, which throws where h is at most 1
  unfoldable pub new : (h : d.Carrier) → Option ParetoGenerator
  new h =
      if d.lt (d.of_ℤ (pos 1)) h
      then some (record {
        pareto_h = h;
        pareto_power = d.div (d.of_ℤ (negsuc 0)) (d.sub h (d.of_ℤ (pos 1)));
      })
      else none

  -- `pow( 1 - distribution(generator), pareto_power)`
  abbrev pub stretch : ParetoGenerator → (uniform : d.Carrier) → d.Carrier
  stretch g uniform = d.pow (d.sub (d.of_ℤ (pos 1)) uniform) g.pareto_power

  -- `int GetNext(int a, int b)`
  unfoldable pub get_next : ParetoGenerator → (uniform : d.Carrier) → (a b : ℤ) → ℤ
  get_next g uniform a b = a +ℤ d.trunc (d.div (d.of_ℤ (b -ℤ a +ℤ pos 1)) (stretch g uniform))

  -- `double GetNext(double a, double b)`
  unfoldable pub get_next_double : ParetoGenerator → (uniform a b : d.Carrier) → d.Carrier
  get_next_double g uniform a b =
      d.add a (d.div (d.add (d.sub b a) (d.of_ℤ (pos 1))) (stretch g uniform))

  -- `GetNext(n, 0)` of an `unsigned int`, which is converted to an `int`
  unfoldable pub get_next_from : ParetoGenerator → (uniform : d.Carrier) → (n : ℕ) → ℤ
  unfolding get_next
  get_next_from g uniform n = get_next g uniform (int32 (pos n)) (pos 0)
