-- ===== src/RunningMean.antt =====
-- src/RunningMean.hpp and src/RunningMean.cpp, over the arithmetic of `double` as a parameter.
pub mod Laws
pub mod Examples
use metric_bench.Prelude.{ℕ, ◌+◌}
use metric_bench.Prelude.Double.{Double}
use metric_bench.Prelude.Int.{pos}

module _ (d : Double) where
  open d use {Carrier, of_ℤ, add, sub, div}

  -- `class RunningMean`
  pub record RunningMean : Type 0 where
    pub n : ℕ
    pub v1 : Carrier
    pub running : Carrier

  -- the constructor
  unfoldable pub first_sample : Carrier → RunningMean
  first_sample v1 = record { n = 1; v1 = v1; running = of_ℤ (pos 0) }

  -- `addSample`
  unfoldable pub add_sample : RunningMean → Carrier → RunningMean
  add_sample m vi = record m { n = m.n + 1; running = add m.running (sub vi m.v1) }

  -- `mean`
  unfoldable pub mean : RunningMean → Carrier
  mean m = add m.v1 (div m.running (of_ℤ (pos m.n)))

  -- `samples`
  unfoldable pub samples : RunningMean → ℕ
  samples m = m.n
