-- ===== src/RunningMean/Examples.antt =====
-- The running mean at concrete samples, with integers for `double`.
use metric_bench.Prelude.{◌≡◌, [], ◌∷◌, arith}
use metric_bench.Prelude.Double.{integers, integers-IsExact}
use metric_bench.Prelude.Int.{pos}
use metric_bench.RunningMean.{first_sample, mean, samples}
use metric_bench.RunningMean.Laws.{add_samples, mean-add_samples}

mean-add_samples_example :
    let r = add_samples integers (first_sample integers (pos 3)) (8 ∷ 1 ∷ []) in
    (samples integers r ≡ 3) × (mean integers r ≡ pos 4)
mean-add_samples_example =
    mean-add_samples integers integers-IsExact 10 3 4 (8 ∷ 1 ∷ []) (omega arith) (omega arith)
      (omega arith) (omega arith) (omega arith)
