-- ===== src/Fleet/Streamed.antt =====
-- A run of src/MySQLDriver.cpp with a stream, up to the first display.
use metric_bench.Prelude.{ℕ, ◌≡◌, false, ◌⊎◌, []}
use metric_bench.Prelude.Double.{Double}
use metric_bench.Prelude.Int.{ℤ}
use metric_bench.Message.{Message}
use metric_bench.LatencyStats.State.{LatencyStats}
use metric_bench.SampledStats.State.{SampledStats}
use metric_bench.Fleet.{faulted, Fleet}
use metric_bench.Fleet.Ready.{HasRoom, HasThreads}
use metric_bench.Fleet.Display.{IsCut}

module _ (d : Double) (display_freq : ℤ) where
  record Inv (n : ℕ) (s : Fleet d) : Type 0 where
    threads : HasThreads d n s.latency_stats
    rooms : (i : ℕ) → HasRoom (s.stats i)
    stays : (i : ℕ) → s.exited i ≡ false
    shows : (s.shown ≡ []) ⊎ ((s.status ≡ faulted) × IsCut d s.shown)
