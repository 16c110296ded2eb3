-- ===== src/Config.antt =====
-- src/Config.hpp and src/Config.cpp: the settings that the modelled code reads, and their defaults.
use metric_bench.Prelude.{ℕ, ◌*◌}

-- `Config::StartTimestamp`
abbrev pub start_timestamp : ℕ
start_timestamp = 946684800

-- `Config::MaxMetrics` and `Config::MaxMetricsPerTs`
abbrev pub max_metrics : ℕ
max_metrics = 1000

abbrev pub max_metrics_per_ts : ℕ
max_metrics_per_ts = 100

abbrev pub max_cnt : ℕ
max_cnt = 60

-- The settings that the command line changes: `LoaderThreads`, `LoadMins`, `DBTables`, `MaxDevices`,
-- each an `unsigned int`.
pub record Config : Type 0 where
  pub loader_threads : ℕ
  pub load_mins : ℕ
  pub db_tables : ℕ
  pub max_devices : ℕ

abbrev pub default : Config
default = record { loader_threads = 8; load_mins = 6 * 60; db_tables = 10; max_devices = 1000 }
