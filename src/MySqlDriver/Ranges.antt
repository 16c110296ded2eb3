-- ===== src/MySqlDriver/Ranges.antt =====
-- src/MySQLDriver.cpp: `getTimestampRange` and `getDeviceRange`. What the database answers for a table is
-- a parameter: `none` is a result set with no row, and a number is what `getUInt64` or `getUInt` gives.
use metric_bench.Prelude.{
  ℕ, zero, suc, ◌+◌, ◌-◌, ◌^◌, min, max, Option, none, some, leb, ◌==◌, if◌then◌else◌,
}
use metric_bench.Config.{Config, start_timestamp}
use metric_bench.Preparer.{TsRange, u32}

-- `GenericDriver::dev_range`
pub record DevRange : Type 0 where
  pub min : ℕ
  pub max : ℕ

-- `for (auto table=start_table; table <= end_table; table++)`; `none` is a loop that goes on after the
-- given number of rounds
unfoldable pub scan_tables {ℓ} :
    {R : Type ℓ} → (body : ℕ → R → R) → (end_table fuel table : ℕ) → R → Option R
scan_tables body end_table zero table ret = none
scan_tables body end_table (suc fuel) table ret =
    let later = scan_tables body end_table fuel (u32 (table + 1)) (body table ret) in
    if leb table end_table then later else some ret

-- The inner `start_table` is a variable of its own, so the loop starts at 1 whatever the argument.
abbrev pub last_table : Config → (table_id : ℕ) → ℕ
last_table c table_id = if table_id == 0 then c.db_tables else table_id

-- the body of the loop of `getTimestampRange`
abbrev pub widened : Option TsRange → TsRange → TsRange
widened none ret = ret
widened (some row) ret = record { min = min ret.min row.min; max = max ret.max row.max }

-- `if (ret.min == -1)`
abbrev pub reset_unset : TsRange → TsRange
reset_unset ret = if ret.min == 2 ^ 64 - 1 then record ret { min = 0 } else ret

-- `getTimestampRange`
unfoldable pub get_timestamp_range :
    Config → (rows : ℕ → Option TsRange) → (table_id fuel : ℕ) → Option TsRange
unfolding scan_tables
get_timestamp_range c rows table_id fuel =
    scan_tables (λ table ret. reset_unset (widened (rows table) ret)) (last_table c table_id) fuel 1
      (record { min = start_timestamp; max = start_timestamp })

-- the body of the loop of `getDeviceRange`
abbrev pub widened_devices : Option DevRange → DevRange → DevRange
widened_devices none ret = record { min = 0; max = 0 }
widened_devices (some row) ret = record { min = min ret.min row.min; max = max ret.max row.max }

-- `getDeviceRange`
unfoldable pub get_device_range :
    Config → (rows : ℕ → Option DevRange) → (table_id fuel : ℕ) → Option DevRange
unfolding scan_tables
get_device_range c rows table_id fuel =
    scan_tables (λ table. widened_devices (rows table)) (last_table c table_id) fuel 1
      (record { min = 2 ^ 32 - 1; max = 0 })
