-- ===== src/MySqlDriver/Examples.antt =====
-- Two tables that src/MySQLDriver.cpp scans.
use metric_bench.Prelude.{
  ℕ, subst, some-injective, ◌+◌, ◌≤◌, ◌<◌, ◌≡◌, refl, Option, some, ltb, if◌then◌else◌, arith,
}
use metric_bench.Config.{Config, default, start_timestamp}
use metric_bench.Preparer.{TsRange, prep_start}
use metric_bench.MySqlDriver.Ranges.{scan_tables, get_timestamp_range}
use metric_bench.MySqlDriver.Stored.{Covers, get_timestamp_range-Covers, prep_start-later}

abbrev two_tables : Config
two_tables = record default { db_tables = 2 }

abbrev rows : ℕ → Option TsRange
rows table = some (record { min = 1420070400; max = 1420074000 })

-- With table 2 asked for, table 1 is scanned too.
one_of_two :
    get_timestamp_range two_tables
      (λ table.
        some (record { min = 946684800; max = if ltb table 2 then 946690000 else 946685000 }))
      2
      3
    ≡ some (record { min = 946684800; max = 946690000 })
unfolding get_timestamp_range scan_tables
one_of_two = refl

get_timestamp_range-Covers_example :
    (r : TsRange) × (get_timestamp_range two_tables rows 0 3 ≡ some r) × Covers rows 3 r
get_timestamp_range-Covers_example = get_timestamp_range-Covers two_tables rows 0 (omega arith)

stored_small : (table : ℕ) (row : TsRange) → rows table ≡ some row → row.max < 4294967296
stored_small table row e =
    subst (λ (r : TsRange). r.max < 4294967296) (some-injective e) (omega arith)

prep_start-later_example :
    (r : TsRange) × (get_timestamp_range two_tables rows 0 3 ≡ some r)
    × (start_timestamp ≤ prep_start r)
    × ((table : ℕ) (row : TsRange)
        → 1 ≤ table
        → table ≤ 2
        → rows table ≡ some row
        → row.max + 60 ≤ prep_start r)
prep_start-later_example = prep_start-later two_tables rows (omega arith) stored_small
