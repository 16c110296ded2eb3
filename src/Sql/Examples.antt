-- ===== src/Sql/Examples.antt =====
-- Statements of src/MySQLDriver.cpp for a few rows. A `double` is written as a whole number here.
use metric_bench.Prelude.{◌≡◌, refl, some, List, [], ◌∷◌, map, ltb, arith}
use metric_bench.Prelude.Double.{integers}
use metric_bench.Prelude.Int.{ℤ, pos}
use metric_bench.Metrics.{Row}
use metric_bench.Uri.Slices.{Lacks}
use metric_bench.Main.{codes}
use metric_bench.Message.{select_k2}
use metric_bench.Text
use metric_bench.Text.{decimal_ℤ, Lacks-decimal_ℤ}
use metric_bench.Schema.Scripts.{execute}
use metric_bench.MySqlDriver.Queries.{threw}
use metric_bench.Sql.{insert_text, delete_text, select_text, delete_script}
use metric_bench.Sql.Reading.{read_insert}
use metric_bench.Sql.RoundTrip.{entry, read_insert-insert_text}

abbrev closed : (v : ℤ) → Lacks b')' (decimal_ℤ v)
closed v = Lacks-decimal_ℤ b')' v (omega arith) (omega arith)

abbrev two_rows : List (Row integers)
two_rows =
    record { ts = 60; device_id = 7; metric_id = pos 500; cnt = pos 12; val = pos 31 }
    ∷ record { ts = 60; device_id = 7; metric_id = pos 3; cnt = pos 60; val = pos 0 }
    ∷ []

written :
    insert_text integers decimal_ℤ 4 two_rows
    ≡ codes
        "INSERT INTO metrics4 (ts, device_id, metric_id, cnt, val ) VALUES (from_unixtime(60), 7, 500,12,31),(from_unixtime(60), 7, 3,60,0)"
unfolding insert_text Text.decimal Text.decimal_ℤ
written = refl

deleted :
    delete_text 4 60 7 ≡ codes "DELETE FROM metrics4 WHERE ts=from_unixtime(60) AND device_id=7"
unfolding delete_text Text.decimal
deleted = refl

-- A draw beyond the last metric selects the last one.
selected :
    select_text select_k2 4 7 (pos 1200)
    ≡ codes
        "SELECT ts,device_id,val FROM metrics4, (select max(ts) mt from metrics4) t1 WHERE ts >= DATE_SUB(t1.mt, INTERVAL 20 MINUTE) AND metric_id=1000"
unfolding select_text Text.decimal Text.decimal_ℤ
selected = refl

-- Where the second statement fails nothing is committed.
uncommitted :
    delete_script 4 60 7 (λ n. ltb n 1) [] ≡ (threw, codes "BEGIN" ∷ delete_text 4 60 7 ∷ [])
unfolding delete_script execute
uncommitted = refl

read_insert-insert_text_example :
    read_insert (insert_text integers decimal_ℤ 4 two_rows)
    ≡ some (4, map (entry integers decimal_ℤ) two_rows)
read_insert-insert_text_example = read_insert-insert_text integers decimal_ℤ closed 4 two_rows
