-- ===== src/Sql.antt =====
-- src/MySQLDriver.cpp and src/CassandraDriver.cpp: the text of the statements, and the transactions that
-- they are executed in. How a `double` is written to a stream is a parameter, `show`.
pub mod Reading
pub mod RoundTrip
pub mod Examples
use metric_bench.Prelude.{ℕ, Bool, true, false, List, [], ◌∷◌, ◌++◌, ltb, if◌then◌else◌}
use metric_bench.Prelude.Double.{Double}
use metric_bench.Prelude.Int.{ℤ, pos, ltb_ℤ}
use metric_bench.Config.{max_metrics}
use metric_bench.Message.{MessageType, select_k1, select_k2, select_k3}
use metric_bench.Preparer.{TsRange}
use metric_bench.Metrics.{Row}
use metric_bench.Uri.{Bytes}
use metric_bench.Main.{codes}
use metric_bench.Text.{decimal, decimal_ℤ}
use metric_bench.Schema.{table_name}
use metric_bench.Schema.Scripts.{Script, execute, ◌>>◌}

module _ (d : Double) (show : d.Carrier → Bytes) where
  -- what a round of the metrics loop of `InsertQuery` writes to `sql_val`, but for the comma
  unfoldable pub row_text : Row d → Bytes
  row_text r =
      codes "(from_unixtime("
      ++ (decimal r.ts
          ++ (codes "), "
              ++ (decimal r.device_id
                  ++ (codes ", "
                      ++ (decimal_ℤ r.metric_id
                          ++ (codes ","
                              ++ (decimal_ℤ r.cnt ++ (codes "," ++ (show r.val ++ codes ")")))))))))

  -- `sql_val` after the loop: a comma stands before each row but the first
  unfoldable pub values_text : (notfirst : Bool) → List (Row d) → Bytes
  unfolding row_text
  values_text notfirst [] = []
  values_text notfirst (r ∷ rows) =
      (if notfirst then codes "," else []) ++ (row_text r ++ values_text true rows)

  -- the statement of `InsertQuery`
  unfoldable pub insert_text : (table_id : ℕ) → List (Row d) → Bytes
  unfolding values_text
  insert_text table_id rows =
      codes "INSERT INTO "
      ++ (table_name table_id
          ++ (codes " (ts, device_id, metric_id, cnt, val ) VALUES " ++ values_text false rows))

  -- a statement of the batch of CassandraDriver; the row has the timestamp in milliseconds
  unfoldable pub cassandra_text : Row d → Bytes
  cassandra_text r =
      codes "INSERT INTO metricsdata2.metrics (device_id, metric_id, ts, cnt, val) VALUES ("
      ++ (decimal r.device_id
          ++ (codes ","
              ++ (decimal_ℤ r.metric_id
                  ++ (codes ","
                      ++ (decimal r.ts
                          ++ (codes ","
                              ++ (decimal_ℤ r.cnt
                                  ++ (codes "," ++ (show r.val ++ codes ");")))))))))

  -- the statements of `InsertQuery`, in the order in which they are executed
  unfoldable pub insert_script : (table_id : ℕ) → List (Row d) → Script Bytes
  unfolding insert_text
  insert_script table_id rows = do
    execute (codes "BEGIN")
    execute (insert_text table_id rows)
    execute (codes "COMMIT")

-- the statement of `DeleteQuery`
unfoldable pub delete_text : (table_id timestamp device_id : ℕ) → Bytes
delete_text table_id timestamp device_id =
    codes "DELETE FROM "
    ++ (table_name table_id
        ++ (codes " WHERE ts=from_unixtime("
            ++ (decimal timestamp ++ (codes ") AND device_id=" ++ decimal device_id))))

unfoldable pub delete_script : (table_id timestamp device_id : ℕ) → Script Bytes
unfolding delete_text
delete_script table_id timestamp device_id = do
  execute (codes "BEGIN")
  execute (delete_text table_id timestamp device_id)
  execute (codes "COMMIT")

-- `metric_id` of Select_K2, from what `std::round(dis(gen))` gives
abbrev pub clamped : ℤ → ℤ
clamped metric_id =
    let at_least = if ltb_ℤ metric_id (pos 1) then pos 1 else metric_id in
    if ltb_ℤ (pos max_metrics) at_least then pos max_metrics else at_least

-- the table and its newest timestamp, from which the three statements of `SelectQuery` select
abbrev from_newest : (table_id : ℕ) → Bytes
from_newest table_id =
    table_name table_id
    ++ (codes ", (select max(ts) mt from " ++ (table_name table_id ++ codes ") t1"))

-- the `switch` of `SelectQuery`; the statement is empty for any other type
unfoldable pub select_text : MessageType → (table_id device_id : ℕ) → (draw : ℤ) → Bytes
select_text MessageType.select_k1 table_id device_id draw =
    codes "SELECT count(distinct metric_id) FROM "
    ++ (from_newest table_id
        ++ (codes " WHERE ts >= DATE_SUB(t1.mt, INTERVAL 1 HOUR) AND device_id="
            ++ decimal device_id))
select_text MessageType.select_k2 table_id device_id draw =
    codes "SELECT ts,device_id,val FROM "
    ++ (from_newest table_id
        ++ (codes " WHERE ts >= DATE_SUB(t1.mt, INTERVAL 20 MINUTE) AND metric_id="
            ++ decimal_ℤ (clamped draw)))
select_text MessageType.select_k3 table_id device_id draw =
    codes "SELECT device_id,metric_id,max(val) FROM "
    ++ (from_newest table_id
        ++ codes
            " WHERE ts = DATE_SUB(t1.mt, INTERVAL 1 MINUTE) and val >= 9900 GROUP BY 1,2 LIMIT 100")
select_text _ table_id device_id draw = []

-- the query of `getTimestampRange` for a table
unfoldable pub timestamp_range_text : (table : ℕ) → Bytes
timestamp_range_text table =
    codes "select unix_timestamp(min(ts)) as mints, unix_timestamp(max(ts)) as maxts from "
    ++ table_name table

-- the query of `getDeviceRange` for a table
unfoldable pub device_range_text : TsRange → (table : ℕ) → Bytes
device_range_text r table =
    codes "SELECT min(device_id) mindev, max(device_id) maxdev FROM "
    ++ (table_name table
        ++ (if ltb 0 r.max
            then (codes " WHERE ts >= from_unixtime("
                ++ (decimal r.min
                    ++ (codes ")  AND ts <= from_unixtime(" ++ (decimal r.max ++ codes ")"))))
            else []))
