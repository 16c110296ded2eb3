-- ===== src/MongoDriver/Examples.antt =====
-- Addresses as src/metricbench.cpp is given them.
use metric_bench.Prelude.{ℕ, ◌+◌, ◌*◌, ◌==◌, ◌≡◌, refl, arith, if◌then◌else◌, Option, none, some}
use metric_bench.Prelude.Int.{ℤ, pos, negsuc}
use metric_bench.Config.{default, start_timestamp}
use metric_bench.MySqlDriver.Ranges.{get_timestamp_range}
use metric_bench.MongoDriver.Ranges.{
  mongo_timestamp_range, from_start, mongo_timestamp_range-get_timestamp_range,
}
use metric_bench.Main.{codes, fix_url}
use metric_bench.MongoDriver.Connection.{stoi, host_and_port}
use metric_bench.MongoDriver.Address.{host_and_port-fix_url}

signed_port : stoi (codes " -12x") ≡ some (negsuc 11)
unfolding stoi
signed_port = refl

host_and_port-fix_url_example :
    host_and_port (fix_url (codes "db1:27017"))
    ≡ some (record { host = codes "db1"; port = pos 27017 })
host_and_port-fix_url_example =
    host_and_port-fix_url (codes "db1") (codes "27017") (omega arith) (omega arith) (omega arith)
      (omega arith) (omega arith)

abbrev newest : ℕ → Option ℤ
newest table = if table == 2 then none else some (pos (1514764800 + 60 * table))

-- With the collection 3 given, the collections 1 to 3 are asked.
given_collection :
    mongo_timestamp_range default newest 3 4
    ≡ some (record { min = start_timestamp; max = 1514764980 })
unfolding mongo_timestamp_range
given_collection = refl

mongo_timestamp_range-get_timestamp_range_example :
    mongo_timestamp_range default newest 3 4
    ≡ get_timestamp_range default (λ table. from_start (newest table)) 3 4
mongo_timestamp_range-get_timestamp_range_example =
    mongo_timestamp_range-get_timestamp_range default newest 3 4
