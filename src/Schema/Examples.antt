-- ===== src/Schema/Examples.antt =====
-- `CreateSchema` for two tables.
use metric_bench.Prelude.{ℕ, ◌≡◌, refl, Bool, ltb, true, false, [], ◌∷◌}
use metric_bench.Config.{Config}
use metric_bench.Uri.{Bytes}
use metric_bench.Main.{codes, Settings}
use metric_bench.MongoDriver.Connection.{host_and_port}
use metric_bench.Text
use metric_bench.MySqlDriver.Queries.{returned, threw}
use metric_bench.Schema.Scripts.{execute, none_fails, until_failure, end_of}
use metric_bench.Schema.{
  create_table, mysql_create_schema, mongo_create_schema, cassandra_create_schema, create_keyspace,
  create_metrics,
}
use metric_bench.Schema.Created.{
  statements, calls_for, mysql_create_schema-until_failure, mongo_create_schema-until_failure,
}

abbrev settings : Settings
settings = record {
  url = codes "tcp://localhost";
  log_level = 3;
  storage_engine = codes "InnoDB";
  storage_engine_extra = [];
  pre_create_statement = codes "SET a=1";
}

abbrev two_tables : Config
two_tables = record { loader_threads = 1; load_mins = 1; db_tables = 2; max_devices = 1 }

-- the fifth call fails
abbrev answers : ℕ → Bool
answers n = ltb n 4

-- The second table is dropped, and is not created.
stopped : mysql_create_schema settings two_tables answers ≡ record {
  ending = threw;
  calls =
      codes "DROP TABLE IF EXISTS metrics1"
      ∷ codes "SET a=1"
      ∷ create_table settings 1
      ∷ codes "DROP TABLE IF EXISTS metrics2"
      ∷ codes "SET a=1"
      ∷ [];
  announced = false;
}
unfolding mysql_create_schema execute Text.decimal
stopped = refl

-- Where the keyspace cannot be created, or there is no connection, the program says that the schema is
-- created.
no_keyspace : cassandra_create_schema true (λ n. ltb 0 n) ≡ (
  record { ending = returned; calls = create_keyspace ∷ create_metrics ∷ []; announced = true },
  1,
)
unfolding cassandra_create_schema
no_keyspace = refl

unconnected :
    cassandra_create_schema false (λ _. true)
    ≡ (record { ending = returned; calls = []; announced = true }, 1)
unfolding cassandra_create_schema
unconnected = refl

mysql_create_schema-until_failure_example :
    mysql_create_schema settings two_tables answers ≡ record {
      ending = end_of (none_fails answers 0 (statements settings 2 1));
      calls = until_failure answers 0 (statements settings 2 1);
      announced = none_fails answers 0 (statements settings 2 1);
    }
mysql_create_schema-until_failure_example =
    mysql_create_schema-until_failure settings two_tables answers

abbrev url : Bytes
url = codes "tcp://localhost:27017"

-- A slash behind the question mark: nothing is called, and nothing is announced.
late_slash :
    mongo_create_schema (codes "tcp://db?a/b") (codes "test") two_tables answers
    ≡ record { ending = threw; calls = []; announced = false }
unfolding mongo_create_schema host_and_port
late_slash = refl

mongo_create_schema-until_failure_example :
    mongo_create_schema url (codes "test") two_tables answers ≡ record {
      ending = returned;
      calls = until_failure answers 0 (calls_for (codes "test") 2 1);
      announced = true;
    }
unfolding host_and_port
mongo_create_schema-until_failure_example =
    mongo_create_schema-until_failure url (codes "test") two_tables answers
