-- ===== src/Schema.antt =====
-- `CreateSchema` of src/MySQLDriver.cpp, src/MongoDBDriver.cpp and src/CassandraDriver.cpp: the calls to
-- the database, in their order. Whether the n-th call succeeds is an argument; the connection that they
-- are made over is the client library's; the address that MongoDBDriver gives to it is parsed first. The loops count an `int` up to DBTables, which fits below 2 ^ 31.
pub mod Scripts
pub mod Created
pub mod Examples
use metric_bench.Prelude.{
  ℕ, zero, suc, ◌+◌, Bool, true, false, not, List, [], ◌∷◌, ◌++◌, if◌then◌else◌, length, Option,
  none, some,
}
use metric_bench.Config.{Config}
use metric_bench.Uri.{Bytes}
use metric_bench.Main.{codes, equals, Settings}
use metric_bench.MongoDriver.Connection.{HostAndPort, host_and_port}
use metric_bench.Text.{decimal}
use metric_bench.MySqlDriver.Queries.{Ending, returned, threw}
use Scripts.{Script, pass, execute, ◌>>◌}

-- How `CreateSchema` ends, the calls that it has made, and whether it says that the schema is created.
pub record Creation (A : Type 0) : Type 0 where
  pub ending : Ending
  pub calls : List A
  pub announced : Bool

-- `"metrics" + std::to_string(table)`
abbrev pub table_name : ℕ → Bytes
table_name table = codes "metrics" ++ decimal table

-- what stands at the start of a continued line of the statement: two tabs and four spaces
abbrev pub indent : Bytes
indent = 9 ∷ 9 ∷ codes "    "

abbrev pub drop_table : ℕ → Bytes
drop_table table = codes "DROP TABLE IF EXISTS " ++ table_name table

-- the lines of the statement behind the name of the table, up to the engine
abbrev pub columns : List Bytes
columns =
    codes " (ts timestamp NOT NULL DEFAULT '0000-00-00 00:00:00',"
    ∷ codes "device_id int(10) unsigned NOT NULL,"
    ∷ codes "metric_id int(10) unsigned NOT NULL,"
    ∷ codes "cnt int(10) unsigned NOT NULL,"
    ∷ codes "val double DEFAULT NULL,"
    ∷ codes "PRIMARY KEY (device_id, metric_id, ts),"
    ∷ codes "KEY k1 (device_id, ts, metric_id, val),"
    ∷ codes "KEY k2 (metric_id, ts, val),"
    ∷ codes "KEY k3 (ts, val)"
    ∷ codes ") ENGINE="
    ∷ []

abbrev pub joined : List Bytes → Bytes
joined [] = []
joined (line ∷ []) = line
joined (line ∷ lines) = line ++ (indent ++ joined lines)

abbrev pub create_table : Settings → ℕ → Bytes
create_table s table =
    codes "CREATE TABLE "
    ++ (table_name table
        ++ (joined columns
            ++ (s.storage_engine
                ++ (codes " " ++ (s.storage_engine_extra ++ codes " DEFAULT CHARSET=latin1;")))))

-- `if (!Config::preCreateStatement.empty()) stmt->execute(Config::preCreateStatement)`
abbrev pub pre_create : Settings → Script Bytes
pre_create s = if equals s.pre_create_statement [] then pass else execute s.pre_create_statement

-- the loop of MySQLDriver over the tables, from `table` on, with the rounds that are left
unfoldable pub mysql_tables : Settings → (rounds table : ℕ) → Script Bytes
mysql_tables s zero table = pass
mysql_tables s (suc rounds) table = do
  execute (drop_table table)
  pre_create s
  execute (create_table s table)
  mysql_tables s rounds (table + 1)

abbrev pub is_returned : Ending → Bool
is_returned returned = true
is_returned threw = false

-- `MySQLDriver::CreateSchema`: an exception is thrown again as a `runtime_error`
unfoldable pub mysql_create_schema : Settings → Config → (answers : ℕ → Bool) → Creation Bytes
unfolding mysql_tables
mysql_create_schema s c answers =
    let (ending, calls) = mysql_tables s c.db_tables 1 answers [] in
    record { ending = ending; calls = calls; announced = is_returned ending }

-- the calls of the client library of MongoDB, on the collection of a name
pub data MongoCall : Type 0 where
  drop_collection : Bytes → MongoCall
  create_collection : Bytes → MongoCall
  create_index : Bytes → (keys : List Bytes) → (unique : Bool) → MongoCall

abbrev pub k0 : List Bytes
k0 = codes "device_id" ∷ codes "metric_id" ∷ codes "ts" ∷ []

abbrev pub k1 : List Bytes
k1 = codes "device_id" ∷ codes "ts" ∷ codes "metric_id" ∷ codes "val" ∷ []

abbrev pub k2 : List Bytes
k2 = codes "metric_id" ∷ codes "ts" ∷ codes "val" ∷ []

abbrev pub k3 : List Bytes
k3 = codes "ts" ∷ codes "val" ∷ []

-- `database+".metrics"+std::to_string(table)`
abbrev pub collection : Bytes → ℕ → Bytes
collection database table = database ++ (codes "." ++ table_name table)

-- the loop of MongoDBDriver over the tables
unfoldable pub mongo_tables : (database : Bytes) → (rounds table : ℕ) → Script MongoCall
mongo_tables database zero table = pass
mongo_tables database (suc rounds) table = do
  execute (drop_collection (collection database table))
  execute (create_collection (collection database table))
  execute (create_index (collection database table) k0 true)
  execute (create_index (collection database table) k1 false)
  execute (create_index (collection database table) k2 false)
  execute (create_index (collection database table) k3 false)
  mongo_tables database rounds (table + 1)

-- whether `Uri::Parse` in `getConnection` returns
abbrev pub gives_address : Option HostAndPort → Bool
gives_address none = false
gives_address (some address) = true

-- `MongoDBDriver::CreateSchema`: an exception of the client library is caught and printed; that of
-- `Uri::Parse` is another one, and leaves the function
unfoldable pub mongo_create_schema :
    (url database : Bytes) → Config → (answers : ℕ → Bool) → Creation MongoCall
unfolding mongo_tables
mongo_create_schema url database c answers =
    let (ending, calls) = mongo_tables database c.db_tables 1 answers [] in
    if gives_address (host_and_port url)
    then record { ending = returned; calls = calls; announced = true }
    else record { ending = threw; calls = []; announced = false }

-- the white space of the continued lines of the statements of CassandraDriver
abbrev pub keyspace_indent : Bytes
keyspace_indent = codes "                  "

abbrev pub table_indent : Bytes
table_indent = 9 ∷ 9 ∷ codes "  "

abbrev pub create_keyspace : Bytes
create_keyspace =
    codes "CREATE KEYSPACE metricsdata2 WITH replication = { "
    ++ (keyspace_indent ++ codes "'class': 'SimpleStrategy', 'replication_factor': '3' };")

abbrev pub create_metrics : Bytes
create_metrics =
    codes "CREATE TABLE metricsdata2.metrics ( "
    ++ (table_indent
        ++ (codes "device_id int, "
            ++ (table_indent
                ++ (codes "metric_id int, "
                    ++ (table_indent
                        ++ (codes "ts timestamp, "
                            ++ (table_indent
                                ++ (codes "cnt int, "
                                    ++ (table_indent
                                        ++ (codes "val double, "
                                            ++ (table_indent
                                                ++ codes
                                                    "PRIMARY KEY ((device_id, metric_id), ts));")))))))))))

-- `execute_query`: the queries so far, and the errors that have been printed
abbrev pub execute_query : Bytes → (answers : ℕ → Bool) → List Bytes × ℕ → List Bytes × ℕ
execute_query query answers (queries, printed) =
    (queries ++ query ∷ [], if answers (length queries) then printed else printed + 1)

-- `CassandraDriver::CreateSchema`, with the number of errors printed: what `execute_query` returns is not
-- read
unfoldable pub cassandra_create_schema :
    (connected : Bool) (answers : ℕ → Bool) → Creation Bytes × ℕ
cassandra_create_schema connected answers =
    let (queries, printed) =
      if connected
      then execute_query create_metrics answers (execute_query create_keyspace answers ([], 0))
      else ([], 1) in
    (record { ending = returned; calls = queries; announced = true }, printed)
