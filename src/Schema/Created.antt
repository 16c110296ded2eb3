-- ===== src/Schema/Created.antt =====
-- What `CreateSchema` does to the database, whichever call fails.
use metric_bench.Prelude.{
  ℕ, zero, suc, ◌+◌, ◌≡◌, refl, Bool, true, false, Bool-cases, inl, inr, List, [], ◌∷◌, ◌++◌,
  if◌then◌else◌,
}
use metric_bench.Config.{Config}
use metric_bench.Uri.{Bytes}
use metric_bench.Main.{equals, Settings}
use metric_bench.MongoDriver.Connection.{host_and_port}
use metric_bench.Schema.Scripts.{
  Script, execute, ◌>>◌, Performs, Performs-pass, Performs-execute, Performs->>, none_fails,
  until_failure, end_of, run_list-until_failure,
}
use metric_bench.Schema.{
  drop_table, create_table, pre_create, mysql_tables, is_returned, mysql_create_schema, MongoCall,
  drop_collection, create_collection, create_index, collection, k0, k1, k2, k3, mongo_tables,
  mongo_create_schema, gives_address,
}

-- the statements for the tables from `table` on: each table is dropped, then created
abbrev pub statements : Settings → (rounds table : ℕ) → List Bytes
statements s zero table = []
statements s (suc rounds) table =
    drop_table table
    ∷ ((if equals s.pre_create_statement [] then [] else s.pre_create_statement ∷ [])
        ++ (create_table s table ∷ statements s rounds (table + 1)))

Performs-pre_create :
    (s : Settings)
    → Performs
        (pre_create s)
        (if equals s.pre_create_statement [] then [] else s.pre_create_statement ∷ [])
Performs-pre_create s = elim (Bool-cases (equals s.pre_create_statement [])) [
  | inl none ↦ rw none Performs-pass
  | inr given ↦ rw given (Performs-execute s.pre_create_statement)
]

Performs-mysql_tables :
    (s : Settings) (rounds table : ℕ)
    → Performs (mysql_tables s rounds table) (statements s rounds table)
unfolding mysql_tables
Performs-mysql_tables s zero table = Performs-pass
Performs-mysql_tables s (suc rounds) table = Performs->> (Performs-execute (drop_table table)) (
    Performs->> (Performs-pre_create s) (
      Performs->> (Performs-execute (create_table s table))
        (Performs-mysql_tables s rounds (table + 1))))

is_returned-end_of : (all : Bool) → is_returned (end_of all) ≡ all
is_returned-end_of true = refl
is_returned-end_of false = refl

-- `CreateSchema` of MySQLDriver drops and creates each of the tables 1 to DBTables, in their order, with the
-- statement of --pre-create, if there is one, between the two. If every statement succeeds it returns and
-- says that the schema is created. Otherwise it throws, says nothing, and the statement that fails is the
-- last one executed.
pub mysql_create_schema-until_failure :
    (s : Settings) (c : Config) (answers : ℕ → Bool)
    → mysql_create_schema s c answers ≡ record {
      ending = end_of (none_fails answers 0 (statements s c.db_tables 1));
      calls = until_failure answers 0 (statements s c.db_tables 1);
      announced = none_fails answers 0 (statements s c.db_tables 1);
    }
unfolding mysql_create_schema
mysql_create_schema-until_failure s c answers =
    rw
      (
        (Performs-mysql_tables s c.db_tables 1).runs answers [],
        run_list-until_failure (statements s c.db_tables 1) answers [],
        is_returned-end_of (none_fails answers 0 (statements s c.db_tables 1)),
      )
      refl

-- the calls for a collection, and for those from `table` on
abbrev pub collection_calls : Bytes → List MongoCall
collection_calls name =
    drop_collection name
    ∷ create_collection name
    ∷ create_index name k0 true
    ∷ create_index name k1 false
    ∷ create_index name k2 false
    ∷ create_index name k3 false
    ∷ []

abbrev pub calls_for : (database : Bytes) → (rounds table : ℕ) → List MongoCall
calls_for database zero table = []
calls_for database (suc rounds) table =
    collection_calls (collection database table) ++ calls_for database rounds (table + 1)

Performs-call :
    {m : Script MongoCall} {calls : List MongoCall} (call : MongoCall)
    → Performs m calls
    → Performs (execute call >> m) (call ∷ calls)
Performs-call call h = Performs->> (Performs-execute call) h

Performs-mongo_tables :
    (database : Bytes) (rounds table : ℕ)
    → Performs (mongo_tables database rounds table) (calls_for database rounds table)
unfolding mongo_tables
Performs-mongo_tables database zero table = Performs-pass
Performs-mongo_tables database (suc rounds) table =
    let name = collection database table in
    let later = Performs-mongo_tables database rounds (table + 1) in
    Performs-call (drop_collection name) (
      Performs-call (create_collection name) (
        Performs-call (create_index name k0 true) (
          Performs-call (create_index name k1 false) (
            Performs-call (create_index name k2 false)
              (Performs-call (create_index name k3 false) later)))))

-- Where `Uri::Parse` returns for the URL, `CreateSchema` of MongoDBDriver makes its six calls for each of
-- the collections 1 to DBTables, in their order, up to the first call that fails; it returns and says that
-- the schema is created whatever fails. Where `Uri::Parse` throws, it makes no call, throws, and says
-- nothing.
pub mongo_create_schema-until_failure :
    (url database : Bytes) (c : Config) (answers : ℕ → Bool)
    → mongo_create_schema url database c answers ≡ record {
      ending = end_of (gives_address (host_and_port url));
      calls =
          if gives_address (host_and_port url)
          then until_failure answers 0 (calls_for database c.db_tables 1)
          else [];
      announced = gives_address (host_and_port url);
    }
unfolding mongo_create_schema
mongo_create_schema-until_failure url database c answers =
    elim (Bool-cases (gives_address (host_and_port url))) [
      | inl parses ↦
          rw
            (
              (Performs-mongo_tables database c.db_tables 1).runs answers [],
              run_list-until_failure (calls_for database c.db_tables 1) answers [],
              parses,
            )
            refl
      | inr throws ↦ rw throws refl
    ]
