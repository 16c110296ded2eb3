-- ===== src/Main/Examples.antt =====
-- Some command lines.
use metric_bench.Prelude.{◌≡◌, refl, true, false, none, some, [], ◌∷◌}
use metric_bench.Uri.{Bytes}
use metric_bench.Main.{
  codes, equals, contains, fix_url, log_level, is_logged, Options, mysql, cassandra, refused,
  accepted, not_tcp, settings_of, check_options, failure, success, makes, prepares, runs,
  sets_complete, joins, displays, main,
}
use metric_bench.Main.Endings.{check_options-url}

abbrev options : (driver mode url : Bytes) → Options
options driver mode url = record {
  help = false;
  driver = driver;
  mode = mode;
  url = url;
  log_level_text = codes "Debug";
  log_file = codes "metricbench.log";
  csv_stream = [];
  engine = codes "InnoDB";
  engine_extra = none;
  pre_create = none;
}

prepare_mysql :
    main (options (codes "mysql") (codes "prepare") (codes "localhost")) true false false
    ≡ some (success, makes mysql ∷ prepares ∷ sets_complete ∷ joins ∷ displays ∷ [])
unfolding main
prepare_mysql = refl

-- Where the phase throws, the threads are still joined and the latencies shown.
failing_run :
    main (options (codes "cassandra") (codes "run") (codes "localhost")) true false true
    ≡ some (failure, makes cassandra ∷ runs ∷ sets_complete ∷ joins ∷ displays ∷ [])
unfolding main
failing_run = refl

-- A mode that is neither of the two does nothing and succeeds.
no_phase :
    main (options (codes "mysql") (codes "test") (codes "localhost")) true false true
    ≡ some (success, makes mysql ∷ sets_complete ∷ joins ∷ displays ∷ [])
unfolding main
no_phase = refl

mongodb_over_unix :
    check_options (options (codes "mongodb") (codes "run") (codes "unix:///tmp/m.sock")) true false
    ≡ refused not_tcp
unfolding check_options
mongodb_over_unix = refl

debug_level : log_level (codes "Debug") ≡ 4
unfolding log_level
debug_level = refl

trace_at_debug : is_logged 5 (log_level (codes "Debug")) ≡ false
unfolding is_logged log_level
trace_at_debug = refl

abbrev oracle : Options
oracle = options (codes "oracle") (codes "run") (codes "localhost")

abbrev mongo : Options
mongo = options (codes "mongodb") (codes "run") (codes "db:27017")

mongo_accepted : check_options mongo true false ≡ accepted (settings_of mongo)
unfolding check_options
mongo_accepted = refl

check_options-url_example :
    (contains (codes "://") (settings_of mongo).url ≡ true)
    × (fix_url (settings_of mongo).url ≡ (settings_of mongo).url)
    × (equals (codes "mongodb") (codes "mongodb") ≡ true
        → contains (codes "tcp://") (settings_of mongo).url ≡ true)
check_options-url_example = check_options-url mongo true false (settings_of mongo) mongo_accepted
