-- ===== src/Main/Defaults.antt =====
-- The options that src/metricbench.cpp leaves at their defaults.
use metric_bench.Prelude.{◌≡◌, refl, Bool, false, none, some, [], ◌∷◌, ◌++◌}
use metric_bench.Uri.{Bytes}
use metric_bench.Main.{
  codes, equals, Options, settings_of, fix_url, log_level, exit_of, phase, makes, mysql,
  sets_complete, joins, displays, main,
}

-- the `default_value`s, where only --mode is given
abbrev pub default_options : (mode : Bytes) → Options
default_options mode = record {
  help = false;
  driver = codes "mysql";
  mode = mode;
  url = codes "tcp://localhost";
  log_level_text = codes "info";
  log_file = codes "-";
  csv_stream = [];
  engine = codes "InnoDB";
  engine_extra = none;
  pre_create = none;
}

default_settings :
    (mode : Bytes)
    → settings_of (default_options mode) ≡ record {
      url = codes "tcp://localhost";
      log_level = 3;
      storage_engine = codes "InnoDB";
      storage_engine_extra = [];
      pre_create_statement = [];
    }
unfolding fix_url log_level
default_settings mode = refl

-- With a mode and nothing else given, `main` refuses nothing, whichever files can be opened, and makes a
-- driver for MySQL.
pub default_run :
    (mode : Bytes) (log_opens csv_opens throws : Bool)
    → equals mode [] ≡ false
    → main (default_options mode) log_opens csv_opens throws
      ≡ some (
        exit_of (phase mode) throws,
        makes mysql ∷ (phase mode ++ (sets_complete ∷ joins ∷ displays ∷ [])),
      )
unfolding main
default_run mode log_opens csv_opens throws given = rw given refl
