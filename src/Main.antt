-- ===== src/Main.antt =====
-- src/metricbench.cpp: `main`, from the parsed options on. The option parser is boost's.
pub mod Url
pub mod Endings
pub mod Defaults
pub mod Examples
use Prim.Native.String
use Prim.Native.String.{String}
use Prim.Native.Char.{code}
use metric_bench.Prelude.{
  ℕ, zero, suc, ◌+◌, ◌-◌, Bool, true, false, not, ◌&&◌, Option, none, some, List, [], ◌∷◌, ◌++◌,
  map, leb, ◌==◌, if◌then◌else◌, ◌>>=◌,
}
use metric_bench.Uri.{Bytes}

-- the bytes of a literal
abbrev pub codes : String → Bytes
codes String.[] = []
codes (String.◌∷◌ c s) = code c ∷ codes s

-- `s.compare(t) == 0`
abbrev pub equals : Bytes → Bytes → Bool
equals [] [] = true
equals (x ∷ xs) (y ∷ ys) = x == y && equals xs ys
equals _ _ = false

abbrev pub has_prefix : Bytes → Bytes → Bool
has_prefix [] s = true
has_prefix (p ∷ ps) [] = false
has_prefix (p ∷ ps) (c ∷ cs) = p == c && has_prefix ps cs

-- `s.find(pattern) != string::npos`
abbrev pub contains : Bytes → Bytes → Bool
contains pattern [] = has_prefix pattern []
contains pattern (c ∷ cs) =
    let later = contains pattern cs in if has_prefix pattern (c ∷ cs) then true else later

-- `if (Config::connHost.find("://") == string::npos) Config::connHost.insert(0,"tcp://")`
unfoldable pub fix_url : Bytes → Bytes
fix_url host = if contains (codes "://") host then host else codes "tcp://" ++ host

-- `boost::algorithm::to_lower`, on ASCII
abbrev pub to_lower : ℕ → ℕ
to_lower c = if leb b'A' c && leb c b'Z' then c + 32 else c

-- `loglevel_e_Label`
abbrev pub level_labels : List Bytes
level_labels =
    codes "FATAL"
    ∷ codes "ERROR"
    ∷ codes "WARNING"
    ∷ codes "INFO"
    ∷ codes "DEBUG"
    ∷ codes "TRACE"
    ∷ []

-- the loop over the levels, from level `l` on; `level` is `Config::logLevel`
unfoldable pub find_level : Bytes → (labels : List Bytes) → (l level : ℕ) → ℕ
find_level text [] l level = level
find_level text (label ∷ labels) l level =
    find_level text labels (l + 1)
      (if equals (map to_lower text) (map to_lower label) then l else level)

-- `Config::logLevel` after the options: the default is `logINFO`
unfoldable pub log_level : Bytes → ℕ
unfolding find_level
log_level text = find_level (map to_lower text) level_labels 0 3

-- `log(level)` of src/Logger.hpp: whether a message is written
unfoldable pub is_logged : (level log_level : ℕ) → Bool
is_logged level log_level = leb level log_level

-- The options, after `po::notify`. An option that is absent and has no default is `none`.
pub record Options : Type 0 where
  pub help : Bool
  pub driver : Bytes
  pub mode : Bytes
  pub url : Bytes
  pub log_level_text : Bytes
  pub log_file : Bytes
  pub csv_stream : Bytes
  pub engine : Bytes
  pub engine_extra : Option Bytes
  pub pre_create : Option Bytes

pub data Driver : Type 0 where
  mysql mongodb cassandra : Driver

-- `runDriver == "mysql"` and so on
unfoldable pub driver_of : Bytes → Option Driver
driver_of name =
    if equals name (codes "mysql")
    then some mysql
    else if equals name (codes "mongodb")
    then some mongodb
    else if equals name (codes "cassandra")
    then some cassandra
    else none

-- What the other parts see of the options.
pub record Settings : Type 0 where
  pub url : Bytes
  pub log_level : ℕ
  pub storage_engine : Bytes
  pub storage_engine_extra : Bytes
  pub pre_create_statement : Bytes

-- Why `main` returns before it makes a driver.
pub data Refusal : Type 0 where
  usage log_file_failed no_mode no_driver not_tcp csv_stream_failed : Refusal

pub data Checked : Type 0 where
  refused : Refusal → Checked
  accepted : Settings → Checked

abbrev pub or_empty : Option Bytes → Bytes
or_empty none = []
or_empty (some s) = s

abbrev pub settings_of : Options → Settings
settings_of o = record {
  url = fix_url o.url;
  log_level = log_level o.log_level_text;
  storage_engine = if equals o.driver (codes "mongodb") then codes "InnoDB" else o.engine;
  storage_engine_extra = or_empty o.engine_extra;
  pre_create_statement = or_empty o.pre_create;
}

-- the checks up to the driver; whether the two files can be opened is an argument
unfoldable pub check_options : Options → (log_opens csv_opens : Bool) → Checked
unfolding fix_url
check_options o log_opens csv_opens =
    if o.help
    then refused usage
    else if not (equals o.log_file (codes "-")) && not log_opens
    then refused log_file_failed
    else if equals o.mode []
    then refused no_mode
    else if equals o.driver []
    then refused no_driver
    else if equals o.driver (codes "mongodb") && not (contains (codes "tcp://") (fix_url o.url))
    then refused not_tcp
    else if not (equals o.csv_stream []) && not csv_opens
    then refused csv_stream_failed
    else accepted (settings_of o)

pub data Exit : Type 0 where
  success failure : Exit

-- What `main` does from the choice of the driver on.
pub data Action : Type 0 where
  makes : Driver → Action
  prepares runs sets_complete joins displays : Action

-- the phase that the mode names: any other mode is none
abbrev pub phase : (mode : Bytes) → List Action
phase mode =
    if equals mode (codes "prepare")
    then prepares ∷ []
    else if equals mode (codes "run")
    then runs ∷ []
    else []

-- `retval`: `throws` tells whether the phase throws a `runtime_error`
abbrev pub exit_of : List Action → (throws : Bool) → Exit
exit_of [] throws = success
exit_of (_ ∷ _) throws = if throws then failure else success

abbrev pub perform : Checked → Options → (throws : Bool) → Option (Exit × List Action)
perform (refused why) o throws = some (failure, [])
perform (accepted settings) o throws = driver_of o.driver >>= λ d. some (
  exit_of (phase o.mode) throws,
  makes d ∷ (phase o.mode ++ (sets_complete ∷ joins ∷ displays ∷ [])),
)

-- `main`; `none` is a call through `GenDrive` where no driver was made
unfoldable pub main : Options → (log_opens csv_opens throws : Bool) → Option (Exit × List Action)
unfolding check_options driver_of
main o log_opens csv_opens throws = perform (check_options o log_opens csv_opens) o throws
