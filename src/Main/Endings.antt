-- ===== src/Main/Endings.antt =====
-- How `main` of src/metricbench.cpp ends, and the log level that it sets.
use metric_bench.Prelude.{
  ◌≡◌, refl, ap, subst, Bool, true, false, not, ◌&&◌, none, [], arith, Bool-cases, inl, inr,
  if◌then◌else◌,
}
use metric_bench.Uri.{Bytes}
use metric_bench.Main.{
  codes, equals, contains, fix_url, Options, Settings, usage, log_file_failed, no_mode, no_driver,
  not_tcp, csv_stream_failed, Checked, refused, accepted, settings_of, check_options, main, Driver,
  driver_of, mysql, mongodb, cassandra,
}

-- the name of a driver on the command line
abbrev pub name_of : Driver → Bytes
name_of mysql = codes "mysql"
name_of mongodb = codes "mongodb"
name_of cassandra = codes "cassandra"

-- Nothing stands in the way of the options: they ask for no help, and the files can be opened.
pub record IsStartable (o : Options) (log_opens csv_opens : Bool) : Type 0 where
  pub no_help : o.help ≡ false
  pub log_open : (not (equals o.log_file (codes "-")) && not log_opens) ≡ false
  pub mode_given : equals o.mode [] ≡ false
  pub csv_open : (not (equals o.csv_stream []) && not csv_opens) ≡ false

-- No driver has this name, so `GenDrive` is never set: where nothing else stops the program, it
-- calls through an uninitialised pointer.
pub main-unknown_driver :
    (o : Options) (log_opens csv_opens throws : Bool)
    → IsStartable o log_opens csv_opens
    → equals o.driver [] ≡ false
    → ((d : Driver) → equals o.driver (name_of d) ≡ false)
    → main o log_opens csv_opens throws ≡ none
unfolding main check_options driver_of
main-unknown_driver o log_opens csv_opens throws h given other =
    rw
      (
        h.no_help,
        h.log_open,
        h.mode_given,
        given,
        other mongodb,
        h.csv_open,
        other mysql,
        other cassandra,
        other mongodb,
      )
      refl

fix_url-contains : (host : Bytes) → contains (codes "://") (fix_url host) ≡ true
unfolding fix_url
fix_url-contains host = elim (Bool-cases (contains (codes "://") host)) [
  | inl e ↦ rw e e
  | inr e ↦ rw e refl
]

abbrev url_of : Checked → Bytes
url_of (refused why) = []
url_of (accepted s) = s.url

tcp_found : (a b : Bool) → (a && not b) ≡ false → a ≡ true → b ≡ true
tcp_found a true h e = refl
tcp_found a false h e = ground arith

-- All checks in a row, of which the fifth is for tcp.
all_passed :
    (help log_fails no_mode_given no_driver_given tcp_fails csv_fails : Bool) (from s : Settings)
    → (if help
        then refused usage
        else if log_fails
        then refused log_file_failed
        else if no_mode_given
        then refused no_mode
        else if no_driver_given
        then refused no_driver
        else if tcp_fails
        then refused not_tcp
        else if csv_fails
        then refused csv_stream_failed
        else accepted from)
      ≡ accepted s
    → (from.url ≡ s.url) × (tcp_fails ≡ false)
all_passed true b c e t f from s h = cc
all_passed false true c e t f from s h = cc
all_passed false false true e t f from s h = cc
all_passed false false false true t f from s h = cc
all_passed false false false false true f from s h = cc
all_passed false false false false false true from s h = cc
all_passed false false false false false false from s h = (ap url_of h, refl)

-- The options that `main` accepts give a URL with a protocol, with tcp:// in it where the driver
-- is mongodb, and the fixup changes that URL no further.
pub check_options-url :
    (o : Options) (log_opens csv_opens : Bool) (s : Settings)
    → check_options o log_opens csv_opens ≡ accepted s
    → (contains (codes "://") s.url ≡ true)
      × (fix_url s.url ≡ s.url)
      × (equals o.driver (codes "mongodb") ≡ true → contains (codes "tcp://") s.url ≡ true)
unfolding check_options fix_url
check_options-url o log_opens csv_opens s e =
    let (same, tcp_checked) =
      all_passed o.help (not (equals o.log_file (codes "-")) && not log_opens) (equals o.mode [])
        (equals o.driver [])
        (equals o.driver (codes "mongodb") && not (contains (codes "tcp://") (fix_url o.url)))
        (not (equals o.csv_stream []) && not csv_opens) (settings_of o) s e in
    let has_protocol = subst (λ u. contains (codes "://") u ≡ true) same (fix_url-contains o.url) in
    (
      has_protocol,
      rw has_protocol refl,
      λ is_mongodb.
          subst (λ u. contains (codes "tcp://") u ≡ true) same
            (tcp_found (equals o.driver (codes "mongodb"))
              (contains (codes "tcp://") (fix_url o.url)) tcp_checked is_mongodb),
    )
