-- ===== src/MongoDriver/Address.antt =====
-- From the URL option of src/metricbench.cpp through src/Uri.cpp to the address that `getConnection` of
-- src/MongoDBDriver.cpp passes to the client library.
use mathlib.Core.List.{append-nil}
use metric_bench.Prelude.{
  ℕ, ◌+◌, ◌-◌, ◌*◌, ◌^◌, ◌≤◌, ◌≡◌, refl, ap, sym, ◌∙◌, true, false, some, [], ◌∷◌, ◌++◌, leb, arith,
  if◌then◌else◌,
}
use metric_bench.Prelude.Int.{ℤ, pos, negsuc}
use metric_bench.Uri.{Bytes, Uri, parse}
use metric_bench.Uri.Slices.{Lacks, Lacks-append}
use metric_bench.Uri.RoundTrip.{HasText, print_port, parse-print, Lacks-print_port}
use metric_bench.Main.{codes, fix_url}
use metric_bench.Main.Url.{fix_url-Lacks}
use metric_bench.MongoDriver.Connection.{
  is_empty, is_digit, digits_from, magnitude, sign, skip_spaces, in_int, stoi, or_default,
  host_and_port,
}

abbrev pub AllDigits : Bytes → Type 0
AllDigits [] = Unit {0}
AllDigits (c ∷ cs) = (b'0' ≤ c) × (c ≤ b'9') × AllDigits cs

-- the number that digits spell behind `n`
abbrev pub value : ℕ → Bytes → ℕ
value n [] = n
value n (c ∷ cs) = value (n * 10 + (c - b'0')) cs

-- the port of an address: -1 where there is none or an `int` does not hold it
abbrev pub port_of : Bytes → ℤ
port_of [] = negsuc 0
port_of (c ∷ cs) = if leb (value 0 (c ∷ cs)) (2 ^ 31 - 1) then pos (value 0 (c ∷ cs)) else negsuc 0

is_digit_lem : (c : ℕ) → b'0' ≤ c → c ≤ b'9' → is_digit c ≡ true
is_digit_lem c h k = ground arith

digits_from-value : (n : ℕ) (ds : Bytes) → AllDigits ds → digits_from n ds ≡ value n ds
digits_from-value n [] h = refl
digits_from-value n (c ∷ cs) h =
    rw (is_digit_lem c h.0 h.1) (digits_from-value (n * 10 + (c - b'0')) cs h.2)

Lacks-AllDigits : (c : ℕ) (ds : Bytes) → c ≤ b'/' → AllDigits ds → Lacks c ds
Lacks-AllDigits c [] h k = tt
Lacks-AllDigits c (d ∷ ds) h k = (omega arith, Lacks-AllDigits c ds h k.2)

without_question : (ds : Bytes) → AllDigits ds → Lacks b'?' ds
without_question [] k = tt
without_question (d ∷ ds) k = (omega arith, without_question ds k.2)

skip_spaces-digit : (c : ℕ) (cs : Bytes) → b'0' ≤ c → skip_spaces (c ∷ cs) ≡ c ∷ cs
skip_spaces-digit c cs h = ground arith

sign-digit : (c : ℕ) (cs : Bytes) → b'0' ≤ c → sign (c ∷ cs) ≡ (false, c ∷ cs)
sign-digit c cs h = ground arith

magnitude-digits :
    (c : ℕ) (cs : Bytes) → AllDigits (c ∷ cs) → magnitude (c ∷ cs) ≡ some (value 0 (c ∷ cs))
magnitude-digits c cs h =
    rw (is_digit_lem c h.0 h.1) (ap some (digits_from-value (0 * 10 + (c - b'0')) cs h.2))

in_int-or_default :
    (m : ℕ) → or_default (in_int false m) ≡ (if leb m (2 ^ 31 - 1) then pos m else negsuc 0)
in_int-or_default m = ground arith

stoi-digits :
    (c : ℕ) (cs : Bytes) → AllDigits (c ∷ cs) → or_default (stoi (c ∷ cs)) ≡ port_of (c ∷ cs)
unfolding stoi
stoi-digits c cs h =
    rw (skip_spaces-digit c cs h.0, sign-digit c cs h.0, magnitude-digits c cs h)
      (in_int-or_default (value 0 (c ∷ cs)))

port_lem :
    (ds : Bytes)
    → AllDigits ds
    → (if is_empty ds then negsuc 0 else or_default (stoi ds)) ≡ port_of ds
port_lem [] h = refl
port_lem (c ∷ cs) h = stoi-digits c cs h

HasText-append : (xs ys : Bytes) → HasText xs → HasText (xs ++ ys)
HasText-append [] ys h = absurd h
HasText-append (x ∷ xs) ys h = h

abbrev address : Bytes → Bytes → Uri
address host digits = record {
  query_string = [];
  path = [];
  protocol = codes "tcp";
  host = host;
  port = digits;
}

parse-address :
    (host digits : Bytes)
    → Lacks b':' host
    → Lacks b'/' host
    → Lacks b'?' host
    → HasText host
    → AllDigits digits
    → parse (fix_url (host ++ print_port digits)) ≡ some (address host digits)
parse-address host digits colon slash question has_text h =
    let no_slash = Lacks-AllDigits b'/' digits (omega arith) h in
    rw
      (fix_url-Lacks (host ++ print_port digits) (
        Lacks-append b'/' host (print_port digits) slash
          (Lacks-print_port b'/' digits (omega arith) no_slash)))
      (ap (λ t. parse (codes "tcp://" ++ (host ++ t))) (sym (append-nil (print_port digits)))
        ∙ parse-print (address host digits)
            (record {
              protocol_colon = omega arith;
              protocol_question = omega arith;
              host_colon = colon;
              host_slash = slash;
              host_question = question;
              port_slash = no_slash;
              port_question = without_question digits h;
              path_question = tt;
              path_start = tt;
              query_start = tt;
              has_text = HasText-append host (print_port digits ++ []) has_text;
            })
            (λ e. tt))

-- A host name and, if wanted, a port in digits, given to the program as they stand: `main` puts tcp:// in
-- front, `Uri::Parse` splits them again, and the client library is given the host and the number of the
-- port, or -1 where there is no port or an `int` does not hold it.
pub host_and_port-fix_url :
    (host digits : Bytes)
    → Lacks b':' host
    → Lacks b'/' host
    → Lacks b'?' host
    → HasText host
    → AllDigits digits
    → host_and_port (fix_url (host ++ print_port digits))
      ≡ some (record { host = host; port = port_of digits })
unfolding host_and_port
host_and_port-fix_url host digits colon slash question has_text h =
    rw (parse-address host digits colon slash question has_text h, port_lem digits h) refl
