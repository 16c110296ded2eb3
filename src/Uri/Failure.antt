-- ===== src/Uri/Failure.antt =====
-- When `Uri::Parse` of src/Uri.cpp builds a string from an inverted range.
use mathlib.Core.List.{append_assoc, append-nil}
use metric_bench.Prelude.{
  ◌+◌, ◌≡◌, ◌≢◌, refl, ap, ap₂, subst, ◌∙◌, Option, none, some, [], ◌∷◌, ◌++◌, arith, length,
  length-append, ==_ne, leb-false, ◌>>=◌,
}
use metric_bench.Uri.{Bytes, Uri, find, slice, parse_rest, parse}
use metric_bench.Uri.Slices.{Lacks, Lacks-append, find-parts}
use metric_bench.Uri.RoundTrip.{
  text, separator, host_start, authority_end, length-text, find-question, find-colon, separator_lem,
  print, print_port, print_rest, HasText, IsPlain, Lacks-print_port,
}

>>=-none {ℓ κ} : {A : Type ℓ} {B : Type κ} (o : Option A) → ◌>>=◌ {B = B} o (λ _. none) ≡ none
>>=-none none = refl
>>=-none (some a) = refl

module _ (protocol host port_text before after : Bytes) where
  abbrev query : Bytes
  query = b'?' ∷ (before ++ b'/' ∷ after)

  abbrev whole : Bytes
  whole = text protocol host port_text [] query

  find-late_slash :
      Lacks b'/' host
      → Lacks b'/' port_text
      → Lacks b'/' before
      → find whole (host_start protocol host port_text [] query) (length whole) b'/'
        ≡ some (authority_end protocol host port_text [] query + 1 + length before)
  find-late_slash a b c =
      find-parts whole (protocol ++ separator) (host ++ (port_text ++ b'?' ∷ before)) (b'/' ∷ after)
        [] (simp (append_assoc, append-nil)) _ (length whole) b'/'
        (omega (arith, length-append {0})) (omega (arith, length-append {0}))
        (Lacks-append b'/' host _ a (Lacks-append b'/' port_text _ b (omega arith, c))) refl
      ∙ ap some (omega (arith, length-append {0}))

  parse_rest-late_slash :
      Lacks b'/' host
      → Lacks b'/' port_text
      → Lacks b'/' before
      → parse_rest whole
          (authority_end protocol host port_text [] query + 0)
          protocol
          (host_start protocol host port_text [] query)
        ≡ none
  unfolding parse_rest slice
  parse_rest-late_slash a b c =
      let late = authority_end protocol host port_text [] query + 1 + length before in
      let differ : late ≢ length whole = omega (arith, length-append {0}) in
      let inverted =
        leb-false late (authority_end protocol host port_text [] query + 0) (omega arith) in
      rw (find-late_slash a b c, ==_ne differ, inverted) (simp >>=-none)

  parse-whole :
      Lacks b':' protocol
      → Lacks b'?' protocol
      → Lacks b'?' host
      → Lacks b'?' port_text
      → Lacks b'/' host
      → Lacks b'/' port_text
      → Lacks b'/' before
      → HasText (host ++ (port_text ++ ([] ++ query)))
      → parse whole ≡ none
  unfolding parse
  parse-whole colon q1 q2 q3 a b c has_text =
      let not_empty : length whole ≢ 0 =
        omega (arith, length-text protocol host port_text [] query) in
      rw
        (
          ==_ne not_empty,
          find-question protocol host port_text [] query q1 q2 q3 tt refl,
          find-colon protocol host port_text [] query colon,
          separator_lem protocol host port_text [] query has_text,
        )
        (parse_rest-late_slash a b c)

-- A URI with no path whose query holds a slash is not read: the slash is taken for the start of a path,
-- and the path is a range whose end, the question mark, lies before its start.
pub parse-late_slash :
    (u : Uri) (before after : Bytes)
    → IsPlain u
    → u.path ≡ []
    → u.query_string ≡ b'?' ∷ (before ++ b'/' ∷ after)
    → Lacks b'/' before
    → parse (print u) ≡ none
parse-late_slash u before after plain no_path has_slash lacks =
    let rest : print_rest u
        ≡ u.host
          ++ (print_port u.port
              ++ ([] ++ query u.protocol u.host (print_port u.port) before after)) =
      ap₂ (λ t q. u.host ++ (print_port u.port ++ (t ++ q))) no_path has_slash in
    ap (λ r. parse (u.protocol ++ (separator ++ r))) rest
    ∙ parse-whole u.protocol u.host (print_port u.port) before after plain.protocol_colon
        plain.protocol_question plain.host_question
        (Lacks-print_port b'?' u.port (omega arith) plain.port_question) plain.host_slash
        (Lacks-print_port b'/' u.port (omega arith) plain.port_slash) lacks
        (subst HasText rest plain.has_text)
