-- ===== src/Uri/Examples.antt =====
-- The URIs of src/test/UriTest.cpp, and others.
use Prim.Native.String.{String}
use Prim.Native.Char.{code}
use metric_bench.Prelude.{◌≡◌, refl, arith, none, some, [], ◌∷◌}
use metric_bench.Uri.{Bytes, Uri, parse}
use metric_bench.Uri.RoundTrip.{IsPlain, parse-print}
use metric_bench.Uri.Failure.{parse-late_slash}

abbrev codes : String → Bytes
codes String.[] = []
codes (String.◌∷◌ c s) = code c ∷ codes s

abbrev uri : (protocol host port path query_string : String) → Uri
uri protocol host port path query_string = record {
  query_string = codes query_string;
  path = codes path;
  protocol = codes protocol;
  host = codes host;
  port = codes port;
}

tcp_localhost : parse (codes "tcp://localhost:27017") ≡ some (uri "tcp" "localhost" "27017" "" "")
unfolding parse
tcp_localhost = refl

unix_socket :
    parse (codes "unix:///tmp/mongodb-27017.sock")
    ≡ some (uri "unix" "" "" "/tmp/mongodb-27017.sock" "")
unfolding parse
unix_socket = refl

full_uri : parse (codes "tcp://db:33/a/b?x=1") ≡ some (uri "tcp" "db" "33" "/a/b" "?x=1")
unfolding parse
full_uri = refl

-- A protocol with nothing behind it is taken for a host.
protocol_only : parse (codes "tcp://") ≡ some (uri "" "tcp" "" "//" "")
unfolding parse
protocol_only = refl

abbrev plain : Uri
plain = uri "tcp" "db" "33" "/a" "?x=1/2"

plain-IsPlain : IsPlain plain
plain-IsPlain = record {
  protocol_colon = omega arith;
  protocol_question = omega arith;
  host_colon = omega arith;
  host_slash = omega arith;
  host_question = omega arith;
  port_slash = omega arith;
  port_question = omega arith;
  path_question = omega arith;
  path_start = refl;
  query_start = refl;
  has_text = omega arith;
}

parse-print_example : parse (codes "tcp://db:33/a?x=1/2") ≡ some plain
parse-print_example = parse-print plain plain-IsPlain (λ e. cc)

abbrev no_path : Uri
no_path = uri "tcp" "db" "" "" "?d=1/2"

no_path-IsPlain : IsPlain no_path
no_path-IsPlain = record {
  protocol_colon = omega arith;
  protocol_question = omega arith;
  host_colon = omega arith;
  host_slash = omega arith;
  host_question = omega arith;
  port_slash = tt;
  port_question = tt;
  path_question = tt;
  path_start = tt;
  query_start = refl;
  has_text = omega arith;
}

parse-late_slash_example : parse (codes "tcp://db?d=1/2") ≡ none
parse-late_slash_example =
    parse-late_slash no_path (codes "d=1") (codes "2") no_path-IsPlain refl refl (omega arith)
