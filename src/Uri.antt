-- ===== src/Uri.antt =====
-- src/Uri.hpp and src/Uri.cpp: `Uri::Parse`. A string is the list of its bytes, and an iterator its index.
pub mod Slices
pub mod RoundTrip
pub mod Failure
pub mod Examples
use metric_bench.Prelude.{
  ℕ, zero, suc, ◌+◌, ◌-◌, Bool, true, false, not, ◌&&◌, Option, none, some, List, [], ◌∷◌, ◌++◌,
  ltb, leb, ◌==◌, if◌then◌else◌, ◌>>=◌, length, take, drop, get_elem?,
}

abbrev pub Bytes : Type 0
Bytes = List ℕ

-- `class Uri`
pub record Uri : Type 0 where
  pub query_string : Bytes
  pub path : Bytes
  pub protocol : Bytes
  pub host : Bytes
  pub port : Bytes

-- the number of bytes before the first c, or of all
abbrev pub find_index : ℕ → Bytes → ℕ
find_index c [] = 0
find_index c (x ∷ xs) = let later = find_index c xs in if x == c then 0 else suc later

-- `std::find` between two iterators; `none` is a range whose end lies before its start
unfoldable pub find : Bytes → (from to c : ℕ) → Option ℕ
find s from to c =
    if leb from to then some (from + find_index c (take (to - from) (drop from s))) else none

-- `std::string` of two iterators, likewise
unfoldable pub slice : Bytes → (from to : ℕ) → Option Bytes
slice s from to = if leb from to then some (take (to - from) (drop from s)) else none

-- `std::string` of a pointer: it ends at the first 0
abbrev pub c_string : Bytes → Bytes
c_string [] = []
c_string (x ∷ xs) = let rest = x ∷ c_string xs in if x == 0 then [] else rest

-- `(prot.length() > 3) && (prot.substr(0, 3) == "://")`
abbrev pub is_separator : Bytes → Bool
is_separator (a ∷ b ∷ c ∷ d ∷ rest) = a == b':' && b == b'/' && c == b'/'
is_separator _ = false

-- `result.Protocol` and `protocolEnd` after the block of the protocol
abbrev pub protocol_of : Bytes → (protocol_end : ℕ) → Bytes × ℕ
protocol_of s protocol_end =
    if not (protocol_end == length s) && is_separator (c_string (drop protocol_end s))
    then (take protocol_end s, protocol_end + 3)
    else ([], 0)

-- `(hostEnd != uriEnd) && ((&*(hostEnd))[0] == ':')`
abbrev pub is_at : ℕ → Option ℕ → Bool
is_at c none = false
is_at c (some x) = x == c

-- `Parse` behind the protocol, with the two results of the block of the protocol
unfoldable pub parse_rest :
    Bytes → (query_start : ℕ) → (protocol : Bytes) → (protocol_end : ℕ) → Option Uri
unfolding find slice
parse_rest s query_start protocol protocol_end = do
  let uri_end = length s
  path_start ← find s protocol_end uri_end b'/'
  let stop = if path_start == uri_end then query_start else path_start
  host_end ← find s protocol_end stop b':'
  host ← slice s protocol_end host_end
  port ← if is_at b':' (get_elem? s host_end) then slice s (host_end + 1) stop else some []
  path ← if path_start == uri_end then some [] else slice s path_start query_start
  query_string ← if query_start == uri_end then some [] else slice s query_start uri_end
  some (record {
    query_string = query_string;
    path = path;
    protocol = protocol;
    host = host;
    port = port;
  })

-- `Uri::Parse` of a string that is not empty
unfoldable pub parse_text : Bytes → Option Uri
unfolding parse_rest find
parse_text s = do
  let uri_end = length s
  query_start ← find s 0 uri_end b'?'
  protocol_end ← find s 0 uri_end b':'
  let p = protocol_of s protocol_end
  parse_rest s query_start p.0 p.1

-- `Uri::Parse`
unfoldable pub parse : Bytes → Option Uri
unfolding parse_text
parse s =
    if length s == 0
    then some (record { query_string = []; path = []; protocol = []; host = []; port = [] })
    else parse_text s
