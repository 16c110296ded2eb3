-- ===== src/Uri/RoundTrip.antt =====
-- `Uri::Parse` of src/Uri.cpp reads back what is written from the parts of a URI.
use mathlib.Core.List.{append_assoc, append-nil}
use metric_bench.Prelude.{
  ℕ, ◌+◌, ◌≡◌, ◌≢◌, refl, ap, sym, ◌∙◌, some, [], ◌∷◌, ◌++◌, arith, length, drop, length-append,
  get_elem?, get_elem?-append_right, ==_ne, ==_iff, true, false, ◌==◌, if◌then◌else◌,
}
use metric_bench.Uri.{
  Bytes, Uri, find, slice, c_string, is_separator, protocol_of, is_at, parse_rest, parse,
}
use metric_bench.Uri.Slices.{
  Lacks, Starts, Lacks-append, drop-append, take-append, find-parts, slice-parts,
}

-- the port with its colon, if there is one
abbrev pub print_port : Bytes → Bytes
print_port [] = []
print_port (c ∷ port) = b':' ∷ c ∷ port

abbrev pub separator : Bytes
separator = b':' ∷ b'/' ∷ b'/' ∷ []

-- what follows the separator
abbrev pub print_rest : Uri → Bytes
print_rest u = u.host ++ (print_port u.port ++ (u.path ++ u.query_string))

-- protocol://host:port/path?query
abbrev pub print : Uri → Bytes
print u = u.protocol ++ (separator ++ print_rest u)

-- the text begins with a byte that is not 0
abbrev pub HasText : Bytes → Type 0
HasText [] = ⊥
HasText (c ∷ cs) = c ≢ 0

-- The parts do not hold the bytes that end them.
pub record IsPlain (u : Uri) : Type 0 where
  pub protocol_colon : Lacks b':' u.protocol
  pub protocol_question : Lacks b'?' u.protocol
  pub host_colon : Lacks b':' u.host
  pub host_slash : Lacks b'/' u.host
  pub host_question : Lacks b'?' u.host
  pub port_slash : Lacks b'/' u.port
  pub port_question : Lacks b'?' u.port
  pub path_question : Lacks b'?' u.path
  pub path_start : Starts b'/' u.path
  pub query_start : Starts b'?' u.query_string
  pub has_text : HasText (print_rest u)

-- the colon and what follows it, or nothing
abbrev pub AfterColon : Bytes → Bytes → Type 0
AfterColon port [] = port ≡ []
AfterColon port (c ∷ cs) = (c ≡ b':') × (port ≡ cs)

module _ (protocol host port_text path query : Bytes) where
  abbrev pub text : Bytes
  text = protocol ++ (separator ++ (host ++ (port_text ++ (path ++ query))))

  abbrev pub host_start : ℕ
  host_start = length protocol + 3

  abbrev pub authority_end : ℕ
  authority_end = length protocol + 3 + length host + length port_text

  pub length-text : length text ≡ authority_end + length path + length query
  length-text = omega (arith, length-append {0})

  pub find-question :
      Lacks b'?' protocol
      → Lacks b'?' host
      → Lacks b'?' port_text
      → Lacks b'?' path
      → Starts b'?' query
      → find text 0 (length text) b'?' ≡ some (authority_end + length path)
  find-question a b c d e =
      find-parts text [] (protocol ++ (separator ++ (host ++ (port_text ++ path)))) query []
        (simp (append_assoc, append-nil)) 0 (length text) b'?' refl
        (omega (arith, length-append {0}))
        (Lacks-append b'?' protocol _ a (
          omega arith,
          (
            omega arith,
            (omega arith, Lacks-append b'?' host _ b (Lacks-append b'?' port_text path c d)),
          ),
        ))
        e
      ∙ ap some (omega (arith, length-append {0}))

  pub find-colon : Lacks b':' protocol → find text 0 (length text) b':' ≡ some (length protocol)
  find-colon a =
      find-parts text [] protocol (separator ++ (host ++ (port_text ++ (path ++ query)))) []
        (simp (append_assoc, append-nil)) 0 (length text) b':' refl
        (omega (arith, length-append {0})) a refl
      ∙ ap some (omega arith)

  find-slash :
      (rest : Bytes)
      → path ++ query ≡ rest
      → Lacks b'/' host
      → Lacks b'/' port_text
      → Starts b'/' rest
      → find text host_start (length text) b'/' ≡ some authority_end
  find-slash rest e a b c =
      find-parts text (protocol ++ separator) (host ++ port_text) rest []
        (simp (append_assoc, append-nil, ← e)) host_start (length text) b'/'
        (omega (arith, length-append {0})) (omega (arith, length-append {0}, ap length (sym e)))
        (Lacks-append b'/' host port_text a b) c
      ∙ ap some (omega (arith, length-append {0}))

  find-port :
      Lacks b':' host
      → Starts b':' port_text
      → find text host_start authority_end b':' ≡ some (host_start + length host)
  find-port a b =
      find-parts text (protocol ++ separator) host port_text (path ++ query) (simp append_assoc)
        host_start authority_end b':' (omega (arith, length-append {0}))
        (omega (arith, length-append {0})) a b
      ∙ ap some (omega (arith, length-append {0}))

  slice-host : slice text host_start (host_start + length host) ≡ some host
  slice-host =
      slice-parts text (protocol ++ separator) host (port_text ++ (path ++ query))
        (simp append_assoc) host_start (host_start + length host) (omega (arith, length-append {0}))
        (omega (arith, length-append {0}))

  slice-path : slice text authority_end (authority_end + length path) ≡ some path
  slice-path =
      slice-parts text (protocol ++ (separator ++ (host ++ port_text))) path query
        (simp append_assoc) authority_end (authority_end + length path)
        (omega (arith, length-append {0})) (omega (arith, length-append {0}))

  slice-query : slice text (authority_end + length path) (length text) ≡ some query
  slice-query =
      slice-parts text (protocol ++ (separator ++ (host ++ (port_text ++ path)))) query []
        (simp (append_assoc, append-nil)) (authority_end + length path) (length text)
        (omega (arith, length-append {0})) (omega (arith, length-append {0}))

  find-no_slash :
      path ≡ []
      → Lacks b'/' host
      → Lacks b'/' port_text
      → Lacks b'/' query
      → find text host_start (length text) b'/' ≡ some (length text)
  find-no_slash e a b c =
      find-parts text (protocol ++ separator) (host ++ (port_text ++ query)) [] []
        (simp (append_assoc, append-nil, e)) host_start (length text) b'/'
        (omega (arith, length-append {0})) (omega (arith, length-append {0}, ap length e))
        (Lacks-append b'/' host _ a (Lacks-append b'/' port_text query b c)) tt
      ∙ ap some (omega (arith, length-append {0}, ap length e))

  at_authority_end :
      get_elem? text (host_start + length host) ≡ get_elem? (port_text ++ (path ++ query)) 0
  at_authority_end =
      ap (λ t. get_elem? t (host_start + length host))
        (let e : text ≡ (protocol ++ (separator ++ host)) ++ (port_text ++ (path ++ query)) =
            simp append_assoc in
          e)
      ∙ get_elem?-append_right (protocol ++ (separator ++ host)) (port_text ++ (path ++ query)) 0
          (host_start + length host) (omega (arith, length-append {0}))

  drop-protocol :
      drop (length protocol) text ≡ separator ++ (host ++ (port_text ++ (path ++ query)))
  drop-protocol = drop-append protocol _ (length protocol) refl

-- the authority ends where a path or a query starts, or at the end
authority_stop :
    (protocol host port_text path query : Bytes)
    → Starts b'/' path
    → (path ≡ [] → Lacks b'/' query)
    → Lacks b'/' host
    → Lacks b'/' port_text
    → (path_start : ℕ) × (find
          (text protocol host port_text path query)
          (host_start protocol host port_text path query)
          (length (text protocol host port_text path query))
          b'/'
        ≡ some path_start)
      × ((if path_start == length (text protocol host port_text path query)
            then authority_end protocol host port_text path query + length path
            else path_start)
          ≡ authority_end protocol host port_text path query)
      × ((if path_start == length (text protocol host port_text path query)
            then some []
            else slice
                (text protocol host port_text path query)
                path_start
                (authority_end protocol host port_text path query + length path))
          ≡ some path)
authority_stop protocol host port_text [] query start no_slash a b =
    let same =
      (==_iff (length (text protocol host port_text [] query))
          (length (text protocol host port_text [] query))).1
        refl in
    (
      length (text protocol host port_text [] query),
      find-no_slash protocol host port_text [] query refl a b (no_slash refl),
      rw same (omega arith),
      rw same refl,
    )
authority_stop protocol host port_text (c ∷ cs) query start no_slash a b =
    let differ : authority_end protocol host port_text (c ∷ cs) query
        ≢ length (text protocol host port_text (c ∷ cs) query) =
      omega (arith, length-text protocol host port_text (c ∷ cs) query) in
    (
      authority_end protocol host port_text (c ∷ cs) query,
      find-slash protocol host port_text (c ∷ cs) query ((c ∷ cs) ++ query) refl a b start,
      rw (==_ne differ) refl,
      rw (==_ne differ) (slice-path protocol host port_text (c ∷ cs) query),
    )

not_colon :
    (path query : Bytes)
    → Starts b'/' path
    → Starts b'?' query
    → is_at b':' (get_elem? (path ++ query) 0) ≡ false
not_colon [] [] h k = refl
not_colon [] (c ∷ query) h k = ==_ne (omega arith)
not_colon (c ∷ path) query h k = ==_ne (omega arith)

port_lem :
    (protocol host port_text path query port : Bytes)
    → AfterColon port port_text
    → Starts b'/' path
    → Starts b'?' query
    → (if is_at b':' (
          get_elem?
            (text protocol host port_text path query)
            (host_start protocol host port_text path query + length host))
        then slice
            (text protocol host port_text path query)
            (host_start protocol host port_text path query + length host + 1)
            (authority_end protocol host port_text path query)
        else some [])
      ≡ some port
port_lem protocol host [] path query port none_there h k =
    rw (at_authority_end protocol host [] path query, not_colon path query h k)
      (ap some (sym none_there))
port_lem protocol host (c ∷ cs) path query port there h k =
    rw (at_authority_end protocol host (c ∷ cs) path query, (==_iff c b':').1 there.0)
      (slice-parts (text protocol host (c ∷ cs) path query)
          (protocol ++ (separator ++ (host ++ c ∷ []))) cs (path ++ query) (simp append_assoc) _ _
          (omega (arith, length-append {0})) (omega (arith, length-append {0}))
        ∙ ap some (sym there.1))

query_lem :
    (protocol host port_text path query : Bytes)
    → (if authority_end protocol host port_text path query + length path
          == length (text protocol host port_text path query)
        then some []
        else slice
            (text protocol host port_text path query)
            (authority_end protocol host port_text path query + length path)
            (length (text protocol host port_text path query)))
      ≡ some query
query_lem protocol host port_text path [] =
    let same : authority_end protocol host port_text path [] + length path
        ≡ length (text protocol host port_text path []) =
      omega (arith, length-text protocol host port_text path []) in
    rw
      ((==_iff (authority_end protocol host port_text path [] + length path)
          (length (text protocol host port_text path []))).1
        same)
      refl
query_lem protocol host port_text path (c ∷ cs) =
    let differ : authority_end protocol host port_text path (c ∷ cs) + length path
        ≢ length (text protocol host port_text path (c ∷ cs)) =
      omega (arith, length-text protocol host port_text path (c ∷ cs)) in
    rw (==_ne differ) (slice-query protocol host port_text path (c ∷ cs))

is_separator_lem :
    (rest : Bytes) → HasText rest → is_separator (c_string (separator ++ rest)) ≡ true
is_separator_lem [] h = absurd h
is_separator_lem (c ∷ cs) h = rw (==_ne h) refl

pub separator_lem :
    (protocol host port_text path query : Bytes)
    → HasText (host ++ (port_text ++ (path ++ query)))
    → protocol_of (text protocol host port_text path query) (length protocol)
      ≡ (protocol, host_start protocol host port_text path query)
separator_lem protocol host port_text path query h =
    let differ : length protocol ≢ length (text protocol host port_text path query) =
      omega (arith, length-text protocol host port_text path query) in
    rw (==_ne differ, drop-protocol protocol host port_text path query, is_separator_lem _ h)
      (rw
        (take-append protocol (separator ++ (host ++ (port_text ++ (path ++ query))))
          (length protocol) refl)
        refl)

print_port-AfterColon : (port : Bytes) → AfterColon port (print_port port)
print_port-AfterColon [] = refl
print_port-AfterColon (c ∷ cs) = (refl, refl)

Starts-print_port : (port : Bytes) → Starts b':' (print_port port)
Starts-print_port [] = tt
Starts-print_port (c ∷ cs) = refl

pub Lacks-print_port : (c : ℕ) (port : Bytes) → b':' ≢ c → Lacks c port → Lacks c (print_port port)
Lacks-print_port c [] h k = tt
Lacks-print_port c (x ∷ xs) h k = (h, k)

parse_rest-text :
    (protocol host port_text path query port : Bytes)
    → AfterColon port port_text
    → Starts b':' port_text
    → Starts b'/' path
    → Starts b'?' query
    → (path ≡ [] → Lacks b'/' query)
    → Lacks b':' host
    → Lacks b'/' host
    → Lacks b'/' port_text
    → parse_rest
        (text protocol host port_text path query)
        (authority_end protocol host port_text path query + length path)
        protocol
        (host_start protocol host port_text path query)
      ≡ some (record {
        query_string = query;
        path = path;
        protocol = protocol;
        host = host;
        port = port;
      })
unfolding parse_rest
parse_rest-text protocol host port_text path query port after colon slash question no_slash a b c =
    let (path_start, found, stop, path_is) =
      authority_stop protocol host port_text path query slash no_slash b c in
    rw
      (
        found,
        stop,
        find-port protocol host port_text path query a colon,
        slice-host protocol host port_text path query,
        port_lem protocol host port_text path query port after slash question,
        path_is,
        query_lem protocol host port_text path query,
      )
      refl

-- A URI whose parts do not hold the bytes that end them, and with a byte behind "://", is read back from
-- protocol://host:port/path?query by `Parse`: each part is the same, and the port, the path and the query
-- may be left out, but not the path before a query that holds a slash.
pub parse-print :
    (u : Uri) → IsPlain u → (u.path ≡ [] → Lacks b'/' u.query_string) → parse (print u) ≡ some u
unfolding parse
parse-print u plain no_slash =
    let p = u.protocol in
    let h = u.host in
    let n = print_port u.port in
    let t = u.path in
    let q = u.query_string in
    let not_empty : length (text p h n t q) ≢ 0 = omega (arith, length-text p h n t q) in
    rw
      (
        ==_ne not_empty,
        find-question p h n t q plain.protocol_question plain.host_question
            (Lacks-print_port b'?' u.port (omega arith) plain.port_question) plain.path_question
            plain.query_start,
        find-colon p h n t q plain.protocol_colon,
        separator_lem p h n t q plain.has_text,
      )
      (parse_rest-text p h n t q u.port (print_port-AfterColon u.port) (Starts-print_port u.port)
        plain.path_start plain.query_start no_slash plain.host_colon plain.host_slash
        (Lacks-print_port b'/' u.port (omega arith) plain.port_slash))
