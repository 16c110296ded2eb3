-- ===== src/MongoDriver/Connection.antt =====
-- src/MongoDBDriver.cpp: `getConnection`, up to the connection itself, which is the client library's.
use metric_bench.Prelude.{
  ℕ, ◌+◌, ◌-◌, ◌*◌, ◌^◌, Bool, true, false, ◌&&◌, ◌||◌, Option, none, some, [], ◌∷◌, leb, ◌==◌,
  if◌then◌else◌, ◌>>=◌,
}
use metric_bench.Prelude.Int.{ℤ, pos, negsuc, ◌-ℤ◌}
use metric_bench.Uri.{Bytes, parse}

-- `mongo::HostAndPort`
pub record HostAndPort : Type 0 where
  pub host : Bytes
  pub port : ℤ

abbrev pub is_digit : ℕ → Bool
is_digit c = leb b'0' c && leb c b'9'

abbrev pub is_space : ℕ → Bool
is_space c = c == 32 || (leb 9 c && leb c 13)

abbrev pub skip_spaces : Bytes → Bytes
skip_spaces [] = []
skip_spaces (c ∷ cs) = let rest = skip_spaces cs in if is_space c then rest else c ∷ cs

-- the number that the leading digits spell behind `n`
abbrev pub digits_from : ℕ → Bytes → ℕ
digits_from n [] = n
digits_from n (c ∷ cs) =
    let rest = digits_from (n * 10 + (c - b'0')) cs in if is_digit c then rest else n

-- the magnitude behind the sign; `none` where no digit comes first
abbrev pub magnitude : Bytes → Option ℕ
magnitude [] = none
magnitude (c ∷ cs) = if is_digit c then some (digits_from 0 (c ∷ cs)) else none

-- the sign and what follows it
abbrev pub sign : Bytes → Bool × Bytes
sign [] = (false, [])
sign (c ∷ cs) = if c == b'-' then (true, cs) else if c == b'+' then (false, cs) else (false, c ∷ cs)

-- the value, where an `int` holds it
abbrev pub in_int : Bool → ℕ → Option ℤ
in_int true m = if leb m (2 ^ 31) then some (pos 0 -ℤ pos m) else none
in_int false m = if leb m (2 ^ 31 - 1) then some (pos m) else none

-- `std::stoi(s, nullptr, 10)`; `none` is an exception
unfoldable pub stoi : Bytes → Option ℤ
unfolding ◌-ℤ◌
stoi s = let signed = sign (skip_spaces s) in magnitude signed.1 >>= λ m. in_int signed.0 m

abbrev pub is_empty : Bytes → Bool
is_empty [] = true
is_empty (c ∷ cs) = false

-- `p`: -1, or the port where `stoi` does not throw
abbrev pub or_default : Option ℤ → ℤ
or_default none = negsuc 0
or_default (some p) = p

-- the argument of `connect` in `getConnection`; `none` is a URL on which `Uri::Parse` fails
unfoldable pub host_and_port : (url : Bytes) → Option HostAndPort
unfolding parse stoi
host_and_port url = do
  u ← parse url
  some (record {
    host = u.host;
    port = if is_empty u.port then negsuc 0 else or_default (stoi u.port);
  })
