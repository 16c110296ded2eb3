-- ===== src/Sql/Reading.antt =====
-- A reader of the statements of `InsertQuery`, written apart from them: literals, numbers in decimal, and
-- texts up to a byte.
use metric_bench.Prelude.{
  ℕ, zero, suc, ◌+◌, ◌-◌, ◌*◌, ◌≡◌, refl, ◌≢◌, Bool, true, false, Option, none, some, List, [], ◌∷◌,
  ◌++◌, ◌==◌, ==_iff, ==_ne, if◌then◌else◌, ◌>>=◌, length, arith, subst, ap, sym, ◌∙◌,
}
use metric_bench.Prelude.Int.{ℤ, pos, negsuc}
use metric_bench.Uri.{Bytes}
use metric_bench.Uri.Slices.{Lacks}
use metric_bench.Main.{codes}
use metric_bench.Text.{decimal, decimal_ℤ, value-decimal, AllDigits-decimal, decimal-cons}
use metric_bench.MongoDriver.Connection.{is_digit}
use metric_bench.MongoDriver.Address.{AllDigits, value}

-- what follows a literal
unfoldable pub strip : (literal text : Bytes) → Option Bytes
strip [] text = some text
strip (c ∷ cs) [] = none
strip (c ∷ cs) (x ∷ xs) = let rest = strip cs xs in if c == x then rest else none

-- the number that the leading digits spell behind `n`, and what follows them
unfoldable pub read_digits : ℕ → Bytes → ℕ × Bytes
read_digits n [] = (n, [])
read_digits n (c ∷ cs) =
    let later = read_digits (n * 10 + (c - b'0')) cs in if is_digit c then later else (n, c ∷ cs)

unfoldable pub read_ℤ : Bytes → ℤ × Bytes
unfolding read_digits
read_ℤ [] = (pos 0, [])
read_ℤ (c ∷ cs) =
    if c == b'-'
    then (negsuc ((read_digits 0 cs).0 - 1), (read_digits 0 cs).1)
    else (pos (read_digits 0 (c ∷ cs)).0, (read_digits 0 (c ∷ cs)).1)

-- the text before a byte, and the text from that byte on
unfoldable pub before : ℕ → Bytes → Bytes × Bytes
before c [] = ([], [])
before c (x ∷ xs) =
    let later = before c xs in if x == c then ([], x ∷ xs) else (x ∷ later.0, later.1)

-- what a statement says of a row; the value is left as text
pub record Entry : Type 0 where
  pub ts : ℕ
  pub device_id : ℕ
  pub metric_id : ℤ
  pub cnt : ℤ
  pub val : Bytes

unfoldable pub read_row : Bytes → Option (Entry × Bytes)
unfolding strip read_digits read_ℤ before
read_row text = do
  s ← strip (codes "(from_unixtime(") text
  let ts = read_digits 0 s
  s ← strip (codes "), ") ts.1
  let device = read_digits 0 s
  s ← strip (codes ", ") device.1
  let metric = read_ℤ s
  s ← strip (codes ",") metric.1
  let cnt = read_ℤ s
  s ← strip (codes ",") cnt.1
  let val = before b')' s
  s ← strip (codes ")") val.1
  some (
    record { ts = ts.0; device_id = device.0; metric_id = metric.0; cnt = cnt.0; val = val.0 },
    s,
  )

-- the rows up to the end of the text, with fuel for each
unfoldable pub read_rows : (fuel : ℕ) → (notfirst : Bool) → Bytes → Option (List Entry)
unfolding read_row
read_rows fuel notfirst [] = some []
read_rows zero notfirst (c ∷ cs) = none
read_rows (suc fuel) notfirst (c ∷ cs) =
    strip (if notfirst then codes "," else []) (c ∷ cs) >>= λ s.
    read_row s >>= λ r. read_rows fuel true r.1 >>= λ rows. some (r.0 ∷ rows)

-- the table and the rows of a statement
unfoldable pub read_insert : Bytes → Option (ℕ × List Entry)
unfolding read_rows
read_insert text = do
  s ← strip (codes "INSERT INTO metrics") text
  let table = read_digits 0 s
  s ← strip (codes " (ts, device_id, metric_id, cnt, val ) VALUES ") table.1
  rows ← read_rows (length s) false s
  some (table.0, rows)

-- Behind digits a text begins with no digit.
abbrev pub NoDigit : Bytes → Type 0
NoDigit [] = Unit {0}
NoDigit (c ∷ cs) = is_digit c ≡ false

is_digit-AllDigits : (c : ℕ) (cs : Bytes) → AllDigits (c ∷ cs) → is_digit c ≡ true
is_digit-AllDigits c cs h = ground arith

read_digits-append :
    (n : ℕ) (ds rest : Bytes)
    → AllDigits ds
    → NoDigit rest
    → read_digits n (ds ++ rest) ≡ (value n ds, rest)
unfolding read_digits
read_digits-append n [] [] h k = refl
read_digits-append n [] (c ∷ cs) h k = rw k refl
read_digits-append n (x ∷ ds) rest h k =
    rw (is_digit-AllDigits x ds h) (read_digits-append (n * 10 + (x - b'0')) ds rest h.2 k)

pub read_digits-decimal :
    (n : ℕ) (rest : Bytes) → NoDigit rest → read_digits 0 (decimal n ++ rest) ≡ (n, rest)
read_digits-decimal n rest k =
    rw (read_digits-append 0 (decimal n) rest (AllDigits-decimal n) k, value-decimal n) refl

read_ℤ-digits :
    (c : ℕ) (cs rest : Bytes)
    → AllDigits (c ∷ cs)
    → NoDigit rest
    → read_ℤ (c ∷ cs ++ rest) ≡ (pos (value 0 (c ∷ cs)), rest)
unfolding read_ℤ
read_ℤ-digits c cs rest h k =
    let differ : c ≢ b'-' = omega (arith, h.0) in
    rw (==_ne differ, read_digits-append 0 (c ∷ cs) rest h k) refl

pub read_ℤ-decimal_ℤ :
    (a : ℤ) (rest : Bytes) → NoDigit rest → read_ℤ (decimal_ℤ a ++ rest) ≡ (a, rest)
unfolding read_ℤ decimal_ℤ
read_ℤ-decimal_ℤ (pos n) rest k =
    let (c, cs, e) = decimal-cons n in
    ap (λ ds. read_ℤ (ds ++ rest)) e
    ∙ read_ℤ-digits c cs rest (subst AllDigits e (AllDigits-decimal n)) k
    ∙ ap (λ v. (pos v, rest)) (ap (value 0) (sym e) ∙ value-decimal n)
read_ℤ-decimal_ℤ (negsuc n) rest k =
    rw (read_digits-decimal (suc n) rest k) (ap (λ m. (negsuc m, rest)) (omega arith))

pub before-append :
    (c : ℕ) (xs rest : Bytes) → Lacks c xs → before c (xs ++ c ∷ rest) ≡ (xs, c ∷ rest)
unfolding before
before-append c [] rest h = rw ((==_iff c c).1 refl) refl
before-append c (x ∷ xs) rest h = rw (==_ne h.0, before-append c xs rest h.1) refl

pub strip-append : (literal rest : Bytes) → strip literal (literal ++ rest) ≡ some rest
unfolding strip
strip-append [] rest = refl
strip-append (c ∷ cs) rest = rw ((==_iff c c).1 refl) (strip-append cs rest)
