-- ===== src/Text.antt =====
-- The texts that the drivers send: numbers in decimal, as `std::to_string` and `operator<<` write them, and
-- the prefix of a text up to a byte, which the readers of these texts use.
use metric_bench.Prelude.{
  refl, ℕ, zero, suc, ◌+◌, ◌-◌, ◌*◌, ◌/◌, ◌%◌, ◌≤◌, ◌≡◌, ◌≢◌, refl, Bool-cases, inl, inr, [], ◌∷◌,
  ◌++◌, ltb, if◌then◌else◌, arith,
}
use metric_bench.Prelude.Int.{ℤ, pos, negsuc}
use metric_bench.Uri.{Bytes}
use metric_bench.Uri.Slices.{Lacks}
use metric_bench.MongoDriver.Address.{AllDigits, value}

-- The decimal digits of a number; each round leaves one digit less, so the number itself is fuel enough.
unfoldable pub digits_up_to : (fuel n : ℕ) → Bytes
digits_up_to zero n = (b'0' + n % 10) ∷ []
digits_up_to (suc fuel) n =
    let front = digits_up_to fuel (n / 10) in
    if ltb n 10 then (b'0' + n) ∷ [] else front ++ (b'0' + n % 10) ∷ []

unfoldable pub decimal : ℕ → Bytes
unfolding digits_up_to
decimal n = digits_up_to n n

unfoldable pub decimal_ℤ : ℤ → Bytes
decimal_ℤ (pos n) = decimal n
decimal_ℤ (negsuc n) = b'-' ∷ decimal (suc n)

value-append : (a : ℕ) (xs : Bytes) (c : ℕ) → value a (xs ++ c ∷ []) ≡ value a xs * 10 + (c - b'0')
value-append a [] c = refl
value-append a (x ∷ xs) c = value-append (a * 10 + (x - b'0')) xs c

value-digits_up_to : (fuel n : ℕ) → n ≤ fuel → value 0 (digits_up_to fuel n) ≡ n
unfolding digits_up_to
value-digits_up_to zero n h = omega arith
value-digits_up_to (suc fuel) n h = elim (Bool-cases (ltb n 10)) [
  | inl one ↦ rw one (omega arith)
  | inr more ↦
      rw (more, value-append 0 (digits_up_to fuel (n / 10)) (b'0' + n % 10))
        (ground (arith, value-digits_up_to fuel (n / 10)))
]

AllDigits-append :
    (xs : Bytes) (c : ℕ) → AllDigits xs → b'0' ≤ c → c ≤ b'9' → AllDigits (xs ++ c ∷ [])
AllDigits-append [] c h p q = (p, q, tt)
AllDigits-append (x ∷ xs) c h p q = (h.0, h.1, AllDigits-append xs c h.2 p q)

AllDigits-digits_up_to : (fuel n : ℕ) → AllDigits (digits_up_to fuel n)
unfolding digits_up_to
AllDigits-digits_up_to zero n = (omega arith, omega arith, tt)
AllDigits-digits_up_to (suc fuel) n = elim (Bool-cases (ltb n 10)) [
  | inl one ↦ rw one (omega arith, ground arith, tt)
  | inr more ↦ rw more (
      AllDigits-append (digits_up_to fuel (n / 10)) (b'0' + n % 10)
        (AllDigits-digits_up_to fuel (n / 10)) (omega arith) (omega arith))
]

pub value-decimal : (n : ℕ) → value 0 (decimal n) ≡ n
unfolding decimal
value-decimal n = value-digits_up_to n n (omega arith)

pub AllDigits-decimal : (n : ℕ) → AllDigits (decimal n)
unfolding decimal
AllDigits-decimal n = AllDigits-digits_up_to n n

append-cons : (xs : Bytes) (c : ℕ) → (d : ℕ) × (ds : Bytes) × (xs ++ c ∷ [] ≡ d ∷ ds)
append-cons [] c = (c, [], refl)
append-cons (x ∷ xs) c = (x, xs ++ c ∷ [], refl)

digits_up_to-cons : (fuel n : ℕ) → (c : ℕ) × (cs : Bytes) × (digits_up_to fuel n ≡ c ∷ cs)
unfolding digits_up_to
digits_up_to-cons zero n = (b'0' + n % 10, [], refl)
digits_up_to-cons (suc fuel) n = elim (Bool-cases (ltb n 10)) [
  | inl one ↦ (b'0' + n, [], rw one refl)
  | inr more ↦
      let (c, cs, e) = append-cons (digits_up_to fuel (n / 10)) (b'0' + n % 10) in
      (c, cs, rw more e)
]

pub decimal-cons : (n : ℕ) → (c : ℕ) × (cs : Bytes) × (decimal n ≡ c ∷ cs)
unfolding decimal
decimal-cons n = digits_up_to-cons n n

Lacks-AllDigits : (c : ℕ) (ds : Bytes) → c ≤ b'/' → AllDigits ds → Lacks c ds
Lacks-AllDigits c [] h k = tt
Lacks-AllDigits c (d ∷ ds) h k = (omega arith, Lacks-AllDigits c ds h k.2)

-- A byte before the digits, other than the sign, does not occur in a number.
pub Lacks-decimal_ℤ : (c : ℕ) (a : ℤ) → c ≤ b'/' → c ≢ b'-' → Lacks c (decimal_ℤ a)
unfolding decimal_ℤ
Lacks-decimal_ℤ c (pos n) h k = Lacks-AllDigits c (decimal n) h (AllDigits-decimal n)
Lacks-decimal_ℤ c (negsuc n) h k =
    (omega (arith, k), Lacks-AllDigits c (decimal (suc n)) h (AllDigits-decimal (suc n)))
