-- ===== src/Prelude/Int.antt =====
-- Signed integers over the native numbers, under the library's names (its ℤ stands on the unary ℕ).
-- Sums and orders go through the two parts of an integer, which are numbers that `omega` reads.
use native.Mathlib.Nat.{mul-div_cancel}
use metric_bench.Prelude.{
  ◌≡◌, refl, ap, ◌<◌, ◌≤◌, ◌⊎◌, ℕ, suc, ◌*◌, ◌-◌, ◌+◌, Bool, true, arith, zero, dec_le, ltb, leb,
  if◌then◌else◌, ◌/◌, ◌%◌, ◌^◌, ◌==◌ as nat_beq,
}

-- `negsuc n` is -(n + 1).
pub data ℤ : Type 0 where
  pos : ℕ → ℤ
  negsuc : ℕ → ℤ

abbrev pub pos_part : ℤ → ℕ
pos_part (pos n) = n
pos_part (negsuc n) = 0

abbrev pub neg_part : ℤ → ℕ
neg_part (pos n) = 0
neg_part (negsuc n) = suc n

-- a - b, as an integer.
abbrev pub sub_ℕ : ℕ → ℕ → ℤ
sub_ℕ a b = if leb b a then pos (a - b) else negsuc (b - a - 1)

infixl 65 ◌+ℤ◌ ◌-ℤ◌
infixl 70 ◌*ℤ◌
infix 50 ◌≤ℤ◌
unfoldable pub ◌+ℤ◌ : ℤ → ℤ → ℤ
a +ℤ b = sub_ℕ (pos_part a + pos_part b) (neg_part a + neg_part b)

unfoldable pub ◌-ℤ◌ : ℤ → ℤ → ℤ
a -ℤ b = sub_ℕ (pos_part a + neg_part b) (neg_part a + pos_part b)

unfoldable pub ◌*ℤ◌ : ℤ → ℤ → ℤ
a *ℤ b =
    sub_ℕ (pos_part a * pos_part b + neg_part a * neg_part b)
      (pos_part a * neg_part b + neg_part a * pos_part b)

abbrev pub ◌≤ℤ◌ : ℤ → ℤ → Type 0
a ≤ℤ b = pos_part a + neg_part b ≤ pos_part b + neg_part a

infix 50 ◌<ℤ◌
abbrev pub ◌<ℤ◌ : ℤ → ℤ → Type 0
a <ℤ b = pos_part a + neg_part b < pos_part b + neg_part a

abbrev pub leb_ℤ : ℤ → ℤ → Bool
leb_ℤ a b = leb (pos_part a + neg_part b) (pos_part b + neg_part a)

abbrev pub ltb_ℤ : ℤ → ℤ → Bool
ltb_ℤ a b = ltb (pos_part a + neg_part b) (pos_part b + neg_part a)

-- With the operations unfolded `ground` splits on the signs.
pub +ℤ_comm : (a b : ℤ) → a +ℤ b ≡ b +ℤ a
unfolding ◌+ℤ◌
+ℤ_comm a b = ground arith

pub +ℤ_assoc : (a b c : ℤ) → a +ℤ b +ℤ c ≡ a +ℤ (b +ℤ c)
unfolding ◌+ℤ◌
+ℤ_assoc a b c = ground arith

pub +ℤ_cancel : (a b : ℤ) → a +ℤ b -ℤ b ≡ a
unfolding ◌+ℤ◌ ◌-ℤ◌
+ℤ_cancel a b = ground arith

pub ≤ℤ_total : (a b : ℤ) → (a ≤ℤ b) ⊎ (b ≤ℤ a)
≤ℤ_total a b = omega arith

-- One lemma for each operation lets `omega` work with the operations shut, at any depth.
pub +ℤ_parts :
    (a b : ℤ)
    → pos_part (a +ℤ b) + neg_part a + neg_part b ≡ neg_part (a +ℤ b) + pos_part a + pos_part b
unfolding ◌+ℤ◌
+ℤ_parts a b = ground arith

pub -ℤ_parts :
    (a b : ℤ)
    → pos_part (a -ℤ b) + neg_part a + pos_part b ≡ neg_part (a -ℤ b) + pos_part a + neg_part b
unfolding ◌-ℤ◌
-ℤ_parts a b = ground arith

pub eq_of_parts : (a b : ℤ) → pos_part a + neg_part b ≡ pos_part b + neg_part a → a ≡ b
eq_of_parts a b h = ground arith

pub ruleset int_laws = (arith, +ℤ_parts, -ℤ_parts, eq_of_parts)

pub +ℤ_mono : (a b c d : ℤ) → a ≤ℤ b → c ≤ℤ d → a +ℤ c ≤ℤ b +ℤ d
+ℤ_mono a b c d h k = omega int_laws

-- What C++ does with an `int64_t` or an `int32_t`, beyond sums and orders.
abbrev pub eqb_ℤ : ℤ → ℤ → Bool
eqb_ℤ a b = nat_beq (pos_part a + neg_part b) (pos_part b + neg_part a)

-- `a / k` and `a % k` by a positive `k`: the quotient is rounded towards zero.
abbrev pub quot : ℤ → ℕ → ℤ
quot (pos n) k = pos (n / k)
quot (negsuc n) k = sub_ℕ 0 ((n + 1) / k)

-- `static_cast<int32_t>`: the value modulo 2 ^ 32, in the range of a signed word.
abbrev pub signed32 : ℕ → ℤ
signed32 w = if ltb w (2 ^ 31) then pos w else negsuc (2 ^ 32 - w - 1)

abbrev pub int32 : ℤ → ℤ
int32 (pos n) = signed32 (n % 2 ^ 32)
int32 (negsuc n) = signed32 (2 ^ 32 - 1 - n % 2 ^ 32)

-- `std::max` and `std::min`
abbrev pub max_ℤ : ℤ → ℤ → ℤ
max_ℤ a b = if ltb_ℤ a b then b else a

abbrev pub min_ℤ : ℤ → ℤ → ℤ
min_ℤ a b = if ltb_ℤ b a then b else a

pub eq_of_eqb_ℤ : (a b : ℤ) → eqb_ℤ a b ≡ true → a ≡ b
eq_of_eqb_ℤ a b h = eq_of_parts a b (ground arith)

pub -ℤ-pos : (a b : ℕ) → pos a -ℤ pos b ≡ sub_ℕ a b
unfolding ◌-ℤ◌
-ℤ-pos a b = ground arith

pub +ℤ-sub_ℕ : (a b c d : ℕ) → sub_ℕ a b +ℤ sub_ℕ c d ≡ sub_ℕ (a + c) (b + d)
unfolding ◌+ℤ◌
+ℤ-sub_ℕ a b c d = ground arith

pub +ℤ-pos-sub_ℕ : (a b c : ℕ) → pos a +ℤ sub_ℕ b c ≡ sub_ℕ (a + b) c
unfolding ◌+ℤ◌
+ℤ-pos-sub_ℕ a b c = ground arith

pub sub_ℕ-eq : (a b c d : ℕ) → a + d ≡ c + b → sub_ℕ a b ≡ sub_ℕ c d
sub_ℕ-eq a b c d h = ground arith

mul_split : (a b n : ℕ) → b ≤ a → a * n ≡ b * n + (a - b) * n
mul_split a b n h = let e : a ≡ b + (a - b) = omega arith in omega (arith, ap (λ (t : ℕ). t * n) e)

pub *ℤ-sub_ℕ : (a b n : ℕ) → sub_ℕ a b *ℤ pos n ≡ sub_ℕ (a * n) (b * n)
unfolding ◌*ℤ◌
*ℤ-sub_ℕ a b n = elim (dec_le b a) [
  | yes p ↦ rw (nonneg p) (sub_ℕ-eq _ _ _ _ (omega (arith, mul_split a b n p)))
  | no p ↦ rw (neg p) (
      sub_ℕ-eq _ _ _ _
        (omega (arith, mul_split b a n (omega arith), ap (λ (t : ℕ). t * n) (back p))))
]
  where
    nonneg : b ≤ a → sub_ℕ a b ≡ pos (a - b)
    nonneg p = ground arith

    neg : ¬ (b ≤ a) → sub_ℕ a b ≡ negsuc (b - a - 1)
    neg p = ground arith

    back : ¬ (b ≤ a) → suc (b - a - 1) ≡ b - a
    back p = omega arith

*ℤ-pos : (m n : ℕ) → pos m *ℤ pos n ≡ pos (m * n)
unfolding ◌*ℤ◌
*ℤ-pos m n = ground arith

*ℤ-negsuc : (m k : ℕ) → negsuc m *ℤ pos (suc k) ≡ negsuc (suc m * suc k - 1)
unfolding ◌*ℤ◌
*ℤ-negsuc m k = grind arith

-- Division undoes multiplication.
pub quot-*ℤ : (a : ℤ) (n : ℕ) → 0 < n → quot (a *ℤ pos n) n ≡ a
quot-*ℤ (pos m) n h = rw (*ℤ-pos m n) (ap pos (mul-div_cancel m h))
quot-*ℤ (negsuc m) zero h = absurd (omega arith)
quot-*ℤ (negsuc m) (suc k) h =
    let e : suc m * suc k - 1 + 1 ≡ suc m * suc k = grind arith in
    rw (*ℤ-negsuc m k, e, mul-div_cancel (suc m) h) (ground arith)

pub max_ℤ_assoc : (a b c : ℤ) → max_ℤ (max_ℤ a b) c ≡ max_ℤ a (max_ℤ b c)
max_ℤ_assoc a b c = ground arith

pub max_ℤ_swap : (a b c : ℤ) → max_ℤ (max_ℤ a b) c ≡ max_ℤ (max_ℤ a c) b
max_ℤ_swap a b c = ground arith
