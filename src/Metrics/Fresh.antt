-- ===== src/Metrics/Fresh.antt =====
-- How many of some distinct metrics are not taken yet.
use mathlib.Core.List.{append-nil, append_assoc}
use metric_bench.Prelude.{
  ℕ, ◌+◌, ◌≤◌, ◌≡◌, refl, ap, subst, ◌∙◌, Bool, true, false, ◌||◌, List, [], ◌∷◌, ◌++◌, arith,
  length, if◌then◌else◌, Bool-cases, inl, inr,
}
use metric_bench.Prelude.Int.{ℤ, eqb_ℤ, eq_of_eqb_ℤ}
use metric_bench.Metrics.{has}

pub eqb_ℤ_refl : (x : ℤ) → eqb_ℤ x x ≡ true
eqb_ℤ_refl x = ground arith

pub eqb_ℤ_sym : (x y : ℤ) → eqb_ℤ x y ≡ eqb_ℤ y x
eqb_ℤ_sym x y = ground arith

pub or_parts : (a b : Bool) → (a || b) ≡ false → (a ≡ false) × (b ≡ false)
or_parts true b h = cc
or_parts false b h = (refl, h)

or_true : (a : Bool) → (a || true) ≡ true
or_true true = refl
or_true false = refl

or_false : (a : Bool) → (a || false) ≡ a
or_false true = refl
or_false false = refl

pub has-snoc : (x r : ℤ) (taken : List ℤ) → has x (taken ++ r ∷ []) ≡ (has x taken || eqb_ℤ x r)
has-snoc x r [] = or_false (eqb_ℤ x r)
has-snoc x r (y ∷ ys) = elim (Bool-cases (eqb_ℤ x y)) [
  | inl e ↦ rw e refl
  | inr e ↦ rw e (has-snoc x r ys)
]

has-snoc_ne : (x r : ℤ) (taken : List ℤ) → eqb_ℤ x r ≡ false → has x (taken ++ r ∷ []) ≡ has x taken
has-snoc_ne x r taken h = has-snoc x r taken ∙ ap (λ b. has x taken || b) h ∙ or_false (has x taken)

has-snoc_self : (x r : ℤ) (taken : List ℤ) → eqb_ℤ x r ≡ true → has x (taken ++ r ∷ []) ≡ true
has-snoc_self x r taken h =
    has-snoc x r taken ∙ ap (λ b. has x taken || b) h ∙ or_true (has x taken)

-- no metric occurs twice
abbrev pub Distinct : List ℤ → Type 0
Distinct [] = Unit {0}
Distinct (x ∷ xs) = (has x xs ≡ false) × Distinct xs

pub Distinct-snoc : (x : ℤ) (xs : List ℤ) → has x xs ≡ false → Distinct xs → Distinct (xs ++ x ∷ [])
Distinct-snoc x [] h k = (refl, tt)
Distinct-snoc x (y ∷ ys) h k =
    let (differ, absent) = or_parts (eqb_ℤ x y) (has x ys) h in
    (has-snoc_ne y x ys (eqb_ℤ_sym y x ∙ differ) ∙ k.0, Distinct-snoc x ys absent k.1)

abbrev pub fresh : List ℤ → (taken : List ℤ) → ℕ
fresh [] taken = 0
fresh (x ∷ xs) taken = (if has x taken then 0 else 1) + fresh xs taken

pub or_left_false : {a b : Bool} → a ≡ false → (a || b) ≡ true → b ≡ true
or_left_false {a = false} h e = e
or_left_false {a = true} h e = cc

pub fresh_known :
    (x : ℤ) (xs taken : List ℤ) → has x taken ≡ true → fresh (x ∷ xs) taken ≡ fresh xs taken
fresh_known x xs taken h = rw h (omega arith)

pub fresh_new :
    (x : ℤ) (xs taken : List ℤ) → has x taken ≡ false → fresh (x ∷ xs) taken ≡ fresh xs taken + 1
fresh_new x xs taken h = rw h (omega arith)

-- A metric that is not among them changes nothing.
pub fresh_other :
    (xs : List ℤ) (r : ℤ) (taken : List ℤ)
    → has r xs ≡ false
    → fresh xs (taken ++ r ∷ []) ≡ fresh xs taken
fresh_other [] r taken h = refl
fresh_other (x ∷ xs) r taken h =
    let (differ, absent) = or_parts (eqb_ℤ r x) (has r xs) h in
    rw (has-snoc_ne x r taken (eqb_ℤ_sym x r ∙ differ))
      (omega (arith, fresh_other xs r taken absent))

one_less :
    {a b : ℕ} (taken : Bool)
    → a ≡ b
    → (if taken then 0 else 1) + b ≤ (if true then 0 else 1) + a + 1
one_less true e = omega arith
one_less false e = omega arith

-- Taking one metric leaves at most one fewer.
pub fresh-snoc :
    (xs : List ℤ) (r : ℤ) (taken : List ℤ)
    → Distinct xs
    → fresh xs taken ≤ fresh xs (taken ++ r ∷ []) + 1
fresh-snoc [] r taken h = omega arith
fresh-snoc (x ∷ xs) r taken h = elim (Bool-cases (eqb_ℤ x r)) [
  | inl same ↦
      let is_r : x ≡ r = eq_of_eqb_ℤ x r same in
      let absent : has r xs ≡ false = subst (λ y. has y xs ≡ false) is_r h.0 in
      rw (has-snoc_self x r taken same) (one_less (has x taken) (fresh_other xs r taken absent))
  | inr differ ↦ rw (has-snoc_ne x r taken differ) (omega (arith, fresh-snoc xs r taken h.1))
]

fresh-nil : (xs : List ℤ) → fresh xs [] ≡ length xs
fresh-nil [] = refl
fresh-nil (x ∷ xs) = omega (arith, fresh-nil xs)

-- Of distinct metrics at most as many are taken as were taken at all.
fresh-le :
    (xs taken front : List ℤ)
    → Distinct xs
    → fresh xs front ≤ fresh xs (front ++ taken) + length taken
fresh-le xs [] front h = rw (append-nil front) (omega arith)
fresh-le xs (r ∷ taken) front h =
    let rest = fresh-le xs taken (front ++ r ∷ []) h in
    let e = append_assoc front (r ∷ []) taken in
    omega (arith, fresh-snoc xs r front h, rest, ap (fresh xs) e)

pub length-le-fresh : (xs taken : List ℤ) → Distinct xs → length xs ≤ fresh xs taken + length taken
length-le-fresh xs taken h = omega (arith, fresh-le xs taken [] h, fresh-nil xs)
