-- ===== src/Prelude/Arrays.antt =====
-- Arrays as functions of their indices, and loops over an index range.
use Prim.Native.Nat.{ℕ, zero, suc, ◌+◌, ◌<◌}
use mathlib.Core.Path.{◌≡◌, refl, sym, ap, subst}
use mathlib.Core.Logic.{◌≢◌}
use mathlib.Core.Option.{Option, none, some}
use native.Mathlib.Decide.{ℕ_discrete}
use native.Mathlib.Omega.{arith}
use metric_bench.Prelude.Tests.{◌==◌, if◌then◌else◌}

module _ {ℓ} {A : Type ℓ} where
  -- a[i] = v
  abbrev pub update : (ℕ → A) → ℕ → A → ℕ → A
  update a i v j = if i == j then v else a j

  -- a[i][j] = v
  abbrev pub update2 : (ℕ → ℕ → A) → ℕ → ℕ → A → ℕ → ℕ → A
  update2 a i j v k = if i == k then update (a i) j v else a k

  -- for (i = 0; i < n; i++) acc = body i acc;
  unfoldable pub fold_below : ℕ → (ℕ → A → A) → A → A
  fold_below zero body acc = acc
  fold_below (suc n) body acc = body n (fold_below n body acc)

unfoldable pub sum_below : ℕ → (ℕ → ℕ) → ℕ
unfolding fold_below
sum_below n f = fold_below n (λ i acc. acc + f i) 0

pub sum_below-suc : (n : ℕ) (f : ℕ → ℕ) → sum_below (suc n) f ≡ sum_below n f + f n
unfolding sum_below
sum_below-suc n f = refl

pub sum_below-zero : (n : ℕ) → sum_below n (λ _. 0) ≡ 0
unfolding sum_below
sum_below-zero zero = refl
sum_below-zero (suc n) = omega (arith, sum_below-zero n)

-- An array that differs at one index below n differs by as much in the sum.
pub sum_below-ext :
    (n : ℕ) (f g : ℕ → ℕ) → ((i : ℕ) → i < n → f i ≡ g i) → sum_below n f ≡ sum_below n g
unfolding sum_below
sum_below-ext zero f g h = refl
sum_below-ext (suc n) f g h =
    omega (arith, h n (omega arith), sum_below-ext n f g (λ i p. h i (omega arith)))

pub sum_below_step :
    (n t k : ℕ) (f g : ℕ → ℕ)
    → t < n
    → ((i : ℕ) → i ≢ t → g i ≡ f i)
    → g t ≡ f t + k
    → sum_below n g ≡ sum_below n f + k
sum_below_step zero t k f g h same e = absurd (omega arith)
sum_below_step (suc n) t k f g h same e = elim (ℕ_discrete t n) [
  | yes p ↦ omega (
    arith,
    sum_below-suc n f,
    sum_below-suc n g,
    sum_below-ext n g f (λ i q. same i (λ r. omega arith)),
    subst (λ j. g j ≡ f j + k) p e,
  )
  | no p ↦ omega (
    arith,
    sum_below-suc n f,
    sum_below-suc n g,
    sum_below_step n t k f g (omega arith) same e,
    same n (λ r. p (sym r)),
  )
]

infixl 5 ◌>>=◌
abbrev pub ◌>>=◌ {ℓ κ} : {A : Type ℓ} {B : Type κ} → Option A → (A → Option B) → Option B
none >>= f = none
some a >>= f = f a

-- A chain that returns passed through its first step.
pub inversion {ℓ κ} :
    {A : Type ℓ} {B : Type κ} (m : Option A) (f : A → Option B) {b : B}
    → (m >>= f) ≡ some b
    → (a : A) × (m ≡ some a) × (f a ≡ some b)
inversion none f h = cc
inversion (some a) f h = (a, refl, h)

pub some-injective {ℓ} : {A : Type ℓ} {a b : A} → some a ≡ some b → a ≡ b
some-injective {a} p = ap (λ o. elim o [ none ↦ a | some x ↦ x ]) p
