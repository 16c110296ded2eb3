-- ===== src/RunningMean/Laws.antt =====
-- With exact arithmetic on integers the running mean is the mean of the samples.
use metric_bench.Prelude.{
  ℕ, suc, ◌+◌, ◌*◌, ◌^◌, ◌≤◌, ◌<◌, ◌≡◌, refl, ap, ap₂, sym, ◌∙◌, List, [], ◌∷◌, arith, length,
}
use metric_bench.Prelude.Double.{Double, IsSmall, IsExact}
use metric_bench.Prelude.Int.{
  pos, sub_ℕ, ◌+ℤ◌, ◌-ℤ◌, ◌*ℤ◌, -ℤ-pos, +ℤ-sub_ℕ, +ℤ-pos-sub_ℕ, sub_ℕ-eq, *ℤ-sub_ℕ,
}
use metric_bench.RunningMean.{RunningMean, first_sample, add_sample, mean, samples}

abbrev pub sum : List ℕ → ℕ
sum [] = 0
sum (x ∷ xs) = x + sum xs

abbrev pub AtMost : ℕ → List ℕ → Type 0
AtMost bound [] = Unit {0}
AtMost bound (x ∷ xs) = (x ≤ bound) × AtMost bound xs

mul_le_mul : (a b c d : ℕ) → a ≤ b → c ≤ d → a * c ≤ b * d
mul_le_mul a b c d p q = grind arith

IsSmall-sub_ℕ : (a b : ℕ) → a ≤ 2 ^ 53 → b ≤ 2 ^ 53 → IsSmall (sub_ℕ a b)
IsSmall-sub_ℕ a b p q = (ground arith, ground arith)

sum-le : (bound : ℕ) (xs : List ℕ) → AtMost bound xs → sum xs ≤ length xs * bound
sum-le bound [] h = omega arith
sum-le bound (x ∷ xs) h = omega (arith, sum-le bound xs h.1)

module _ (d : Double) where
  open d use {of_ℤ}

  -- the loop of `displayStats` over samples of an integer type
  pub add_samples : RunningMean d → List ℕ → RunningMean d
  add_samples m [] = m
  add_samples m (x ∷ xs) = add_samples (add_sample d m (of_ℤ (pos x))) xs

  samples-add_samples :
      (m : RunningMean d) (xs : List ℕ) → samples d (add_samples m xs) ≡ samples d m + length xs
  unfolding samples add_samples add_sample
  samples-add_samples m [] = omega arith
  samples-add_samples m (x ∷ xs) =
      omega (arith, samples-add_samples (add_sample d m (of_ℤ (pos x))) xs)

  v1-add_samples : (m : RunningMean d) (xs : List ℕ) → (add_samples m xs).v1 ≡ m.v1
  unfolding add_samples add_sample
  v1-add_samples m [] = refl
  v1-add_samples m (x ∷ xs) = v1-add_samples (add_sample d m (of_ℤ (pos x))) xs

  mean-parts :
      (r : RunningMean d) {a b : d.Carrier} {n : ℕ}
      → r.v1 ≡ a
      → r.running ≡ b
      → r.n ≡ n
      → mean d r ≡ d.add a (d.div b (of_ℤ (pos n)))
  unfolding mean
  mean-parts r p q e = cc

  module _ (exact : IsExact d) (bound v : ℕ) (fits : v ≤ bound) where
    accumulate :
        (m : RunningMean d) (x s p q : ℕ)
        → q ≡ p + v
        → s + x ≤ 2 ^ 53
        → q ≤ 2 ^ 53
        → m.v1 ≡ of_ℤ (pos v)
        → m.running ≡ of_ℤ (sub_ℕ s p)
        → (add_sample d m (of_ℤ (pos x))).running ≡ of_ℤ (sub_ℕ (s + x) q)
    unfolding add_sample
    accumulate m x s p q e hs hq hv hr = rw (
      hr,
      hv,
      exact.sub_exact (pos x) (pos v) (omega arith) (omega arith) sub_small,
      -ℤ-pos x v,
      exact.add_exact (sub_ℕ s p) (sub_ℕ x v) (IsSmall-sub_ℕ s p (omega arith) (omega arith))
          (IsSmall-sub_ℕ x v (omega arith) (omega arith)) sum_small,
      +ℤ-sub_ℕ s p x v,
      e,
    )
      where
        sub_small : IsSmall (pos x -ℤ pos v)
        sub_small = rw (-ℤ-pos x v) (IsSmall-sub_ℕ x v (omega arith) (omega arith))

        sum_small : IsSmall (sub_ℕ s p +ℤ sub_ℕ x v)
        sum_small = rw (+ℤ-sub_ℕ s p x v) (IsSmall-sub_ℕ (s + x) (p + v) hs (omega arith))

    -- After k samples with sum s the accumulator holds s - k * v.
    running-add_samples :
        (xs : List ℕ) (m : RunningMean d) (k s : ℕ)
        → AtMost bound xs
        → (k + length xs) * bound ≤ 2 ^ 53
        → s ≤ k * bound
        → m.v1 ≡ of_ℤ (pos v)
        → m.running ≡ of_ℤ (sub_ℕ s (k * v))
        → (add_samples m xs).running ≡ of_ℤ (sub_ℕ (s + sum xs) ((k + length xs) * v))
    unfolding add_samples
    running-add_samples [] m k s h small le e r = rw r (ap of_ℤ (grind arith))
    running-add_samples (x ∷ xs) m k s h small le e r =
        running-add_samples xs (add_sample d m (of_ℤ (pos x))) (suc k) (s + x) h.1 (grind arith)
          (grind arith) (unfold add_sample in e)
          (accumulate m x s (k * v) (suc k * v) (grind arith) (grind arith)
            (omega (arith, mul_le_mul (suc k) (k + suc (length xs)) v bound (omega arith) fits)) e
            r)
        ∙ ap of_ℤ (ap₂ sub_ℕ (omega arith) (grind arith))

-- Over n integer samples with n * bound at most 2 ^ 53, each of them at most `bound`, `samples` is n,
-- and where the samples add up to n * m, `mean` is exactly m.
pub mean-add_samples :
    (d : Double)
    → IsExact d
    → (bound v m : ℕ) (xs : List ℕ) → 0 < bound
    → v ≤ bound
    → AtMost bound xs
    → suc (length xs) * bound ≤ 2 ^ 53
    → v + sum xs ≡ suc (length xs) * m
    → let r = add_samples d (first_sample d (d.of_ℤ (pos v))) xs in
      (samples d r ≡ suc (length xs)) × (mean d r ≡ d.of_ℤ (pos m))
unfolding samples first_sample
mean-add_samples d exact bound v m xs positive fits h small total = (count, average)
  where
    start : RunningMean d
    start = first_sample d (d.of_ℤ (pos v))

    n : ℕ
    n = suc (length xs)

    count : (add_samples d start xs).n ≡ n
    count = unfold samples first_sample in samples-add_samples d start xs ∙ omega arith

    accumulated : (add_samples d start xs).running ≡ d.of_ℤ (sub_ℕ m v *ℤ pos n)
    accumulated =
        unfold first_sample in
        running-add_samples d exact bound v fits xs start 0 0 h (grind arith) (grind arith) refl
          (ap d.of_ℤ (ground arith))
        ∙ ap d.of_ℤ (sub_ℕ-eq _ _ _ _ (grind arith) ∙ sym (*ℤ-sub_ℕ m v n))

    total_small : n * m ≤ 2 ^ 53
    total_small = omega (arith, sum-le bound xs h)

    m_small : m ≤ 2 ^ 53
    m_small = grind (arith, total_small)

    v_small : v ≤ 2 ^ 53
    v_small = grind arith

    n_small : n ≤ 2 ^ 53
    n_small = grind arith

    scaled_small : IsSmall (sub_ℕ m v *ℤ pos n)
    scaled_small = rw (*ℤ-sub_ℕ m v n) (
        IsSmall-sub_ℕ (m * n) (v * n) (omega (arith, total_small))
          (omega (arith, mul_le_mul v bound n n fits (omega arith))))

    back : pos v +ℤ sub_ℕ m v ≡ pos m
    back = +ℤ-pos-sub_ℕ v m v ∙ ground arith

    average : mean d (add_samples d start xs) ≡ d.of_ℤ (pos m)
    average =
        rw
          (
            mean-parts d (add_samples d start xs) (v1-add_samples d start xs) accumulated count,
            exact.div_exact (sub_ℕ m v) n (omega arith) (IsSmall-sub_ℕ m v m_small v_small)
                (omega (arith, n_small)) scaled_small,
            first_sample,
            exact.add_exact (pos v) (sub_ℕ m v) (omega (arith, v_small))
                (IsSmall-sub_ℕ m v m_small v_small) (rw back (omega (arith, m_small))),
          )
          (ap d.of_ℤ back)
