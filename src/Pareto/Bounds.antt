-- ===== src/Pareto/Bounds.antt =====
-- The numbers that `GetNext` of src/pareto.hpp gives.
use metric_bench.Prelude.{
  ℕ, ◌^◌, ◌≤◌, ◌<◌, ◌≡◌, ap, true, false, some, none, arith, Bool-cases, inl, inr, sym,
  some-injective,
}
use metric_bench.Prelude.Double.{Double, IsSmall}
use metric_bench.Prelude.Int.{ℤ, pos, negsuc, ◌+ℤ◌, ◌-ℤ◌, ◌≤ℤ◌, int32, int_laws}
use metric_bench.Pareto.{ParetoGenerator, new, stretch, get_next, get_next_from}

module _ (d : Double) where
  -- Ranges of a `double` that is a number: 0 < x <= 1, x >= 1, x <= 0.
  abbrev pub IsShare : d.Carrier → Type 0
  IsShare x = (d.lt (d.of_ℤ (pos 0)) x ≡ true) × (d.lt (d.of_ℤ (pos 1)) x ≡ false)

  abbrev pub IsAtLeastOne : d.Carrier → Type 0
  IsAtLeastOne x = (d.lt (d.of_ℤ (pos 0)) x ≡ true) × (d.lt x (d.of_ℤ (pos 1)) ≡ false)

  abbrev pub IsNotPositive : d.Carrier → Type 0
  IsNotPositive x = (d.lt x (d.of_ℤ (pos 1)) ≡ true) × (d.lt (d.of_ℤ (pos 0)) x ≡ false)

  -- between 0 and s, both included
  abbrev pub IsWithin : (s t : ℤ) → Type 0
  IsWithin s t = (pos 0 ≤ℤ s → (pos 0 ≤ℤ t) × (t ≤ℤ s)) × (s ≤ℤ pos 0 → (s ≤ℤ t) × (t ≤ℤ pos 0))

  -- What the documents of `std::uniform_real_distribution`, of `std::pow` and of IEEE 754 say that is used
  -- here: for a draw u, 1 - u is above 0 and at most 1; -1 / (h - 1) is not positive where h is above 1; such
  -- a share to a power that is not positive is at least 1; and the whole part of a quotient by such a number
  -- lies between 0 and the dividend.
  pub record IsPowerLaw (IsDraw : d.Carrier → Type 0) : Type 0 where
    pub rest : (u : d.Carrier) → IsDraw u → IsShare (d.sub (d.of_ℤ (pos 1)) u)
    pub power :
        (h : d.Carrier)
        → d.lt (d.of_ℤ (pos 1)) h ≡ true
        → IsNotPositive (d.div (d.of_ℤ (negsuc 0)) (d.sub h (d.of_ℤ (pos 1))))
    pub pow_share : (x p : d.Carrier) → IsShare x → IsNotPositive p → IsAtLeastOne (d.pow x p)
    pub quotient :
        (s : ℤ) (y : d.Carrier)
        → IsSmall s
        → IsAtLeastOne y
        → IsWithin s (d.trunc (d.div (d.of_ℤ s) y))

  new-power :
      (h : d.Carrier) (g : ParetoGenerator d)
      → new d h ≡ some g
      → (d.lt (d.of_ℤ (pos 1)) h ≡ true)
        × (g.pareto_power ≡ d.div (d.of_ℤ (negsuc 0)) (d.sub h (d.of_ℤ (pos 1))))
  unfolding new
  new-power h g e = elim (Bool-cases (d.lt (d.of_ℤ (pos 1)) h)) [
    | inl above ↦ (
      above,
      sym (ap (λ (x : ParetoGenerator d). x.pareto_power) (some-injective (rw above at e))),
    )
    | inr below ↦ let nothing : none ≡ some g = rw below at e in cc
  ]

  module _ (IsDraw : d.Carrier → Type 0) (law : IsPowerLaw IsDraw) (h : d.Carrier)
      (g : ParetoGenerator d) (made : new d h ≡ some g) (u : d.Carrier) (drawn : IsDraw u) where
    stretch-IsAtLeastOne : IsAtLeastOne (stretch d g u)
    stretch-IsAtLeastOne =
        let (above, e) = new-power h g made in
        law.pow_share (d.sub (d.of_ℤ (pos 1)) u) g.pareto_power (law.rest u drawn)
          (rw e (law.power h above))

    -- Of a generator that is made with some h, for a draw of the distribution, and with `pow` and the
    -- division as documented: where b - a + 1 is at most 2 ^ 53 either way, as for every `int`, `GetNext(a, b)` of
    -- integers lies between a and b + 1, both included, whichever of them is less.
    pub get_next_bounds :
        (a b : ℤ)
        → IsSmall (b -ℤ a +ℤ pos 1)
        → (a ≤ℤ b +ℤ pos 1 → (a ≤ℤ get_next d g u a b) × (get_next d g u a b ≤ℤ b +ℤ pos 1))
          × (b +ℤ pos 1 ≤ℤ a → (b +ℤ pos 1 ≤ℤ get_next d g u a b) × (get_next d g u a b ≤ℤ a))
    unfolding get_next
    get_next_bounds a b small =
        let q = law.quotient (b -ℤ a +ℤ pos 1) (stretch d g u) small stretch-IsAtLeastOne in
        (
          λ up.
              let t = q.0 (omega int_laws) in
              (omega (int_laws, t.0, t.1), omega (int_laws, t.0, t.1)),
          λ down.
              let t = q.1 (omega int_laws) in
              (omega (int_laws, t.0, t.1), omega (int_laws, t.0, t.1)),
        )

    range-IsSmall : (n : ℕ) → n < 2 ^ 31 → IsSmall (pos 0 -ℤ pos n +ℤ pos 1)
    unfolding ◌-ℤ◌ ◌+ℤ◌
    range-IsSmall n h = ground arith

    int32_small : (n : ℕ) → n < 2 ^ 31 → int32 (pos n) ≡ pos n
    int32_small n h = ground arith

    -- `GetNext(n, 0)` lies between 1 and n, both included, where n is positive and below 2 ^ 31: a number of
    -- metrics, of devices or of a table is never 0, and never beyond the setting that it is drawn for.
    pub get_next_from_bounds :
        (n : ℕ)
        → 1 ≤ n
        → n < 2 ^ 31
        → (pos 1 ≤ℤ get_next_from d g u n) × (get_next_from d g u n ≤ℤ pos n)
    unfolding get_next_from
    get_next_from_bounds n positive bound =
        let t = (get_next_bounds (pos n) (pos 0) (range-IsSmall n bound)).1 (omega int_laws) in
        rw (int32_small n bound) (omega (int_laws, t.0), omega (int_laws, t.1))
