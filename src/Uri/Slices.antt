-- ===== src/Uri/Slices.antt =====
-- Where `std::find` stops, and what a range of iterators holds, in a string given by its parts.
use metric_bench.Prelude.{
  ℕ, zero, suc, ◌+◌, ◌-◌, ◌≡◌, ◌≢◌, refl, ap, ◌∙◌, some, [], ◌∷◌, ◌++◌, arith, length, take, drop,
  length-append, leb-true, ==_ne, ==_iff,
}
use metric_bench.Uri.{Bytes, find_index, find, slice}

-- no byte is c
abbrev pub Lacks : ℕ → Bytes → Type 0
Lacks c [] = Unit {0}
Lacks c (x ∷ xs) = (x ≢ c) × Lacks c xs

-- empty, or a c comes first
abbrev pub Starts : ℕ → Bytes → Type 0
Starts c [] = Unit {0}
Starts c (x ∷ xs) = x ≡ c

pub Lacks-append : (c : ℕ) (xs ys : Bytes) → Lacks c xs → Lacks c ys → Lacks c (xs ++ ys)
Lacks-append c [] ys h k = k
Lacks-append c (x ∷ xs) ys h k = (h.0, Lacks-append c xs ys h.1 k)

pub drop-append : (xs ys : Bytes) (n : ℕ) → n ≡ length xs → drop n (xs ++ ys) ≡ ys
drop-append [] ys zero e = refl
drop-append [] ys (suc n) e = absurd (omega arith)
drop-append (x ∷ xs) ys zero e = absurd (omega arith)
drop-append (x ∷ xs) ys (suc n) e = drop-append xs ys n (omega arith)

pub take-append : (xs ys : Bytes) (n : ℕ) → n ≡ length xs → take n (xs ++ ys) ≡ xs
take-append [] ys zero e = refl
take-append [] ys (suc n) e = absurd (omega arith)
take-append (x ∷ xs) ys zero e = absurd (omega arith)
take-append (x ∷ xs) ys (suc n) e = ap (◌∷◌ x) (take-append xs ys n (omega arith))

pub find_index-append :
    (c : ℕ) (xs ys : Bytes) → Lacks c xs → Starts c ys → find_index c (xs ++ ys) ≡ length xs
find_index-append c [] [] h k = refl
find_index-append c [] (y ∷ ys) h k = rw ((==_iff y c).1 k) refl
find_index-append c (x ∷ xs) ys h k = rw (==_ne h.0) (ap suc (find_index-append c xs ys h.1 k))

-- the string is `before`, then `within` and `rest`, then `after`
module _ (s before within rest after : Bytes)
    (parts : s ≡ before ++ ((within ++ rest) ++ after)) where
  pub range :
      (from to : ℕ)
      → from ≡ length before
      → to ≡ length before + length within + length rest
      → take (to - from) (drop from s) ≡ within ++ rest
  range from to e f =
      ap (λ t. take (to - from) (drop from t)) parts
      ∙ ap (take (to - from)) (drop-append before ((within ++ rest) ++ after) from e)
      ∙ take-append (within ++ rest) after (to - from) (omega (arith, length-append within rest))

  pub find-parts :
      (from to c : ℕ)
      → from ≡ length before
      → to ≡ length before + length within + length rest
      → Lacks c within
      → Starts c rest
      → find s from to c ≡ some (length before + length within)
  unfolding find
  find-parts from to c e f h k =
      rw (leb-true from to (omega arith), range from to e f, find_index-append c within rest h k)
        (ap some (omega arith))

module _ (s before within after : Bytes) (parts : s ≡ before ++ (within ++ after)) where
  pub slice-parts :
      (from to : ℕ)
      → from ≡ length before
      → to ≡ length before + length within
      → slice s from to ≡ some within
  unfolding slice
  slice-parts from to e f = rw (leb-true from to (omega arith)) (
      ap some (
        ap (λ t. take (to - from) (drop from t)) parts
        ∙ ap (take (to - from)) (drop-append before (within ++ after) from e)
        ∙ take-append within after (to - from) (omega arith)))
