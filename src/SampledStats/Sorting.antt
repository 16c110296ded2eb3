-- ===== src/SampledStats/Sorting.antt =====
-- `std::sort` of src/SampledStats.cpp: an ascending rearrangement of the same samples.
use mathlib.Core.List.{Perm}
use mathlib.Core.List.Perm
use metric_bench.Prelude.{
  ℕ, zero, suc, ◌+◌, ◌-◌, ◌≤◌, ◌<◌, ◌≡◌, refl, ap, sym, subst, ◌∙◌, some, Bool-cases, inl, inr,
  List, [], ◌∷◌, ◌++◌, arith, length, take, drop, get_elem?, length-append, length-take,
  length-drop, get_elem?-append_left, get_elem?-append_right, take-append-drop, drop-drop,
  some-injective,
}
use metric_bench.Prelude.Int.{ℤ, ◌≤ℤ◌, leb_ℤ}
use metric_bench.SampledStats.Output.{insert_sorted, sort, sort_range}

abbrev pub IsBelow : ℤ → List ℤ → Type 0
IsBelow a [] = Unit {0}
IsBelow a (x ∷ xs) = (a ≤ℤ x) × IsBelow a xs

abbrev pub IsSorted : List ℤ → Type 0
IsSorted [] = Unit {0}
IsSorted (x ∷ xs) = IsBelow x xs × IsSorted xs

IsBelow-trans : (a b : ℤ) (xs : List ℤ) → a ≤ℤ b → IsBelow b xs → IsBelow a xs
IsBelow-trans a b [] h k = tt
IsBelow-trans a b (x ∷ xs) h k = (omega arith, IsBelow-trans a b xs h k.1)

insert_sorted-IsBelow :
    (a x : ℤ) (xs : List ℤ) → a ≤ℤ x → IsBelow a xs → IsBelow a (insert_sorted x xs)
unfolding insert_sorted
insert_sorted-IsBelow a x [] h k = (h, tt)
insert_sorted-IsBelow a x (y ∷ ys) h k = elim (Bool-cases (leb_ℤ x y)) [
  | inl e ↦ rw e (h, k)
  | inr e ↦ rw e (k.0, insert_sorted-IsBelow a x ys h k.1)
]

insert_sorted-IsSorted : (x : ℤ) (xs : List ℤ) → IsSorted xs → IsSorted (insert_sorted x xs)
unfolding insert_sorted
insert_sorted-IsSorted x [] h = (tt, tt)
insert_sorted-IsSorted x (y ∷ ys) h = elim (Bool-cases (leb_ℤ x y)) [
  | inl e ↦ let le : x ≤ℤ y = ground arith in rw e ((le, IsBelow-trans x y ys le h.0), h)
  | inr e ↦
      let le : y ≤ℤ x = ground arith in
      rw e (insert_sorted-IsBelow y x ys le h.0, insert_sorted-IsSorted x ys h.1)
]

pub sort-IsSorted : (xs : List ℤ) → IsSorted (sort xs)
unfolding sort
sort-IsSorted [] = tt
sort-IsSorted (x ∷ xs) = insert_sorted-IsSorted x (sort xs) (sort-IsSorted xs)

insert_sorted-Perm : (x : ℤ) (xs : List ℤ) → Perm (insert_sorted x xs) (x ∷ xs)
unfolding insert_sorted
insert_sorted-Perm x [] = Perm.rfl
insert_sorted-Perm x (y ∷ ys) = elim (Bool-cases (leb_ℤ x y)) [
  | inl e ↦ rw e Perm.rfl
  | inr e ↦ rw e (Perm.trans (Perm.cons y (insert_sorted-Perm x ys)) (Perm.swap x y ys))
]

pub sort-Perm : (xs : List ℤ) → Perm (sort xs) xs
unfolding sort
sort-Perm [] = Perm.rfl
sort-Perm (x ∷ xs) = Perm.trans (insert_sorted-Perm x (sort xs)) (Perm.cons x (sort-Perm xs))

length-insert_sorted : (x : ℤ) (xs : List ℤ) → length (insert_sorted x xs) ≡ suc (length xs)
unfolding insert_sorted
length-insert_sorted x [] = refl
length-insert_sorted x (y ∷ ys) = elim (Bool-cases (leb_ℤ x y)) [
  | inl e ↦ rw e refl
  | inr e ↦ rw e (ap suc (length-insert_sorted x ys))
]

pub length-sort : (xs : List ℤ) → length (sort xs) ≡ length xs
unfolding sort
length-sort [] = refl
length-sort (x ∷ xs) = length-insert_sorted x (sort xs) ∙ ap suc (length-sort xs)

IsBelow-get_elem? :
    (a b : ℤ) (xs : List ℤ) (j : ℕ) → IsBelow a xs → get_elem? xs j ≡ some b → a ≤ℤ b
IsBelow-get_elem? a b [] j h e = cc
IsBelow-get_elem? a b (x ∷ xs) zero h e = subst (λ y. a ≤ℤ y) (some-injective e) h.0
IsBelow-get_elem? a b (x ∷ xs) (suc j) h e = IsBelow-get_elem? a b xs j h.1 e

pub get_elem?_mono :
    (xs : List ℤ) (i j : ℕ) (a b : ℤ)
    → IsSorted xs
    → i ≤ j
    → get_elem? xs i ≡ some a
    → get_elem? xs j ≡ some b
    → a ≤ℤ b
get_elem?_mono [] i j a b h le e f = cc
get_elem?_mono (x ∷ xs) zero zero a b h le e f =
    let same : a ≡ b = cc in subst (λ y. a ≤ℤ y) same (omega arith)
get_elem?_mono (x ∷ xs) zero (suc j) a b h le e f =
    subst (λ y. y ≤ℤ b) (some-injective e) (IsBelow-get_elem? x b xs j h.0 f)
get_elem?_mono (x ∷ xs) (suc i) zero a b h le e f = absurd (omega arith)
get_elem?_mono (x ∷ xs) (suc i) (suc j) a b h le e f =
    get_elem?_mono xs i j a b h.1 (omega arith) e f

module _ (start end : ℕ) (row : List ℤ) where
  abbrev middle : List ℤ
  middle = sort (take (end - start) (drop start row))

  pub length-sort_range : start ≤ end → length (sort_range start end row) ≡ length row
  unfolding sort_range
  length-sort_range h = omega (
    arith,
    length-append (take start row) (middle ++ drop end row),
    length-append middle (drop end row),
    length-sort (take (end - start) (drop start row)),
    length-take start row,
    length-take (end - start) (drop start row),
    length-drop start row,
    length-drop end row,
  )

  pub sort_range-Perm : start ≤ end → Perm (sort_range start end row) row
  unfolding sort_range
  sort_range-Perm h =
      let later : drop end row ≡ drop (end - start) (drop start row) =
        ap (λ n. drop n row) (omega arith) ∙ sym (drop-drop start (end - start) row) in
      let whole : take start row ++ (take (end - start) (drop start row) ++ drop end row) ≡ row =
        rw (later, take-append-drop (end - start) (drop start row), take-append-drop start row) in
      subst (λ r. Perm (take start row ++ (middle ++ drop end row)) r) whole
        (Perm.append_left (take start row)
          (Perm.append_right (drop end row) (sort-Perm (take (end - start) (drop start row)))))

  -- the element at an index within the sorted part
  get_elem?-sort_range :
      (k : ℕ)
      → start + k < end
      → end ≤ length row
      → get_elem? (sort_range start end row) (start + k) ≡ get_elem? middle k
  unfolding sort_range
  get_elem?-sort_range k h le =
      get_elem?-append_right (take start row) (middle ++ drop end row) k (start + k)
        (omega (arith, length-take start row))
      ∙ get_elem?-append_left middle (drop end row) k (
          omega (
            arith,
            length-sort (take (end - start) (drop start row)),
            length-take (end - start) (drop start row),
            length-drop start row,
          ))

  -- Within the sorted part the elements ascend.
  pub sort_range_mono :
      (i j : ℕ) (a b : ℤ)
      → end ≤ length row
      → start ≤ i
      → i ≤ j
      → j < end
      → get_elem? (sort_range start end row) i ≡ some a
      → get_elem? (sort_range start end row) j ≡ some b
      → a ≤ℤ b
  sort_range_mono i j a b le h k l e f =
      get_elem?_mono middle (i - start) (j - start) a b
        (sort-IsSorted (take (end - start) (drop start row))) (omega arith)
        (at i a h (omega arith) e) (at j b (omega arith) l f)
    where
      at :
          (m : ℕ) (c : ℤ)
          → start ≤ m
          → m < end
          → get_elem? (sort_range start end row) m ≡ some c
          → get_elem? middle (m - start) ≡ some c
      at m c p q g =
          sym (get_elem?-sort_range (m - start) (omega arith) le)
          ∙ ap (get_elem? (sort_range start end row)) (omega arith)
          ∙ g
