-- ===== src/Schema/Scripts.antt =====
-- Calls to a database that follow one another until one of them throws.
use mathlib.Core.List.{append-nil, append_assoc}
use metric_bench.Prelude.{
  ℕ, suc, ◌≡◌, refl, sym, ◌∙◌, ap, Bool, true, ◌&&◌, Bool-cases, inl, inr, List, [], ◌∷◌, ◌++◌,
  if◌then◌else◌, length, length-append, arith,
}
use metric_bench.MySqlDriver.Queries.{Ending, returned, threw}

-- What has been called so far goes in, and how it ends and what has been called then comes out. `answers`
-- tells of each call, counted from 0, whether it succeeds.
abbrev pub Script {ℓ} : Type ℓ → Type ℓ
Script A = (answers : ℕ → Bool) → (issued : List A) → Ending × List A

-- how calls end, given whether all of them succeed
abbrev pub end_of : Bool → Ending
end_of all = if all then returned else threw

module _ {ℓ} {A : Type ℓ} where
  abbrev continue : Ending × List A → (List A → Ending × List A) → Ending × List A
  continue (returned, issued) k = k issued
  continue (threw, issued) k = (threw, issued)

  infixl 5 ◌>>◌
  abbrev pub ◌>>◌ : Script A → Script A → Script A
  ◌>>◌ m k answers issued = continue (m answers issued) (k answers)

  abbrev pub pass : Script A
  pass answers issued = (returned, issued)

  unfoldable pub execute : A → Script A
  execute call answers issued =
      (if answers (length issued) then returned else threw, issued ++ call ∷ [])

  -- the calls of a list, in their order
  abbrev pub run_list : List A → Script A
  run_list [] = pass
  run_list (x ∷ xs) = execute x >> run_list xs

  -- A script that makes the calls of a list.
  pub record Performs (m : Script A) (xs : List A) : Type ℓ where
    pub runs :
        (answers : ℕ → Bool) (issued : List A) → m answers issued ≡ run_list xs answers issued

  run_list-append :
      (xs ys : List A) (answers : ℕ → Bool) (issued : List A)
      → run_list (xs ++ ys) answers issued
        ≡ continue (run_list xs answers issued) (run_list ys answers)
  unfolding execute
  run_list-append [] ys answers issued = refl
  run_list-append (x ∷ xs) ys answers issued = elim (Bool-cases (answers (length issued))) [
    | inl good ↦ rw good (run_list-append xs ys answers (issued ++ x ∷ []))
    | inr bad ↦ rw bad refl
  ]

  pub Performs-pass : Performs pass []
  Performs-pass = record { runs = λ answers issued. refl }

  pub Performs-execute : (x : A) → Performs (execute x) (x ∷ [])
  unfolding execute
  Performs-execute x = record {
    runs = λ answers issued. elim (Bool-cases (answers (length issued))) [
      | inl good ↦ rw good refl
      | inr bad ↦ rw bad refl
    ];
  }

  continue-Performs :
      (k : Script A) (ys : List A) (answers : ℕ → Bool) (done : Ending × List A)
      → Performs k ys
      → continue done (k answers) ≡ continue done (run_list ys answers)
  continue-Performs k ys answers (returned, issued) h = h.runs answers issued
  continue-Performs k ys answers (threw, issued) h = refl

  pub Performs->> :
      {m k : Script A} {xs ys : List A}
      → Performs m xs
      → Performs k ys
      → Performs (m >> k) (xs ++ ys)
  Performs->> {k} {xs} {ys} p q = record {
    runs = λ answers issued.
        ap (λ done. continue done (k answers)) (p.runs answers issued)
        ∙ continue-Performs k ys answers (run_list xs answers issued) q
        ∙ sym (run_list-append xs ys answers issued);
  }

  -- whether all calls succeed, the first of them being the n-th
  abbrev pub none_fails : (answers : ℕ → Bool) → (n : ℕ) → List A → Bool
  none_fails answers n [] = true
  none_fails answers n (x ∷ xs) = answers n && none_fails answers (suc n) xs

  -- the calls up to the first that fails, that one included
  abbrev pub until_failure : (answers : ℕ → Bool) → (n : ℕ) → List A → List A
  until_failure answers n [] = []
  until_failure answers n (x ∷ xs) =
      x ∷ (if answers n then until_failure answers (suc n) xs else [])

  pub run_list-until_failure :
      (xs : List A) (answers : ℕ → Bool) (issued : List A)
      → run_list xs answers issued ≡ (
        end_of (none_fails answers (length issued) xs),
        issued ++ until_failure answers (length issued) xs,
      )
  unfolding execute
  run_list-until_failure [] answers issued = ap (λ l. (returned, l)) (sym (append-nil issued))
  run_list-until_failure (x ∷ xs) answers issued = elim (Bool-cases (answers (length issued))) [
    | inl good ↦
        let e : length (issued ++ x ∷ []) ≡ suc (length issued) =
          omega (arith, length-append issued (x ∷ [])) in
        rw good (
          rw (e, append_assoc issued (x ∷ []) (until_failure answers (suc (length issued)) xs)) at
            (run_list-until_failure xs answers (issued ++ x ∷ [])))
    | inr bad ↦ rw bad refl
  ]
