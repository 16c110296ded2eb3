-- ===== src/TsQueue/Laws.antt =====
-- The queue is first in, first out.
use mathlib.Core.List.{append-nil, append_assoc}
use metric_bench.Prelude.{
  ℕ, zero, suc, ◌+◌, ◌≡◌, ◌≢◌, ◌↔◌, true, refl, ap, sym, ◌∙◌, Option, some, List, [], ◌∷◌, ◌++◌,
  arith, length, length-append, ◌>>=◌,
}
use metric_bench.TsQueue.{
  TsQueue, new, push, wait_and_pop, empty, wait_empty, front_and_rest, is_nil,
}

module _ {ℓ} {A : Type ℓ} where
  front_and_rest-cons :
      (xs : List A) (x : A) (q : TsQueue A) → front_and_rest xs ≡ some (x, q) → xs ≡ x ∷ q.items
  front_and_rest-cons [] x q e = cc
  front_and_rest-cons (y ∷ ys) x q e = ground arith

  -- A pop that does not wait takes the front.
  pub wait_and_pop-cons :
      (q q' : TsQueue A) (x : A) → wait_and_pop q ≡ some (x, q') → q.items ≡ x ∷ q'.items
  unfolding wait_and_pop
  wait_and_pop-cons q q' x e = front_and_rest-cons q.items x q' e

  front_and_rest-front :
      (xs : List A) → xs ≢ [] → (x : A) × (q : TsQueue A) × (front_and_rest xs ≡ some (x, q))
  front_and_rest-front [] h = absurd (h refl)
  front_and_rest-front (x ∷ xs) h = (x, record { items = xs }, refl)

  -- A pop waits on the empty queue only.
  pub wait_and_pop-front :
      (q : TsQueue A) → q.items ≢ [] → (x : A) × (q' : TsQueue A) × (wait_and_pop q ≡ some (x, q'))
  unfolding wait_and_pop
  wait_and_pop-front q h = front_and_rest-front q.items h

  is_nil_iff : (xs : List A) → (is_nil xs ≡ true) ↔ (xs ≡ [])
  is_nil_iff [] = (λ _. refl, λ _. refl)
  is_nil_iff (x ∷ xs) = (λ e. cc, λ e. cc)

  pub empty_iff : (q : TsQueue A) → (empty q ≡ true) ↔ (q.items ≡ [])
  unfolding empty
  empty_iff q = is_nil_iff q.items

  pub wait_empty-nil : (q : TsQueue A) → wait_empty q ≡ true → q.items ≡ []
  unfolding wait_empty
  wait_empty-nil q h = (is_nil_iff q.items).0 h

  -- pushes in the order of the list
  unfoldable pub push_all : TsQueue A → List A → TsQueue A
  push_all q [] = q
  push_all q (x ∷ xs) = push_all (push q x) xs

  -- as many calls of `wait_and_pop`; `none` if one of them waits
  unfoldable pub pop_all : ℕ → TsQueue A → Option (List A × TsQueue A)
  pop_all zero q = some ([], q)
  pop_all (suc n) q = wait_and_pop q >>= λ r. pop_all n r.1 >>= λ t. some (r.0 ∷ t.0, t.1)

  items-push_all : (q : TsQueue A) (xs : List A) → (push_all q xs).items ≡ q.items ++ xs
  unfolding push_all push
  items-push_all q [] = sym (append-nil q.items)
  items-push_all q (x ∷ xs) = items-push_all (push q x) xs ∙ append_assoc q.items (x ∷ []) xs

  pop_all-items :
      (q : TsQueue A) (xs : List A) → q.items ≡ xs → pop_all (length xs) q ≡ some (xs, new)
  unfolding pop_all wait_and_pop new
  pop_all-items q [] e = ap (λ l. some ([], record { items = l })) e
  pop_all-items q (x ∷ xs) e = rw (e, wait_and_pop, pop_all-items (record { items = xs }) xs refl)

-- After any pushes, popping as many messages as the queue then holds never waits, gives the ones that were
-- there and then the pushed ones, all in their order, and leaves the queue empty.
pub pop_all-push_all {ℓ} :
    {A : Type ℓ} (q : TsQueue A) (xs : List A)
    → pop_all (length q.items + length xs) (push_all q xs) ≡ some (q.items ++ xs, new)
pop_all-push_all q xs =
    rw (← length-append q.items xs)
      (pop_all-items (push_all q xs) (q.items ++ xs) (items-push_all q xs))
