-- ===== src/TsQueue.antt =====
-- src/tsqueue.hpp: the thread-safe queue. Each operation holds the mutex from its start to its end, but
-- for the waits, so it is one step; `none` means that the caller waits on a condition variable.
pub mod Laws
pub mod Examples
use metric_bench.Prelude.{
  ℕ, zero, suc, ◌%◌, ◌^◌, Bool, true, false, Option, none, some, List, [], ◌∷◌, ◌++◌, leb, length,
}

-- `data_queue`, front first.
pub record TsQueue {ℓ} (A : Type ℓ) : Type ℓ where
  pub items : List A

module _ {ℓ} {A : Type ℓ} where
  unfoldable pub new : TsQueue A
  new = record { items = [] }

  -- the copy constructor
  unfoldable pub copy : TsQueue A → TsQueue A
  copy other = record { items = other.items }

  unfoldable pub push : TsQueue A → A → TsQueue A
  push q new_value = record { items = q.items ++ new_value ∷ [] }

  abbrev front_and_rest : List A → Option (A × TsQueue A)
  front_and_rest [] = none
  front_and_rest (x ∷ xs) = some (x, record { items = xs })

  -- `wait_and_pop`, in both forms: it goes on once the queue is not empty.
  unfoldable pub wait_and_pop : TsQueue A → Option (A × TsQueue A)
  wait_and_pop q = front_and_rest q.items

  abbrev null_or_front : List A → Option A × TsQueue A
  null_or_front [] = (none, record { items = [] })
  null_or_front (x ∷ xs) = (some x, record { items = xs })

  -- `try_pop`, the form that returns a pointer
  unfoldable pub try_pop : TsQueue A → Option A × TsQueue A
  try_pop q = null_or_front q.items

  abbrev is_nil : List A → Bool
  is_nil [] = true
  is_nil (x ∷ xs) = false

  unfoldable pub empty : TsQueue A → Bool
  empty q = is_nil q.items

  -- `unsigned int size()`
  unfoldable pub size : TsQueue A → ℕ
  size q = length q.items % 2 ^ 32

  -- the condition under which `wait_empty` returns
  unfoldable pub wait_empty : TsQueue A → Bool
  wait_empty q = is_nil q.items

  -- the condition under which `wait_size` returns
  unfoldable pub wait_size : TsQueue A → ℕ → Bool
  wait_size q sz = leb (length q.items) sz
