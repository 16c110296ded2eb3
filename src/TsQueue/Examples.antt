-- ===== src/TsQueue/Examples.antt =====
-- The queue of src/tsqueue.hpp on concrete contents.
use metric_bench.Prelude.{ℕ, ◌≡◌, refl, false, none, [], ◌∷◌}
use metric_bench.TsQueue.{TsQueue, new, push, try_pop, wait_size, size}

abbrev two_items : TsQueue ℕ
two_items = record { items = 7 ∷ 8 ∷ [] }

-- `try_pop` does not wait.
try_pop-new : try_pop (new {A = ℕ}) ≡ (none, new)
unfolding try_pop new
try_pop-new = refl

wait_size_full : wait_size (push two_items 9) 2 ≡ false
unfolding wait_size push
wait_size_full = refl

size_two : size two_items ≡ 2
unfolding size
size_two = refl
