-- ===== src/Message/Weights.antt =====
-- Lists of messages up to their order: two lists hold the same messages, each as often, where they have
-- the same weight under every weighing.
use metric_bench.Prelude.{ℕ, ◌+◌, ◌≡◌, List, [], ◌∷◌, ◌++◌, arith}
use metric_bench.Message.{Message}

-- The messages of a list, weighed: with the weight 1 at one message and 0 elsewhere it is counted.
abbrev pub weigh : (Message → ℕ) → List Message → ℕ
weigh w [] = 0
weigh w (m ∷ ms) = w m + weigh w ms

pub weigh-append :
    (w : Message → ℕ) (xs ys : List Message) → weigh w (xs ++ ys) ≡ weigh w xs + weigh w ys
weigh-append w [] ys = omega arith
weigh-append w (x ∷ xs) ys = omega (arith, weigh-append w xs ys)
