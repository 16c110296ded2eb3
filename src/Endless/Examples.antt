-- ===== src/Endless/Examples.antt =====
-- One worker and two messages.
use metric_bench.Prelude.{ℕ, ◌+◌, ◌≤◌, ◌≡◌, refl, true, List, [], ◌∷◌, arith, length}
use metric_bench.Message.{Message, MessageType}
use metric_bench.TsQueue
use metric_bench.TsQueue.{TsQueue}
use metric_bench.Endless.{System, pushes, pops, serves, start, Reach, here, next}
use metric_bench.Message.Weights.{weigh}
use metric_bench.Endless.Bounds.{hands, exited-served}
use metric_bench.Endless.Losses.{last_may_be_lost}

abbrev first : Message
first = record { op = MessageType.insert; ts = 1420070460; device_id = 1; table_id = 1 }

abbrev second : Message
second = record { op = MessageType.insert; ts = 1420070460; device_id = 1; table_id = 2 }

abbrev both : List Message
both = first ∷ second ∷ []

last_may_be_lost_example :
    (s : System) × Reach 1 0 (start (λ _. true) both) s
    × (s.exited ≡ true)
    × (s.served ≡ first ∷ [])
last_may_be_lost_example = last_may_be_lost 1 (first ∷ []) second (omega arith)

abbrev lossy :
    (s : System) × Reach 1 0 (start (λ _. true) both) s
    × (s.exited ≡ true)
    × (s.served ≡ first ∷ [])
lossy = last_may_be_lost 1 (first ∷ []) second (omega arith)

exited-served_example :
    ((w : Message → ℕ)
      → weigh w (lossy.0).served + weigh w (hands 1 (lossy.0).place) ≡ weigh w both)
    × (length (hands 1 (lossy.0).place) ≤ 1)
exited-served_example = exited-served (λ _. true) both lossy.0 lossy.1 lossy.2

-- A thread of CassandraDriver executes the first message.
one_served : (s : System) × Reach 1 1 (start (λ _. true) both) s × (s.served ≡ first ∷ [])
unfolding TsQueue.new TsQueue.push TsQueue.wait_and_pop
one_served = (
  _,
  next
      (next (next here (pushes first (second ∷ []) refl))
        (pops 0 first (record { items = [] }) (omega arith) refl refl refl))
      (serves 0 first (omega arith) refl refl),
  refl,
)
