-- ===== src/Endless/Joins.antt =====
-- src/CassandraDriver.cpp: its threads are joined, and those that are connected never end.
use metric_bench.Prelude.{
  ℕ, ◌<◌, ◌≡◌, ◌≢◌, refl, Bool, true, false, List, update, ==_iff, ==_ne, ℕ_discrete,
}
use metric_bench.Message.{Message}
use metric_bench.Endless.{
  Place, waiting, serving, ended, System, Step, pushes, pops, serves, exits, start, Reach, here,
  next,
}

update_ne :
    (place : ℕ → Place) (i j : ℕ) (p : Place)
    → p ≢ ended
    → place j ≢ ended
    → update place i p j ≢ ended
update_ne place i j p h k = elim (ℕ_discrete i j) [
  | yes same ↦ rw ((==_iff i j).1 same) h
  | no differ ↦ rw (==_ne differ) k
]

-- Worker i is in its loop, and the process goes on.
abbrev Goes : ℕ → System → Type 0
Goes i s = (s.place i ≢ ended) × (s.exited ≡ false)

Step-Goes : {n joined i : ℕ} {s t : System} → i < joined → Step n joined s t → Goes i s → Goes i t
Step-Goes lt (pushes m rest e) (loops, running) = (loops, running)
Step-Goes {i} {s} lt (pops j m q k r e f) (loops, running) =
    (update_ne s.place j i (serving m) (λ x. cc) loops, running)
Step-Goes {i} {s} lt (serves j m k r e) (loops, running) =
    (update_ne s.place j i waiting (λ x. cc) loops, running)
Step-Goes {i} lt (exits none_left e ends) (loops, running) = absurd (loops (ends i lt))

-- Once one of the joined threads is connected, `JoinThreads` never returns, and the process never
-- ends, whatever is pushed and however the threads interleave.
pub joined-exited :
    {n joined : ℕ} (connects : ℕ → Bool) (messages : List Message) (i : ℕ) (s : System)
    → i < joined
    → connects i ≡ true
    → Reach n joined (start connects messages) s
    → (s.place i ≢ ended) × (s.exited ≡ false)
joined-exited connects messages i s lt c here = (rw c (λ e. cc), refl)
joined-exited connects messages i s lt c (next {t} r st) =
    Step-Goes lt st (joined-exited connects messages i t lt c r)
