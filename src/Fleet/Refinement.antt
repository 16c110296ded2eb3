-- ===== src/Fleet/Refinement.antt =====
-- The threads with their queries and statistics do to the queue what those of Workers do.
use mathlib.Core.List.{append-nil}
use mathlib.Core.Path.{path_j}
use metric_bench.Prelude.{ℕ, ◌<◌, ◌≡◌, subst, Option, List, ◌++◌, update}
use metric_bench.Prelude.Double.{Double}
use metric_bench.Prelude.Int.{ℤ}
use metric_bench.Message.{Message}
use metric_bench.TsQueue.{TsQueue}
use metric_bench.LatencyStats.State.{LatencyStats}
use metric_bench.SampledStats.State.{SampledStats}
use metric_bench.Workers
use metric_bench.Workers.{Pc, Move, handles, System}
use metric_bench.Fleet.{
  Env, Fleet, Step, pushes, finishes, works, serves, crashes, faults_in_query, faults_in_display,
  exits, faults_at_end, reports, init, Reach, here, next,
}

-- A move of the worker at a place that is known.
works_at :
    {n : ℕ} (s : System) (i : ℕ) {p p' : Pc} {q : TsQueue Message}
    → i < n
    → s.pc i ≡ p
    → (mv : Move s.complete s.queue p q p')
    → Workers.Step n s
        (record s { queue = q; pc = update s.pc i p'; popped = s.popped ++ Workers.log mv })
works_at {n} s i {p'} {q} lt e =
    path_j
      (λ p _.
        (mv : Move s.complete s.queue p q p')
        → Workers.Step n s
            (record s { queue = q; pc = update s.pc i p'; popped = s.popped ++ Workers.log mv }))
      (λ mv. Workers.works i lt mv) e

module _ (d : Double) where
  -- What of the state the messages' order depends on.
  abbrev pub system_of : Fleet d → System
  system_of s = record {
    queue = s.queue;
    complete = s.complete;
    todo = s.todo;
    pc = s.pc;
    popped = s.popped;
  }

  served-Step :
      {n : ℕ} (s : System) (i : ℕ) (m : Message)
      → i < n
      → s.pc i ≡ Pc.handling m
      → Workers.Step n s (record s { pc = update s.pc i Pc.test_flag })
  served-Step {n} s i m lt e =
      subst
        (λ popped. Workers.Step n s (record s { pc = update s.pc i Pc.test_flag; popped = popped }))
        (append-nil s.popped) (works_at s i lt e handles)

  -- Each step is one of Workers, or leaves that part of the state as it is.
  Step-system_of :
      {e : Env} {n : ℕ} {s t : Fleet d} {r : System}
      → Step d e n s t
      → Workers.Reach n r (system_of s)
      → Workers.Reach n r (system_of t)
  Step-system_of (pushes m rest run e) h = Workers.next h (Workers.pushes m rest e)
  Step-system_of (finishes run e) h = Workers.next h (Workers.finishes e)
  Step-system_of (works i run lt quiet mv) h = Workers.next h (Workers.works i lt mv)
  Step-system_of {s} (serves i m x s' stats time lines run lt e f g) h =
      Workers.next h (served-Step (system_of s) i m lt e)
  Step-system_of (crashes i m x s' run lt e f) h = h
  Step-system_of (faults_in_query i m x run lt e f) h = h
  Step-system_of (faults_in_display i m x s' lines run lt e f g) h = h
  Step-system_of (exits i t stats lines run lt e f g) h = h
  Step-system_of (faults_at_end i t lines run lt e f g) h = h
  Step-system_of (reports m q run e) h = h

  -- Whatever the threads' queries do and whenever they show statistics, the queue, the flag, the places
  -- and the popped messages are a state that Workers reaches from the same messages.
  pub system_of-Reach :
      (e : Env) (n : ℕ) (messages : List Message) (latency_stats : Option (LatencyStats d))
      (stats : ℕ → SampledStats) (start_time : ℤ) (s : Fleet d)
      → Reach d e n (init d messages latency_stats stats start_time) s
      → Workers.Reach n (Workers.init messages) (system_of s)
  system_of-Reach e n messages latency_stats stats start_time s here = Workers.here
  system_of-Reach e n messages latency_stats stats start_time s (next r st) =
      Step-system_of st (system_of-Reach e n messages latency_stats stats start_time _ r)
