-- ===== src/Fleet/Safety.antt =====
-- No array is read or written past its end while the threads of `Prep` work.
use metric_bench.Prelude.{ℕ, ◌≢◌, Option, List}
use metric_bench.Prelude.Double.{Double}
use metric_bench.Prelude.Int.{ℤ}
use metric_bench.Message.{Message}
use metric_bench.LatencyStats.State.{LatencyStats}
use metric_bench.SampledStats.State.{SampledStats}
use metric_bench.SampledStats.Reporting.{AllBelow}
use metric_bench.MySqlDriver.Queries.{returned, threw}
use metric_bench.Fleet.{
  Env, faulted, Fleet, session, Step, pushes, finishes, works, serves, crashes, faults_in_query,
  faults_in_display, exits, faults_at_end, reports, init, Reach, here, next,
}
use metric_bench.Fleet.Ready.{
  update-HasRoom, HasRoom, HasThreads, IsRoomy, execute-ne-none, execute-IsRoomy,
  display_if_due-some, display_at_end-some, display_if_due-HasRoom, display_at_end-HasRoom,
}

module _ (d : Double) (e : Env) (n : ℕ) (below : AllBelow e.show_stats) where
  record Inv (s : Fleet d) : Type 0 where
    threads : HasThreads d n s.latency_stats
    rooms : (i : ℕ) → HasRoom (s.stats i)
    no_fault : s.status ≢ faulted

  roomy : {s : Fleet d} (i : ℕ) → Inv s → IsRoomy d n (session d e s i)
  roomy i v = record { threads = v.threads; stats = v.rooms i }

  Step-Inv : {s t : Fleet d} → Step d e n s t → Inv s → Inv t
  Step-Inv (pushes m rest run h) v = record {
    threads = v.threads;
    rooms = v.rooms;
    no_fault = v.no_fault;
  }
  Step-Inv (finishes run h) v = record {
    threads = v.threads;
    rooms = v.rooms;
    no_fault = v.no_fault;
  }
  Step-Inv (works i run lt quiet mv) v = record {
    threads = v.threads;
    rooms = v.rooms;
    no_fault = v.no_fault;
  }
  Step-Inv {s} (serves i m x s' stats time lines run lt h f g) v =
      let after = execute-IsRoomy d n i (session d e s i) s' m.op x returned lt (roomy i v) f in
      record {
        threads = after.threads;
        rooms =
            update-HasRoom s.stats i stats v.rooms
              (display_if_due-HasRoom d e below s'.stats after.stats (s.last_time i) x.end_time g);
        no_fault = v.no_fault;
      }
  Step-Inv {s} (crashes i m x s' run lt h f) v =
      let after = execute-IsRoomy d n i (session d e s i) s' m.op x threw lt (roomy i v) f in
      record {
        threads = v.threads;
        rooms = update-HasRoom s.stats i s'.stats v.rooms after.stats;
        no_fault = λ q. cc;
      }
  Step-Inv {s} (faults_in_query i m x run lt h f) v =
      absurd (execute-ne-none d n i (session d e s i) m.op x lt (roomy i v) f)
  Step-Inv {s} (faults_in_display i m x s' lines run lt h f g) v =
      let after = execute-IsRoomy d n i (session d e s i) s' m.op x returned lt (roomy i v) f in
      let (stats, time, lines, k, r) =
        display_if_due-some d e below s'.stats after.stats (s.last_time i) x.end_time in
      cc
  Step-Inv {s} (exits i end stats lines run lt h f g) v = record {
    threads = v.threads;
    rooms =
        update-HasRoom s.stats i stats v.rooms
          (display_at_end-HasRoom d e below (s.stats i) (v.rooms i) (s.last_time i) end g);
    no_fault = v.no_fault;
  }
  Step-Inv {s} (faults_at_end i end lines run lt h f g) v =
      let (stats, lines, k, r) =
        display_at_end-some d e below (s.stats i) (v.rooms i) (s.last_time i) end in
      cc
  Step-Inv (reports m q run h) v = record {
    threads = v.threads;
    rooms = v.rooms;
    no_fault = v.no_fault;
  }

  Reach-Inv : {r s : Fleet d} → Inv r → Reach d e n r s → Inv s
  Reach-Inv v here = v
  Reach-Inv v (next r st) = Step-Inv st (Reach-Inv v r)

  -- Where the shown types are below `MAX_OPTYPES`, `latencyStats`, if there is one, has a row for each of
  -- the n threads, and each thread's statistics have room for a sample: however the threads interleave
  -- and whatever the database answers, no query and no display reads or writes past the end of an array.
  pub never_faults :
      (messages : List Message) (latency_stats : Option (LatencyStats d)) (stats : ℕ → SampledStats)
      (start_time : ℤ) (s : Fleet d)
      → HasThreads d n latency_stats
      → ((i : ℕ) → HasRoom (stats i))
      → Reach d e n (init d messages latency_stats stats start_time) s
      → s.status ≢ faulted
  never_faults messages latency_stats stats start_time s threads rooms r =
      (Reach-Inv (record { threads = threads; rooms = rooms; no_fault = λ q. cc }) r).no_fault
