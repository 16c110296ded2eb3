-- ===== src/Fleet/SelectExamples.antt =====
-- The thread of `SelectData` on two rounds, the second of which fails.
use metric_bench.Prelude.{◌≡◌, ◌++◌, refl, false, some, List, [], ◌∷◌, arith}
use metric_bench.Prelude.Double.{integers}
use metric_bench.Prelude.Int.{pos}
use metric_bench.Config.{default}
use metric_bench.Message.{MessageType}
use metric_bench.MySqlDriver.Queries.{Session, succeeded, failed}
use metric_bench.MySqlDriver.QueryExamples.{streaming, draw}
use metric_bench.Pareto.Examples.{IsZero, integers-IsPowerLaw, made}
use metric_bench.Fleet.{Env, run_stats}
use metric_bench.Fleet.Selecting.{Round, Selected, select_data}
use metric_bench.Fleet.Selected.{sent_by, end_of_rounds, AreSelects, select_data-Selected}

abbrev no_stream : Env
no_stream = record { ostream_set = false; display_freq = pos 10; show_stats = run_stats }

abbrev quiet_session : Session integers
quiet_session = record streaming { ostream_set = false }

abbrev first : Round integers
first = record {
  device_draw = pos 0;
  table_draw = pos 0;
  type = MessageType.select_k2;
  metric_draw = pos 480;
  outcome = succeeded 700;
  draw = draw;
  end_time = pos 900;
}

abbrev rounds : List (Round integers)
rounds = first ∷ record first { type = MessageType.select_k1; outcome = failed 3 } ∷ first ∷ []

select_data-Selected_example :
    (r : Selected integers) × (select_data integers no_stream default made.0
        (pos 2000)
        rounds
        quiet_session
        (pos 0)
      ≡ some r)
    × (r.ending ≡ end_of_rounds integers rounds)
    × (r.session.stat_queue.items ≡ quiet_session.stat_queue.items ++ sent_by integers rounds)
    × AreSelects integers default rounds r.texts
    × (r.shown ≡ [])
select_data-Selected_example =
    select_data-Selected integers IsZero integers-IsPowerLaw (pos 2) made.0 made.1 default no_stream
      (omega arith, omega arith) (omega arith, omega arith) (pos 2000) rounds quiet_session (pos 0)
      refl refl (refl, refl, (refl, refl, (refl, refl, tt)))
