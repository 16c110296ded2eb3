-- ===== src/Fleet/Selecting.antt =====
-- src/MySQLDriver.cpp: `SelectData`, the thread of a run that selects until `processingComplete` is set. A
-- round is what happens between two tests of that flag.
use metric_bench.Prelude.{ℕ, ◌-◌, ◌^◌, ◌%◌, Option, some, List, [], ◌∷◌, ◌++◌, ◌>>=◌}
use metric_bench.Prelude.Double.{Double}
use metric_bench.Prelude.Int.{ℤ, pos, negsuc}
use metric_bench.Config.{Config}
use metric_bench.Message.{MessageType}
use metric_bench.SampledStats.Output.{Line}
use metric_bench.Uri.{Bytes}
use metric_bench.MySqlDriver.Queries.{Outcome, Ending, returned, threw, Session, Draw, select_query}
use metric_bench.Sql.{select_text}
use metric_bench.Pareto.{ParetoGenerator, get_next_from}
use metric_bench.Fleet.{Env, display_if_due, display_at_end}

-- the conversion of an `int` to an `unsigned int`
abbrev pub to_u32 : ℤ → ℕ
to_u32 (pos n) = n % 2 ^ 32
to_u32 (negsuc n) = 2 ^ 32 - 1 - n % 2 ^ 32

module _ (d : Double) where
  -- What the generators, the database and the clock give in a round.
  pub record Round : Type 0 where
    pub device_draw : d.Carrier
    pub table_draw : d.Carrier
    pub type : MessageType
    pub metric_draw : ℤ
    pub outcome : Outcome
    pub draw : Draw d
    pub end_time : ℤ

  pub record Selected : Type 0 where
    pub session : Session d
    pub texts : List Bytes
    pub shown : List (Line d)
    pub ending : Ending

  -- the statement of a round
  abbrev pub round_text : Config → ParetoGenerator d → Round → Bytes
  round_text c g x =
      select_text x.type (to_u32 (get_next_from d g x.table_draw c.db_tables))
        (to_u32 (get_next_from d g x.device_draw c.max_devices)) x.metric_draw

  -- `SelectData`: the statements executed, what is recorded and shown, and how the thread ends; `none`
  -- where an array is accessed past its end.
  unfoldable pub select_data :
      Env
      → Config
      → ParetoGenerator d
      → (end_time : ℤ) → List Round
      → Session d
      → (last_time : ℤ) → Option Selected
  select_data e c g end_time [] s last_time =
      let shown = display_at_end d e s.stats last_time end_time in
      shown.1 >>= λ stats. some (record {
        session = record s { stats = stats };
        texts = [];
        shown = shown.0;
        ending = returned;
      })
  select_data e c g end_time (x ∷ xs) s last_time =
      select_query d s x.type x.outcome x.draw >>= λ done. elim done.1 [
        | threw ↦
            some (record {
              session = done.0;
              texts = round_text c g x ∷ [];
              shown = [];
              ending = threw;
            })
        | returned ↦
            let shown = display_if_due d e done.0.stats last_time x.end_time in
            shown.1 >>= λ kept.
            select_data e c g end_time xs (record done.0 { stats = kept.0 }) kept.1 >>= λ r.
            some (record r { texts = round_text c g x ∷ r.texts; shown = shown.0 ++ r.shown })
      ]
