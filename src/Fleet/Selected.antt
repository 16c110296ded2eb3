-- ===== src/Fleet/Selected.antt =====
-- What the thread of `SelectData` leaves, where no stream is set.
use mathlib.Core.List.{append-nil, append_assoc}
use metric_bench.Prelude.{
  ℕ, ◌^◌, ◌≤◌, ◌<◌, ◌≡◌, refl, sym, ◌∙◌, false, some, List, [], ◌∷◌, ◌++◌, arith, ◌⊎◌, inl, inr,
}
use metric_bench.Prelude.Double.{Double}
use metric_bench.Prelude.Int.{ℤ, pos, negsuc, ◌≤ℤ◌}
use metric_bench.Config.{Config}
use metric_bench.Message.{StatMessage}
use metric_bench.TsQueue
use metric_bench.SampledStats.State.{SampledStats}
use metric_bench.Uri.{Bytes}
use metric_bench.MySqlDriver.Queries.{
  Outcome, succeeded, failed, Ending, returned, threw, Session, stat_message, select_query, caught,
  add_if_set,
}
use metric_bench.MySqlDriver.Effects.{sent}
use metric_bench.Sql.{select_text}
use metric_bench.Pareto.{ParetoGenerator, new, get_next_from}
use metric_bench.Pareto.Bounds.{IsPowerLaw, get_next_from_bounds}
use metric_bench.Fleet.{Env, display_if_due, display_at_end}
use metric_bench.Fleet.Selecting.{to_u32, Round, Selected, round_text, select_data}

abbrev unless_failed {ℓ} : {A : Type ℓ} → Outcome → A → A → A
unless_failed (succeeded us) later now = later
unless_failed (failed ms) later now = now

Outcome-cases : (o : Outcome) → ((us : ℕ) × (o ≡ succeeded us)) ⊎ ((ms : ℕ) × (o ≡ failed ms))
Outcome-cases (succeeded us) = inl (us, refl)
Outcome-cases (failed ms) = inr (ms, refl)

to_u32-range :
    (r : ℤ) (n : ℕ) → n < 2 ^ 31 → pos 1 ≤ℤ r → r ≤ℤ pos n → (1 ≤ to_u32 r) × (to_u32 r ≤ n)
to_u32-range (pos m) n h p q = omega arith
to_u32-range (negsuc m) n h p q = absurd (omega arith)

module _ (d : Double) where
  -- what the rounds send, and how they end: the first that fails is the last
  abbrev pub sent_by : List (Round d) → List StatMessage
  sent_by [] = []
  sent_by (x ∷ xs) = sent x.type 1 x.outcome ++ unless_failed x.outcome (sent_by xs) []

  abbrev pub end_of_rounds : List (Round d) → Ending
  end_of_rounds [] = returned
  end_of_rounds (x ∷ xs) = unless_failed x.outcome (end_of_rounds xs) threw

  -- A statement of its type for one of the tables and one of the devices.
  pub record IsSelect (c : Config) (x : Round d) (text : Bytes) : Type 0 where
    pub table_id : ℕ
    pub device_id : ℕ
    pub table_range : (1 ≤ table_id) × (table_id ≤ c.db_tables)
    pub device_range : (1 ≤ device_id) × (device_id ≤ c.max_devices)
    pub written : text ≡ select_text x.type table_id device_id x.metric_draw

  abbrev pub AreSelects : Config → List (Round d) → List Bytes → Type 0
  AreSelects c [] texts = texts ≡ []
  AreSelects c (x ∷ xs) [] = ⊥
  AreSelects c (x ∷ xs) (text ∷ texts) =
      IsSelect c x text × unless_failed x.outcome (AreSelects c xs texts) (texts ≡ [])

  module _ (IsDraw : d.Carrier → Type 0) (law : IsPowerLaw d IsDraw) (h : d.Carrier)
      (g : ParetoGenerator d) (made : new d h ≡ some g) (c : Config) (e : Env)
      (tables : (1 ≤ c.db_tables) × (c.db_tables < 2 ^ 31))
      (devices : (1 ≤ c.max_devices) × (c.max_devices < 2 ^ 31)) where
    abbrev pub AllDraws : List (Round d) → Type 0
    AllDraws [] = Unit {0}
    AllDraws (x ∷ xs) = IsDraw x.device_draw × IsDraw x.table_draw × AllDraws xs

    round_text-IsSelect :
        (x : Round d)
        → IsDraw x.device_draw
        → IsDraw x.table_draw
        → IsSelect c x (round_text d c g x)
    round_text-IsSelect x dd td =
        let t =
          get_next_from_bounds d IsDraw law h g made x.table_draw td c.db_tables tables.0
            tables.1 in
        let v =
          get_next_from_bounds d IsDraw law h g made x.device_draw dd c.max_devices devices.0
            devices.1 in
        record {
          table_id = to_u32 (get_next_from d g x.table_draw c.db_tables);
          device_id = to_u32 (get_next_from d g x.device_draw c.max_devices);
          table_range = to_u32-range _ c.db_tables tables.1 t.0 t.1;
          device_range = to_u32-range _ c.max_devices devices.1 v.0 v.1;
          written = refl;
        }

    silent_end :
        (stats : SampledStats) (last_time end_time : ℤ)
        → e.ostream_set ≡ false
        → display_at_end d e stats last_time end_time ≡ ([], some stats)
    unfolding display_at_end
    silent_end stats last_time end_time unset = rw unset refl

    silent_round :
        (stats : SampledStats) (last_time end_time : ℤ)
        → e.ostream_set ≡ false
        → display_if_due d e stats last_time end_time ≡ ([], some (stats, last_time))
    unfolding display_if_due
    silent_round stats last_time end_time unset = rw unset refl

    silent_success :
        (s : Session d) (x : Round d) (us : ℕ)
        → s.ostream_set ≡ false
        → x.outcome ≡ succeeded us
        → select_query d s x.type x.outcome x.draw
          ≡ some (
            record s { stat_queue = TsQueue.push s.stat_queue (stat_message x.type us 1) },
            returned,
          )
    unfolding select_query add_if_set
    silent_success s x us silent went = rw (went, silent) refl

    silent_failure :
        (s : Session d) (x : Round d) (ms : ℕ)
        → s.ostream_set ≡ false
        → x.outcome ≡ failed ms
        → select_query d s x.type x.outcome x.draw ≡ some (s, threw)
    unfolding select_query caught add_if_set
    silent_failure s x ms silent went = rw (went, silent) refl

    -- Where no stream is set, the draws of the generator and its arithmetic are as documented, and there is a
    -- table and a device, fewer than 2 ^ 31 of each: `SelectData` ends, after its last round or with the
    -- exception of the first that fails. Each round until then executes one statement of its type, for a
    -- table from 1 to DBTables and a device from 1 to MaxDevices; each but the failed one sends one
    -- message, in this order; and nothing is shown.
    pub select_data-Selected :
        (end_time : ℤ) (xs : List (Round d)) (s : Session d) (last_time : ℤ)
        → e.ostream_set ≡ false
        → s.ostream_set ≡ false
        → AllDraws xs
        → (r : Selected d) × (select_data d e c g end_time xs s last_time ≡ some r)
          × (r.ending ≡ end_of_rounds xs)
          × (r.session.stat_queue.items ≡ s.stat_queue.items ++ sent_by xs)
          × AreSelects c xs r.texts
          × (r.shown ≡ [])
    unfolding select_data TsQueue.push
    select_data-Selected end_time [] s last_time unset silent draws = (
      record { session = s; texts = []; shown = []; ending = returned },
      rw (silent_end s.stats last_time end_time unset) refl,
      refl,
      sym (append-nil s.stat_queue.items),
      refl,
      refl,
    )
    select_data-Selected end_time (x ∷ xs) s last_time unset silent draws =
        elim (Outcome-cases x.outcome) [
          | inl (us, went) ↦
              let s' : Session d = record s {
                stat_queue = TsQueue.push s.stat_queue (stat_message x.type us 1);
              } in
              let (r, ran, ends, queued, texts, shown) =
                select_data-Selected end_time xs s' last_time unset silent draws.2 in
              (
                record r { texts = round_text d c g x ∷ r.texts; shown = r.shown },
                rw
                    (
                      silent_success s x us silent went,
                      silent_round s.stats last_time x.end_time unset,
                      ran,
                    )
                    refl,
                rw went ends,
                rw went (
                    queued
                    ∙ append_assoc s.stat_queue.items (stat_message x.type us 1 ∷ []) (sent_by xs)),
                (round_text-IsSelect x draws.0 draws.1, rw went texts),
                shown,
              )
          | inr (ms, went) ↦ (
            record { session = s; texts = round_text d c g x ∷ []; shown = []; ending = threw },
            rw (silent_failure s x ms silent went) refl,
            rw went refl,
            rw went (sym (append-nil s.stat_queue.items)),
            (round_text-IsSelect x draws.0 draws.1, rw went refl),
            refl,
          )
        ]
