-- ===== src/Fleet/Sending.antt =====
-- What the execution of a message sends to `statQueue`.
use mathlib.Core.List.{append-nil}
use metric_bench.Prelude.{
  ℕ, ◌/◌, ◌≡◌, refl, sym, ◌∙◌, ap, true, false, some, List, [], ◌∷◌, ◌++◌, inversion,
  some-injective,
}
use metric_bench.Prelude.Double.{Double}
use metric_bench.Message.{Message, MessageType, StatMessage, insert_metric, delete_device}
use metric_bench.TsQueue
use metric_bench.TsQueue.{TsQueue}
use metric_bench.MySqlDriver.Queries.{
  Outcome, succeeded, failed, Ending, returned, Session, insert_query, delete_query, caught,
  record_if_set, add_if_set, stat_message, Draw,
}
use metric_bench.Fleet.{Input, execute}

-- what the execution of a message reports
abbrev pub report : MessageType → List MessageType
report MessageType.insert = insert_metric ∷ []
report MessageType.delete = delete_device ∷ []
report _ = []

abbrev pub reports_of : List Message → List MessageType
reports_of [] = []
reports_of (m ∷ ms) = report m.op ++ reports_of ms

abbrev pub types : List StatMessage → List MessageType
types [] = []
types (m ∷ ms) = m.op ∷ types ms

pub types-append : (xs ys : List StatMessage) → types (xs ++ ys) ≡ types xs ++ types ys
types-append [] ys = refl
types-append (x ∷ xs) ys = ap (◌∷◌ x.op) (types-append xs ys)

module _ (d : Double) where
  caught-threw :
      (s s' : Session d) (op : MessageType) (ms : ℕ) (draw : Draw d)
      → caught d s op ms draw ≡ some (s', returned)
      → ⊥
  unfolding caught
  caught-threw s s' op ms draw h =
      let (stats, e, f) = inversion (add_if_set d s.ostream_set s.stats op ms true draw) _ h in cc

  items_of :
      {p q : Session d × Ending}
      → some p ≡ some q
      → types p.0.stat_queue.items ≡ types q.0.stat_queue.items
  items_of e = ap (λ (r : Session d × Ending). types r.0.stat_queue.items) (some-injective e)

  insert_query-sent :
      (s s' : Session d) (i cnt : ℕ) (outcome : Outcome) (draw : Draw d)
      → insert_query d s i cnt outcome draw ≡ some (s', returned)
      → types s'.stat_queue.items ≡ types s.stat_queue.items ++ insert_metric ∷ []
  unfolding insert_query TsQueue.push
  insert_query-sent s s' i cnt (failed ms) draw h =
      absurd (caught-threw s s' insert_metric ms draw h)
  insert_query-sent s s' i cnt (succeeded us) draw h =
      let (l, e, f) = inversion (record_if_set d s.latency_stats i insert_metric us) _ h in
      let (stats, g, k) =
        inversion (add_if_set d s.ostream_set s.stats insert_metric (us / 1000) false draw) _ f in
      sym (items_of k) ∙ types-append s.stat_queue.items (stat_message insert_metric us cnt ∷ [])

  delete_query-sent :
      (s s' : Session d) (i : ℕ) (outcome : Outcome) (draw : Draw d)
      → delete_query d s i outcome draw ≡ some (s', returned)
      → types s'.stat_queue.items ≡ types s.stat_queue.items ++ delete_device ∷ []
  unfolding delete_query TsQueue.push
  delete_query-sent s s' i (failed ms) draw h = absurd (caught-threw s s' delete_device ms draw h)
  delete_query-sent s s' i (succeeded us) draw h =
      let (l, e, f) = inversion (record_if_set d s.latency_stats i delete_device us) _ h in
      let (stats, g, k) =
        inversion (add_if_set d s.ostream_set s.stats delete_device (us / 1000) false draw) _ f in
      sym (items_of k) ∙ types-append s.stat_queue.items (stat_message delete_device us 1 ∷ [])

  -- A query that returns has sent its report.
  pub execute-sent :
      (s s' : Session d) (i : ℕ) (op : MessageType) (x : Input d)
      → execute d s i op x ≡ some (s', returned)
      → types s'.stat_queue.items ≡ types s.stat_queue.items ++ report op
  unfolding execute
  execute-sent s s' i MessageType.insert x e =
      insert_query-sent s s' i x.metrics_cnt x.outcome x.draw e
  execute-sent s s' i MessageType.delete x e = delete_query-sent s s' i x.outcome x.draw e
  execute-sent s s' i _ x e = sym (items_of e) ∙ sym (append-nil (types s.stat_queue.items))
