-- ===== src/Fleet/Implements.antt =====
-- The threads of `InsertData` do what their contract says.
use mathlib.Core.List.{append_assoc}
use metric_bench.Prelude.{
  ℕ, ◌<◌, ◌≡◌, refl, sym, ap, ◌∙◌, subst, fun_ext, Bool, true, false, inl, inr, ◌⊎◌, Option, List,
  [], ◌∷◌, ◌++◌, update, ℕ_discrete, ==_iff, ==_ne,
}
use metric_bench.Prelude.Double.{Double}
use metric_bench.Prelude.Int.{ℤ}
use metric_bench.Message.{Message, MessageType, StatMessage}
use metric_bench.TsQueue
use metric_bench.TsQueue.{TsQueue}
use metric_bench.TsQueue.Laws.{wait_and_pop-cons, empty_iff}
use metric_bench.LatencyStats.State.{LatencyStats}
use metric_bench.SampledStats.State.{SampledStats}
use metric_bench.Workers.{
  Pc, Move, goes_on, is_complete, has_more, leaves, sees_message, sees_nothing, pops, handles,
}
use metric_bench.Workers.Laws.{IsFresh, Inv, Reach-Inv}
use metric_bench.Fleet.{
  Env, is_handling, Fleet, session, Step, pushes, finishes, works, serves, crashes, faults_in_query,
  faults_in_display, exits, faults_at_end, reports, init, Reach, here, next,
}
use metric_bench.Fleet.Sending.{report, types, types-append, execute-sent}
use metric_bench.Fleet.Refinement.{system_of, system_of-Reach}
use metric_bench.Fleet.Contract.{
  Stage, resting, claiming, holding, retired, Service, Serve, claims, takes, answers, retires,
  opened, Serves,
}
use metric_bench.Fleet.Contract

abbrev pub stage_of : Pc → Stage
stage_of Pc.popping = claiming
stage_of (Pc.handling m) = holding m
stage_of Pc.left = retired
stage_of _ = resting

abbrev stages : (ℕ → Pc) → ℕ → Stage
stages pc i = stage_of (pc i)

-- Nothing that the contract tells of, or one of its steps.
abbrev Allowed : ℕ → Service → Service → Type 0
Allowed n s t = (s ≡ t) ⊎ Serve n s t

stages-update :
    (pc : ℕ → Pc) (i : ℕ) (p : Pc) → update (stages pc) i (stage_of p) ≡ stages (update pc i p)
stages-update pc i p = fun_ext λ j. elim (ℕ_discrete i j) [
  | yes same ↦ rw ((==_iff i j).1 same) refl
  | no other ↦ rw (==_ne other) refl
]

stages-same :
    (pc : ℕ → Pc) (i : ℕ) (p : Pc)
    → stage_of p ≡ stage_of (pc i)
    → stages (update pc i p) ≡ stages pc
stages-same pc i p e = fun_ext λ j. elim (ℕ_discrete i j) [
  | yes same ↦ rw ((==_iff i j).1 same) (e ∙ ap (stages pc) same)
  | no other ↦ rw (==_ne other) refl
]

front_nil : (xs ys : List Message) → xs ++ ys ≡ [] → xs ≡ []
front_nil [] ys e = refl
front_nil (x ∷ xs) ys e = cc

module _ (n : ℕ) (pc : ℕ → Pc) (i : ℕ) (sent : List MessageType) where
  abbrev at_stages : List Message → (ℕ → Stage) → Service
  at_stages waiting stage = record { waiting = waiting; stage = stage; sent = sent }

  quiet :
      (p : Pc) (items : List Message)
      → stage_of p ≡ stage_of (pc i)
      → Allowed n (at_stages items (stages pc)) (at_stages items (stages (update pc i p)))
  quiet p items e = inl (ap (at_stages items) (sym (stages-same pc i p e)))

  moves :
      (p : Pc) {items : List Message} (items' : List Message)
      → Serve n (at_stages items (stages pc)) (at_stages items' (update (stages pc) i (stage_of p)))
      → Allowed n (at_stages items (stages pc)) (at_stages items' (stages (update pc i p)))
  moves p {items} items' st = inr (
      subst (λ f. Serve n (at_stages items (stages pc)) (at_stages items' f)) (stages-update pc i p)
        st)

  Move-Allowed :
      {c : Bool} {q q' : TsQueue Message} {p p' : Pc} (todo : List Message)
      → (mv : Move c q p q' p') → i < n
      → pc i ≡ p
      → is_handling p ≡ false
      → (c ≡ true → todo ≡ [])
      → IsFresh c q.items p
      → Allowed n
          (at_stages (q.items ++ todo) (stages pc))
          (at_stages (q'.items ++ todo) (stages (update pc i p')))
  Move-Allowed todo (goes_on e) lt at h done fresh = quiet _ _ (sym (ap stage_of at))
  Move-Allowed todo (is_complete e) lt at h done fresh = quiet _ _ (sym (ap stage_of at))
  Move-Allowed todo (has_more e) lt at h done fresh = quiet _ _ (sym (ap stage_of at))
  Move-Allowed todo (sees_nothing e) lt at h done fresh = quiet _ _ (sym (ap stage_of at))
  Move-Allowed {q} todo (leaves e) lt at h done fresh =
      moves Pc.left (q.items ++ todo)
        (retires i lt (ap stage_of at) (rw ((empty_iff q).0 e, done fresh) refl))
  Move-Allowed {q} todo (sees_message e) lt at h done fresh = moves Pc.popping (q.items ++ todo) (
      claims i lt (ap stage_of at)
        (λ nothing. let empty = (empty_iff q).1 (front_nil q.items todo nothing) in cc))
  Move-Allowed {q} todo (pops {m} {q'} e) lt at h done fresh =
      moves (Pc.handling m) (q'.items ++ todo) (
        takes i m (q'.items ++ todo) lt (ap stage_of at)
          (ap (λ l. l ++ todo) (wait_and_pop-cons q q' m e)))
  Move-Allowed todo handles lt at h done fresh = cc

module _ (d : Double) where
  -- What the contract tells of the state: the messages in the queue and those still to be pushed wait, and
  -- what is in `statQueue` or has been taken from it has been sent.
  abbrev pub service_of : Fleet d → Service
  service_of s = record {
    waiting = s.queue.items ++ s.todo;
    stage = stages s.pc;
    sent = types (s.reported ++ s.stat_queue.items);
  }

  sent-reports :
      (reported : List StatMessage) (items items' : List StatMessage) (op : MessageType)
      → types items' ≡ types items ++ report op
      → types (reported ++ items') ≡ types (reported ++ items) ++ report op
  sent-reports reported items items' op e =
      types-append reported items'
      ∙ ap (λ l. types reported ++ l) e
      ∙ sym (append_assoc (types reported) (types items) (report op))
      ∙ ap (λ l. l ++ report op) (sym (types-append reported items))

  Step-Allowed :
      {e : Env} {n : ℕ} {messages : List Message} {s t : Fleet d}
      → Inv messages (system_of d s)
      → Step d e n s t
      → Allowed n (service_of s) (service_of t)
  unfolding TsQueue.push
  Step-Allowed {s} v (pushes m rest run h) = inl (
      ap
        (λ l. record {
          waiting = l;
          stage = stages s.pc;
          sent = types (s.reported ++ s.stat_queue.items);
        })
        (rw h (sym (append_assoc s.queue.items (m ∷ []) rest))))
  Step-Allowed v (finishes run h) = inl refl
  Step-Allowed {n} {s} v (works i run lt idle mv) =
      Move-Allowed n s.pc i (types (s.reported ++ s.stat_queue.items)) s.todo mv lt refl idle v.done
        (v.fresh i)
  Step-Allowed {e} {n} {s} v (serves i m x s' stats time lines run lt h f g) = inr (
      subst
        (λ l. Serve n (service_of s) (record {
          waiting = s.queue.items ++ s.todo;
          stage = stages (update s.pc i Pc.test_flag);
          sent = l;
        }))
        (sym (
          sent-reports s.reported s.stat_queue.items s'.stat_queue.items m.op
            (execute-sent d (session d e s i) s' i m.op x f)))
        (subst
          (λ g'. Serve n (service_of s) (record {
            waiting = s.queue.items ++ s.todo;
            stage = g';
            sent = types (s.reported ++ s.stat_queue.items) ++ report m.op;
          }))
          (stages-update s.pc i Pc.test_flag) (answers i m lt (ap stage_of h))))
  Step-Allowed v (crashes i m x s' run lt h f) = inl refl
  Step-Allowed v (faults_in_query i m x run lt h f) = inl refl
  Step-Allowed v (faults_in_display i m x s' lines run lt h f g) = inl refl
  Step-Allowed v (exits i t stats lines run lt h f g) = inl refl
  Step-Allowed v (faults_at_end i t lines run lt h f g) = inl refl
  Step-Allowed {s} v (reports m q run h) = inl (
      ap (λ l. record { waiting = s.queue.items ++ s.todo; stage = stages s.pc; sent = types l })
        (ap (λ l. s.reported ++ l) (wait_and_pop-cons s.stat_queue q m h)
          ∙ sym (append_assoc s.reported (m ∷ []) q.items)))

  go_on : {n : ℕ} {r s t : Service} → Serves n r s → Allowed n s t → Serves n r t
  go_on {n} {r} done (inl same) = subst (Serves n r) same done
  go_on done (inr st) = Contract.next done st

  -- However the n threads, the main thread and that of `Stats` interleave, and whatever the database answers:
  -- they do what the contract allows, step by step. A thread goes to wait for a message only while one is
  -- in the queue or still to be pushed; it takes the oldest one; for each insertion that it has taken it
  -- sends one message of InsertMetric, for each deletion one of DeleteDevice, and no other, before it takes
  -- the next, unless an exception or a read past an array ends the program; and it leaves its loop only when
  -- no message is left.
  pub service_of-Reach :
      (e : Env) (n : ℕ) (messages : List Message) (latency_stats : Option (LatencyStats d))
      (stats : ℕ → SampledStats) (start_time : ℤ) (s : Fleet d)
      → Reach d e n (init d messages latency_stats stats start_time) s
      → Serves n (opened messages) (service_of s)
  unfolding TsQueue.new
  service_of-Reach e n messages latency_stats stats start_time s here = Contract.here
  service_of-Reach e n messages latency_stats stats start_time s (next {t} r st) =
      go_on (service_of-Reach e n messages latency_stats stats start_time t r) (
        Step-Allowed (Reach-Inv (system_of-Reach d e n messages latency_stats stats start_time t r))
          st)
