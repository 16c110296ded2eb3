-- ===== src/Preparer/Grid.antt =====
-- The messages of the tables and devices loops of src/Preparer.cpp, cell by cell.
use metric_bench.Prelude.{
  ℕ, zero, suc, ◌+◌, ◌*◌, ◌≤◌, ◌<◌, ◌≡◌, refl, ap, ◌∙◌, List, [], ◌∷◌, ◌++◌, arith, length,
  length-append, ◌==◌, if◌then◌else◌, ℕ_discrete, subst,
}
use metric_bench.Message.{Message}
use metric_bench.Config.{Config}
use metric_bench.Preparer.{
  Event, push, wait_size, wait_empty, add_progress, set_progress, u32, messages, table_loop,
  prep_device_loop,
}

-- How often a list has a message for the given timestamp, device and table.
abbrev pub hit : (ts d t : ℕ) → Message → ℕ
hit ts d t m =
    if m.ts == ts then (if m.device_id == d then (if m.table_id == t then 1 else 0) else 0) else 0

abbrev pub occurrences : (ts d t : ℕ) → List Message → ℕ
occurrences ts d t [] = 0
occurrences ts d t (m ∷ ms) = hit ts d t m + occurrences ts d t ms

pub messages-append : (es fs : List Event) → messages (es ++ fs) ≡ messages es ++ messages fs
messages-append [] fs = refl
messages-append (push m ∷ es) fs = ap (◌∷◌ m) (messages-append es fs)
messages-append (wait_size k ∷ es) fs = messages-append es fs
messages-append (wait_empty ∷ es) fs = messages-append es fs
messages-append (add_progress k ∷ es) fs = messages-append es fs
messages-append (set_progress k ∷ es) fs = messages-append es fs

occurrences_append :
    (ts d t : ℕ) (xs ys : List Message)
    → occurrences ts d t (xs ++ ys) ≡ occurrences ts d t xs + occurrences ts d t ys
occurrences_append ts d t [] ys = omega arith
occurrences_append ts d t (x ∷ xs) ys = omega (arith, occurrences_append ts d t xs ys)

pub occurrences-append :
    (ts d t : ℕ) (es fs : List Event)
    → occurrences ts d t (messages (es ++ fs))
      ≡ occurrences ts d t (messages es) + occurrences ts d t (messages fs)
occurrences-append ts d t es fs =
    ap (occurrences ts d t) (messages-append es fs)
    ∙ occurrences_append ts d t (messages es) (messages fs)

pub length-messages :
    (es fs : List Event)
    → length (messages (es ++ fs)) ≡ length (messages es) + length (messages fs)
length-messages es fs =
    ap length (messages-append es fs) ∙ length-append (messages es) (messages fs)

-- The tables loop pushes each table from its first one on once, for its own timestamp and device.
pub length-table_loop : (ts d rounds t : ℕ) → length (messages (table_loop ts d rounds t)) ≡ rounds
unfolding table_loop
length-table_loop ts d zero t = refl
length-table_loop ts d (suc rounds) t = ap suc (length-table_loop ts d rounds (t + 1))

pub table_loop_other :
    (ts d rounds t0 ts' d' t : ℕ)
    → (u32 ts ≡ ts' → d ≡ d' → t < t0)
    → occurrences ts' d' t (messages (table_loop ts d rounds t0)) ≡ 0
unfolding table_loop
table_loop_other ts d zero t0 ts' d' t h = refl
table_loop_other ts d (suc rounds) t0 ts' d' t h =
    ground (
      arith,
      h,
      table_loop_other ts d rounds (t0 + 1) ts' d' t (λ a b. let k = h a b in omega arith),
    )

pub table_loop_cell :
    (ts d rounds t0 t : ℕ)
    → t0 ≤ t
    → t < t0 + rounds
    → occurrences (u32 ts) d t (messages (table_loop ts d rounds t0)) ≡ 1
unfolding table_loop
table_loop_cell ts d zero t0 t h k = absurd (omega arith)
table_loop_cell ts d (suc rounds) t0 t h k = elim (ℕ_discrete t0 t) [
  | yes e ↦ ground (arith, table_loop_other ts d rounds (t0 + 1) (u32 ts) d t (λ _ _. omega arith))
  | no e ↦ ground (arith, table_loop_cell ts d rounds (t0 + 1) t (omega arith) (omega arith))
]

module _ (c : Config) where
  after_tables : (ts rounds dc : ℕ) → List Event
  after_tables ts rounds dc =
      add_progress c.db_tables
      ∷ wait_size (u32 (c.loader_threads * 2))
      ∷ prep_device_loop c ts rounds (dc + 1)

  pub length-prep_device_loop :
      (ts rounds dc : ℕ)
      → length (messages (prep_device_loop c ts rounds dc)) ≡ rounds * c.db_tables
  unfolding prep_device_loop after_tables
  length-prep_device_loop ts zero dc = omega arith
  length-prep_device_loop ts (suc rounds) dc = omega (
    arith,
    length-messages (table_loop ts dc c.db_tables 1) (after_tables ts rounds dc),
    length-table_loop ts dc c.db_tables 1,
    length-prep_device_loop ts rounds (dc + 1),
  )

  pub prep_device_loop_other :
      (ts rounds d0 ts' d t : ℕ)
      → (u32 ts ≡ ts' → d < d0)
      → occurrences ts' d t (messages (prep_device_loop c ts rounds d0)) ≡ 0
  unfolding prep_device_loop after_tables
  prep_device_loop_other ts zero d0 ts' d t h = refl
  prep_device_loop_other ts (suc rounds) d0 ts' d t h = omega (
    arith,
    occurrences-append ts' d t (table_loop ts d0 c.db_tables 1) (after_tables ts rounds d0),
    table_loop_other ts d0 c.db_tables 1 ts' d t (λ a b. let k = h a in absurd (omega arith)),
    prep_device_loop_other ts rounds (d0 + 1) ts' d t (λ a. let k = h a in omega arith),
  )

  pub prep_device_loop_cell :
      (ts rounds d0 d t : ℕ)
      → d0 ≤ d
      → d < d0 + rounds
      → 1 ≤ t
      → t ≤ c.db_tables
      → occurrences (u32 ts) d t (messages (prep_device_loop c ts rounds d0)) ≡ 1
  unfolding prep_device_loop after_tables
  prep_device_loop_cell ts zero d0 d t h k a b = absurd (omega arith)
  prep_device_loop_cell ts (suc rounds) d0 d t h k a b = elim (ℕ_discrete d0 d) [
    | yes e ↦ omega (
      arith,
      split,
      subst (λ j. occurrences (u32 ts) j t (messages (table_loop ts d0 c.db_tables 1)) ≡ 1) e
          (table_loop_cell ts d0 c.db_tables 1 t a (omega arith)),
      prep_device_loop_other ts rounds (d0 + 1) (u32 ts) d t (λ _. omega arith),
    )
    | no e ↦ omega (
      arith,
      split,
      table_loop_other ts d0 c.db_tables 1 (u32 ts) d t (λ _ q. absurd (e q)),
      prep_device_loop_cell ts rounds (d0 + 1) d t (omega arith) (omega arith) a b,
    )
  ]
    where
      split :
          occurrences
            (u32 ts)
            d
            t
            (messages (table_loop ts d0 c.db_tables 1 ++ after_tables ts rounds d0))
          ≡ occurrences (u32 ts) d t (messages (table_loop ts d0 c.db_tables 1))
            + occurrences (u32 ts) d t (messages (after_tables ts rounds d0))
      split =
          occurrences-append (u32 ts) d t (table_loop ts d0 c.db_tables 1)
            (after_tables ts rounds d0)
