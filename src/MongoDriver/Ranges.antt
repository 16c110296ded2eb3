-- ===== src/MongoDriver/Ranges.antt =====
-- src/MongoDBDriver.cpp: `getTimestampRange`, and how it relates to that of src/MySQLDriver.cpp.
use metric_bench.Prelude.{
  ℕ, zero, suc, ◌+◌, ◌-◌, ◌^◌, ◌≡◌, refl, ap, ◌∙◌, Option, none, some, max, min, arith, leb,
  if◌then◌else◌,
}
use metric_bench.Prelude.Int.{ℤ, pos, negsuc}
use metric_bench.Config.{Config, start_timestamp}
use metric_bench.Preparer.{TsRange, u32}
use metric_bench.MySqlDriver.Ranges.{
  scan_tables, last_table, reset_unset, widened, get_timestamp_range,
}
use metric_bench.MySqlDriver.Stored.{reset_unset-start}

-- `static_cast<long unsigned int>` of an `int`
abbrev pub to_u64 : ℤ → ℕ
to_u64 (pos n) = n
to_u64 (negsuc n) = 2 ^ 64 - 1 - n

-- the body of the loop, with the newest timestamp that `findOne` gives for the collection
abbrev pub raised : Option ℤ → TsRange → TsRange
raised none ret = ret
raised (some ts) ret = record ret { max = max ret.max (to_u64 ts) }

-- `getTimestampRange`
unfoldable pub mongo_timestamp_range :
    Config → (newest : ℕ → Option ℤ) → (collection_id fuel : ℕ) → Option TsRange
unfolding scan_tables
mongo_timestamp_range c newest collection_id fuel =
    scan_tables (λ table ret. reset_unset (raised (newest table) ret)) (last_table c collection_id)
      fuel 1 (record { min = start_timestamp; max = start_timestamp })

-- the row of a table whose timestamps start at StartTimestamp
abbrev pub from_start : Option ℤ → Option TsRange
from_start none = none
from_start (some ts) = some (record { min = start_timestamp; max = to_u64 ts })

module _ {ℓ κ} {R : Type ℓ} (body body' : ℕ → R → R) (P : R → Type κ) (end_table : ℕ) where
  -- Two loops whose bodies agree where P holds, which they keep, agree.
  scan_tables-same :
      (fuel table : ℕ) (ret : R)
      → ((t : ℕ) (r : R) → P r → (body t r ≡ body' t r) × P (body t r))
      → P ret
      → scan_tables body end_table fuel table ret ≡ scan_tables body' end_table fuel table ret
  unfolding scan_tables
  scan_tables-same zero table ret h p = refl
  scan_tables-same (suc fuel) table ret h p =
      let (e, k) = h table ret p in
      ap (λ later. if leb table end_table then later else some ret)
        (scan_tables-same fuel (u32 (table + 1)) (body table ret) h k
          ∙ ap (λ r. scan_tables body' end_table fuel (u32 (table + 1)) r) e)

raised-min : (o : Option ℤ) (r : TsRange) → (raised o r).min ≡ r.min
raised-min none r = refl
raised-min (some ts) r = refl

abbrev ranged : ℕ → ℕ → TsRange
ranged a b = record { min = a; max = b }

raised-same :
    (o : Option ℤ) (r : TsRange) → r.min ≡ start_timestamp → raised o r ≡ widened (from_start o) r
raised-same none r e = refl
raised-same (some ts) r e =
    let least : r.min ≡ min r.min start_timestamp = omega arith in
    ap (λ (k : ℕ). ranged k (max r.max (to_u64 ts))) least

-- While the minimum is StartTimestamp, the two bodies do the same.
raised-widened :
    (o : Option ℤ) (r : TsRange)
    → r.min ≡ start_timestamp
    → (reset_unset (raised o r) ≡ reset_unset (widened (from_start o) r))
      × ((reset_unset (raised o r)).min ≡ start_timestamp)
raised-widened o r e =
    let kept = reset_unset-start (raised o r) (omega (arith, e, raised-min o r)) in
    (ap reset_unset (raised-same o r e), ap (λ x. x.min) kept ∙ raised-min o r ∙ e)

-- On any answers, `getTimestampRange` of MongoDBDriver gives the range that MySQLDriver's gives
-- where each table answers StartTimestamp and the same newest timestamp; the two loops scan the
-- same tables, and take the same number of rounds.
pub mongo_timestamp_range-get_timestamp_range :
    (c : Config) (newest : ℕ → Option ℤ) (collection_id fuel : ℕ)
    → mongo_timestamp_range c newest collection_id fuel
      ≡ get_timestamp_range c (λ table. from_start (newest table)) collection_id fuel
unfolding mongo_timestamp_range get_timestamp_range
mongo_timestamp_range-get_timestamp_range c newest collection_id fuel =
    scan_tables-same (λ table ret. reset_unset (raised (newest table) ret))
      (λ table ret. reset_unset (widened (from_start (newest table)) ret))
      (λ r. r.min ≡ start_timestamp) (last_table c collection_id) fuel 1
      (record { min = start_timestamp; max = start_timestamp })
      (λ t r e. raised-widened (newest t) r e) refl
