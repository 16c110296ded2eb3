-- ===== src/SampledStats/State.antt =====
-- src/SampledStats.hpp and src/SampledStats.cpp: the object, `addStats` and `resetSamples`. The draws of
-- the generators are arguments. An index past the end of an array, and a division by 0, is `none`.
-- Counters are natural numbers: they stay below 2 ^ 31 here.
use metric_bench.Prelude.{
  ℕ, ◌+◌, ◌%◌, Bool, Option, none, some, List, ltb, ◌==◌, ◌||◌, if◌then◌else◌, update, ◌>>=◌, set,
  replicate,
}
use metric_bench.Prelude.Double.{Double}
use metric_bench.Prelude.Int.{ℤ, pos, ltb_ℤ, eqb_ℤ, int32}
use metric_bench.Message.{MessageType, index, sizeof_message_type}

-- `MAX_OPTYPES`
abbrev pub max_optypes : ℕ
max_optypes = sizeof_message_type

-- `class SampledStats`. Arrays are indexed by the type; a row of `samples` has `maxsamples` elements.
pub record SampledStats : Type 0 where
  pub thread_id : ℕ
  pub max_samples : ℕ
  pub num_ops : ℕ → ℕ
  pub samples : ℕ → List ℤ
  pub ops_since_reset : ℕ → ℕ
  pub minimums : ℕ → ℤ
  pub maximums : ℕ → ℤ
  pub errors : ℕ → ℕ

-- the constructor; a `boost::multi_array` starts with zeros
unfoldable pub init : (thread_id max_samples : ℕ) → SampledStats
init thread_id max_samples = record {
  thread_id = thread_id;
  max_samples = max_samples;
  num_ops = λ _. 0;
  samples = λ _. replicate max_samples (pos 0);
  ops_since_reset = λ _. 0;
  minimums = λ _. pos 0;
  maximums = λ _. pos 0;
  errors = λ _. 0;
}

-- `addStats` up to the choice of the sample, but for the row of samples. Both arrays hold `int`s.
abbrev pub counted : SampledStats → ℕ → ℤ → Bool → List ℤ → SampledStats
counted s type timetaken error row = record s {
  num_ops = update s.num_ops type (s.num_ops type + 1);
  samples = update s.samples type row;
  ops_since_reset = update s.ops_since_reset type (s.ops_since_reset type + 1);
  minimums =
      (if eqb_ℤ (s.minimums type) (pos 0) || ltb_ℤ timetaken (s.minimums type)
        then update s.minimums type (int32 timetaken)
        else s.minimums);
  maximums =
      (if ltb_ℤ (s.maximums type) timetaken
        then update s.maximums type (int32 timetaken)
        else s.maximums);
  errors = (if error then update s.errors type (s.errors type + 1) else s.errors);
}

module _ (d : Double) where
  -- the end of `addStats`, on one row: the first samples are stored, later ones replace a stored one
  -- with some probability
  unfoldable pub store_sample :
      (max_samples op_index : ℕ)
      → List ℤ
      → ℤ
      → (probability : d.Carrier) → (rand : ℕ) → Option (List ℤ)
  store_sample max_samples op_index row timetaken probability rand =
      if ltb op_index max_samples
      then some (set row op_index timetaken)
      else if d.lt probability (d.div (d.of_ℤ (pos max_samples)) (d.of_ℤ (pos op_index)))
      then (if max_samples == 0 then none else some (set row (rand % max_samples) timetaken))
      else some row

  -- `addStats`
  unfoldable pub add_stats :
      SampledStats
      → MessageType
      → ℤ
      → Bool
      → (probability : d.Carrier) → (rand : ℕ) → Option SampledStats
  unfolding store_sample
  add_stats s type timetaken error probability rand =
      if ltb (index type) max_optypes
      then (store_sample s.max_samples (s.ops_since_reset (index type)) (s.samples (index type))
            timetaken probability rand
          >>= λ row. some (counted s (index type) timetaken error row))
      else none

-- `resetSamples`
unfoldable pub reset_samples : SampledStats → SampledStats
reset_samples s = record s { ops_since_reset = λ _. 0 }

-- `getCount`; `none` is a read past the end
unfoldable pub get_count : SampledStats → MessageType → Option ℕ
get_count s type = if ltb (index type) max_optypes then some (s.num_ops (index type)) else none
