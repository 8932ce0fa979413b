-- ===== src/Split.antt =====
-- src/omni_benchmark/split.py: the preregistered split of the questions into a train and a test set.
-- A `SplitError` is `none`.
pub mod Apportion
pub mod Select
use omni_benchmark.Prelude.{String, Bool}

-- A record of the manifest, by the fields that the split reads.
pub record Question : Type 0 where
  pub instance_id : String
  pub selected_database : String
  pub high_level : Bool
