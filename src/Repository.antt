-- ===== src/Repository.antt =====
-- internal/repository: the domain's view of the tables.
pub mod Task
pub mod Execution
pub mod RoundTrip
use ework_runner.Prelude.{Bool, true, false, NilParams, Option, none, some}
use ework_runner.Rows.{JsonColumn}

module _ {A : Type 0} where
  -- A pointer as a column: nil is stored invalid, over the zero value.
  abbrev pub to_column : A → Option A → JsonColumn A
  to_column zero none = record { val = zero; valid = false }
  to_column zero (some a) = record { val = a; valid = true }

  abbrev pub valid_value : Bool → A → Option A
  valid_value true a = some a
  valid_value false a = none

  abbrev pub from_column : JsonColumn A → Option A
  from_column c = valid_value c.valid c.val

-- A map column that is not valid is read as nil.
abbrev pub params_from : Bool → NilParams → NilParams
params_from true m = m
params_from false m = none
