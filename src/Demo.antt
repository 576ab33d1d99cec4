-- ===== src/Demo.antt =====
-- internal/grpc/executor.go: the handler of demonstration tasks.
pub mod Ending
use ework_runner.Prelude.{
  ℕ, zero, suc, ◌/◌, ℤ, pos, negsuc, sub_ℕ, ◌+ℤ◌, ◌*ℤ◌, leb_ℤ, ltb_ℤ, int64, pos_part, neg_part,
  Params, Option, none, some, List, [], ◌∷◌, if◌then◌else◌,
}
use ework_runner.Sdk.Context.{param_int, report_progress}

-- Go's division, which rounds towards zero, by a positive number.
abbrev pub quotient : ℤ → ℕ → ℤ
quotient a b = sub_ℕ (pos_part a / b) (neg_part a / b)

abbrev pub report_before : ℤ → Option (List ℤ) → Option (List ℤ)
report_before progress none = none
report_before progress (some reports) = some (progress ∷ reports)

-- The loop, with the reports that it makes; `none` means that the fuel ran out.
unfoldable pub run_loop : ℕ → ℤ → ℤ → Option (List ℤ)
run_loop zero progress_units total = none
run_loop (suc fuel) progress_units total =
    let next = int64 (progress_units +ℤ pos 1) in
    let rest = run_loop fuel next total in
    if ltb_ℤ progress_units total
    then report_before (report_progress (quotient (int64 (next *ℤ pos 100)) (pos_part total))) rest
    else some []

pub data Ended : Type 0 where
  invalid_end : Ended
  completed : List ℤ → Ended  -- with the reports
  out_of_fuel : Ended

abbrev pub ended : Option (List ℤ) → Ended
ended none = out_of_fuel
ended (some reports) = completed reports

unfoldable pub run : ℕ → Params → Ended
run fuel params =
    if leb_ℤ (param_int params "end") (pos 0)
    then invalid_end
    else ended (run_loop fuel (param_int params "start") (param_int params "end"))
