-- ===== src/Demo/Ending.antt =====
-- The loop of the demonstration handler comes to an end.
use ework_runner.Prelude.{
  ℕ, zero, suc, ◌+◌, ◌-◌, ◌<◌, ◌==◌, ℤ, pos, negsuc, pos_part, neg_part, ◌+ℤ◌, ◌*ℤ◌, sub_ℕ, ◌≤ℤ◌,
  ◌<ℤ◌, leb_ℤ, ltb_ℤ, int64, +ℤ_parts, int_laws, ◌≡◌, refl, ap, ◌∙◌, inl, inr, Params, String,
  ◌==ˢ◌, Option, none, some, List, [], ◌∷◌, length, All, false, arith, Bool-cases,
}
use Prim.Native.Char.{code}
use ework_runner.Sdk.Context.{
  param, param_int, parse_int, signed, digits, to_int64, report_progress, report_progress_bounds,
}
use ework_runner.Demo.{run_loop, quotient, completed, run}

-- An int64.
abbrev pub InRange : ℤ → Type 0
InRange x = (negsuc 9223372036854775807 ≤ℤ x) × (x ≤ℤ pos 9223372036854775807)

to_int64-InRange : (x : ℤ) → InRange (to_int64 x)
to_int64-InRange x = ground arith

signed-InRange : (sign : ℕ → ℤ) (n : Option ℕ) → InRange (signed sign n)
signed-InRange sign none = omega arith
signed-InRange sign (some n) = to_int64-InRange (sign n)

parse_int-InRange : (s : String) → InRange (parse_int s)
unfolding parse_int
parse_int-InRange String.[] = omega arith
parse_int-InRange (String.◌∷◌ c s) = elim (Bool-cases (code c == 45)) [
  | inl e ↦ rw e (signed-InRange (sub_ℕ 0) (digits s))
  | inr e ↦ elim (Bool-cases (code c == 43)) [
    | inl e' ↦ rw (e, e') (signed-InRange pos (digits s))
    | inr e' ↦ rw (e, e') (signed-InRange pos (digits (String.◌∷◌ c s)))
  ]
]

param_int-InRange : (params : Params) (key : String) → InRange (param_int params key)
unfolding param_int
param_int-InRange params key = elim (Bool-cases (param params key ==ˢ "")) [
  | inl e ↦ rw e (omega arith, omega arith)
  | inr e ↦ rw e (parse_int-InRange (param params key))
]

int64-InRange : (x : ℤ) → InRange x → int64 x ≡ x
unfolding int64
int64-InRange (pos n) h = ground arith
int64-InRange (negsuc n) h = ground arith

abbrev pub IsPercent : ℤ → Type 0
IsPercent x = (pos 0 ≤ℤ x) × (x ≤ℤ pos 100)

-- The number of turns of the loop.
abbrev pub turns : ℤ → ℤ → ℕ
turns start end = pos_part end + neg_part start - (pos_part start + neg_part end)

run_loop_total :
    (fuel : ℕ) (units total : ℤ)
    → InRange units
    → InRange total
    → turns units total < fuel
    → (reports : List ℤ) × (run_loop fuel units total ≡ some reports)
      × (length reports ≡ turns units total)
      × All IsPercent reports
unfolding run_loop
run_loop_total zero units total low high h = absurd (omega arith)
run_loop_total (suc fuel) units total low high h = elim (Bool-cases (ltb_ℤ units total)) [
  | inr e ↦ ([], ground (arith, e), ground (arith, e), tt)
  | inl e ↦
      let less : units <ℤ total = ground (arith, e) in
      let next = units +ℤ pos 1 in
      let same : int64 next ≡ next = int64-InRange next (omega int_laws, omega int_laws) in
      let (reports, ran, count, percents) =
        run_loop_total fuel (int64 next) total (rw same (omega int_laws, omega int_laws)) high
          (rw same (omega int_laws)) in
      let count' : length reports ≡ turns next total = count ∙ ap (λ (u : ℤ). turns u total) same in
      let percent = report_progress (quotient (int64 (int64 next *ℤ pos 100)) (pos_part total)) in
      (
        percent ∷ reports,
        rw (e, ran) refl,
        omega (arith, +ℤ_parts, less, count'),
        (
          report_progress_bounds (quotient (int64 (int64 next *ℤ pos 100)) (pos_part total)),
          percents,
        ),
      )
]

-- With an end above zero the handler completes, and the fuel it needs is the distance from start to end:
-- it reports once for each unit from start to end, and not at all if start is not below end, and
-- each report is a percentage.
pub run_completes :
    (fuel : ℕ) (params : Params)
    → pos 0 <ℤ param_int params "end"
    → turns (param_int params "start") (param_int params "end") < fuel
    → (reports : List ℤ) × (run fuel params ≡ completed reports)
      × (length reports ≡ turns (param_int params "start") (param_int params "end"))
      × All IsPercent reports
unfolding run
run_completes fuel params positive enough =
    let start = param_int params "start" in
    let end = param_int params "end" in
    let (reports, ran, count, percents) =
      run_loop_total fuel start end (param_int-InRange params "start")
        (param_int-InRange params "end") enough in
    let valid : leb_ℤ end (pos 0) ≡ false = ground (arith, positive) in
    (reports, simp (valid, ran), count, percents)
