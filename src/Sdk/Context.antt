-- ===== src/Sdk/Context.antt =====
-- sdk/executor/context.go and config.go: the parameters of a task, as its handler reads them.
use ework_runner.Prelude.{
  ℕ, ◌+◌, ◌*◌, ◌-◌, ℤ, pos, negsuc, sub_ℕ, ltb_ℤ, ◌≤ℤ◌, leb, ◌==◌, ◌&&◌, ◌||◌, Bool, false, String,
  ◌==ˢ◌, Params, lookup, Option, none, some, if◌then◌else◌, arith,
}
use Prim.Native.Char.{code}
use Prim.Native.String.{[], ◌∷◌}

-- Param; a missing parameter is empty.
abbrev pub or_empty : Option String → String
or_empty none = ""
or_empty (some s) = s

unfoldable pub param : Params → String → String
param params key = or_empty (lookup key params)

-- The number that decimal digits write, after the number `n` before them.
unfoldable pub digits_from : ℕ → String → Option ℕ
digits_from n [] = some n
digits_from n (c ∷ s) =
    let rest = digits_from (10 * n + (code c - 48)) s in
    if leb 48 (code c) && leb (code c) 57 then rest else none

abbrev pub digits : String → Option ℕ
digits [] = none
digits (c ∷ s) = digits_from 0 (c ∷ s)

-- A value outside int64 comes back as the nearest int64; one that is no number as zero.
abbrev pub to_int64 : ℤ → ℤ
to_int64 x =
    if ltb_ℤ (pos 9223372036854775807) x
    then pos 9223372036854775807
    else if ltb_ℤ x (negsuc 9223372036854775807)
    then negsuc 9223372036854775807
    else x

abbrev pub signed : (ℕ → ℤ) → Option ℕ → ℤ
signed sign none = pos 0
signed sign (some n) = to_int64 (sign n)

-- strconv.Atoi and strconv.ParseInt, whose errors are dropped
unfoldable pub parse_int : String → ℤ
parse_int [] = pos 0
parse_int (c ∷ s) =
    if code c == 45
    then signed (sub_ℕ 0) (digits s)
    else if code c == 43
    then signed pos (digits s)
    else signed pos (digits (c ∷ s))

unfoldable pub param_int : Params → String → ℤ
param_int params key = let val = param params key in if val ==ˢ "" then pos 0 else parse_int val

unfoldable pub param_int64 : Params → String → ℤ
param_int64 params key = let val = param params key in if val ==ˢ "" then pos 0 else parse_int val

-- strconv.ParseBool, whose error is dropped
abbrev pub parse_bool : String → Bool
parse_bool s = s ==ˢ "1" || s ==ˢ "t" || s ==ˢ "T" || s ==ˢ "TRUE" || s ==ˢ "true" || s ==ˢ "True"

unfoldable pub param_bool : Params → String → Bool
param_bool params key = let val = param params key in if val ==ˢ "" then false else parse_bool val

-- The progress that ReportProgress logs.
unfoldable pub report_progress : ℤ → ℤ
report_progress progress =
    let low = if ltb_ℤ progress (pos 0) then pos 0 else progress in
    if ltb_ℤ (pos 100) low then pos 100 else low

pub report_progress_bounds :
    (progress : ℤ) → (pos 0 ≤ℤ report_progress progress) × (report_progress progress ≤ℤ pos 100)
unfolding report_progress
report_progress_bounds progress = ground arith

-- Config of an executor
pub record Config : Type 0 where
  pub node_id : String
  pub service_name : String
  pub listen_addr : String
  pub advertise_addr : String
  pub reporter_service_name : String

-- Validate; the errors are their texts.
unfoldable pub validate : Config → Option String
validate c =
    if c.node_id ==ˢ ""
    then some "NodeID 不能为空"
    else if c.service_name ==ˢ ""
    then some "ServiceName 不能为空"
    else if c.listen_addr ==ˢ ""
    then some "监听地址不能为空"
    else if c.reporter_service_name ==ˢ ""
    then some "ReporterServiceName 不能为空"
    else none
