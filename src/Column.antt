-- ===== src/Column.antt =====
-- pkg/sqlx/json.go: a column that holds a value as JSON.
pub mod RoundTrip
use ework_runner.Prelude.{String, Bool, true, false, Option, none, some}
use ework_runner.Domain.Errors.{Error, json_failed, unsupported_source}
use ework_runner.Action.{Result, ok, err, panic}
use ework_runner.Rows.{JsonColumn}

-- A value of the database driver, as Scan tells them apart.
pub data Source : Type 0 where
  nil : Source
  bytes : String → Source
  text : String → Source
  other : Source

-- `marshal` and `unmarshal` are those of encoding/json; `unmarshal` decodes into a value that is
-- there, and says whether it succeeded.
module _ {T : Type 0} (marshal : T → Option String) (unmarshal : String → T → Bool × T) where
  abbrev pub marshalled : Option String → Result Source
  marshalled none = err json_failed
  marshalled (some s) = ok (text s)

  abbrev pub value_if : Bool → T → Result Source
  value_if false val = ok nil
  value_if true val = marshalled (marshal val)

  unfoldable pub value : JsonColumn T → Result Source
  value j = value_if j.valid j.val

  -- An error of Unmarshal returns before Valid is set.
  abbrev pub decoded : Bool × T → JsonColumn T → Result (Unit {0}) × JsonColumn T
  decoded (true, v) j = (ok tt, record { val = v; valid = true })
  decoded (false, v) j = (err json_failed, record j { val = v })

  unfoldable pub scan : Source → JsonColumn T → Result (Unit {0}) × JsonColumn T
  scan nil j = (ok tt, j)
  scan (bytes s) j = decoded (unmarshal s j.val) j
  scan (text s) j = decoded (unmarshal s j.val) j
  scan other j = (err unsupported_source, j)
