-- ===== src/Execute/Output.antt =====
-- The part of a script's output that a result event names, in internal/execute/internal/event/consumer.go.
pub mod LastLine
use ework_runner.Prelude.{
  ℕ, Bool, true, false, not, ◌&&◌, ◌==◌, ◌==ˢ◌, ◌≡◌, refl, sym, ◌∙◌, ap, Option, none, some, List,
  ◌⊎◌, inl, inr, eq_iff, if◌then◌else◌, arith, Bool-cases,
}
use mathlib.Core.List
use mathlib.Core.List.{filter}
use Prim.Native.Char.{Char, code}
use Prim.Native.String.{String, [], ◌∷◌}
use ework_runner.Prelude.Text.{is_space, trim_space, trim_left, trim_right, before_trimmed}

-- A character in front of the first line.
abbrev pub onto_first : Char → List String → List String
onto_first c List.[] = List.◌∷◌ (c ∷ []) List.[]
onto_first c (List.◌∷◌ line lines) = List.◌∷◌ (c ∷ line) lines

-- strings.Split(s, "\n")
unfoldable pub split_lines : String → List String
split_lines [] = List.◌∷◌ [] List.[]
split_lines (c ∷ s) =
    let lines = split_lines s in if code c == 10 then List.◌∷◌ [] lines else onto_first c lines

unfoldable pub has_text : String → Bool
has_text line = not (trim_space line ==ˢ "")

-- The loop over the lines
unfoldable pub valid_lines : List String → List String
valid_lines List.[] = List.[]
valid_lines (List.◌∷◌ line lines) =
    let rest = valid_lines lines in if has_text line then List.◌∷◌ line rest else rest

unfoldable pub last_line : String → List String → String
last_line line List.[] = line
last_line line (List.◌∷◌ next lines) = last_line next lines

abbrev pub no_output : String
no_output = "{\"status\": \"Error\"}"

abbrev pub last_valid : List String → String
last_valid List.[] = no_output
last_valid (List.◌∷◌ line lines) = last_line line lines

unfoldable pub want_result : String → String
want_result output =
    let text = trim_space output in
    if text ==ˢ "" then no_output else last_valid (valid_lines (split_lines text))
