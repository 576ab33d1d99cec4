-- ===== src/Prelude/Dict.antt =====
-- Go's map[string]string as an association list. A nil map is `none` of `Option Params`.
use Prim.Native.String.{String}
use mathlib.Core.Path.{◌≡◌, refl}
use mathlib.Core.Bool.{Bool, true, false}
use mathlib.Core.Option.{Option, none, some}
use mathlib.Core.List.{List, [], ◌∷◌}
use native.Mathlib.Omega.{arith}
use text.Mathlib.Text.{◌==◌}
use text.Mathlib.TextEquality.{eq_iff}
use ework_runner.Prelude.Tests.{if◌then◌else◌}

abbrev pub Params : Type 0
Params = List (String × String)

-- A map that may be nil.
abbrev pub NilParams : Type 0
NilParams = Option Params

-- m[key]
unfoldable pub lookup : String → Params → Option String
lookup key [] = none
lookup key (entry ∷ m) = if entry.0 == key then some entry.1 else lookup key m

-- m[key] = value
unfoldable pub insert : String → String → Params → Params
insert key value [] = (key, value) ∷ []
insert key value (entry ∷ m) =
    let rest = insert key value m in if entry.0 == key then (key, value) ∷ m else entry ∷ rest

-- for k, v := range from { m[k] = v }; the keys of a map differ, so their order does not matter.
unfoldable pub merge : Params → Params → Params
unfolding insert
merge m [] = m
merge m ((k, v) ∷ from) = insert k v (merge m from)

-- What a key reads after a write to a key.
pub lookup-insert :
    (written read value : String) (m : Params)
    → lookup read (insert written value m) ≡ (if written == read then some value else lookup read m)
unfolding lookup insert
lookup-insert written read value [] = refl
lookup-insert written read value (entry ∷ m) =
    let rest = lookup-insert written read value m in
    ground (arith, rest, eq_iff written read, eq_iff entry.0 written, eq_iff entry.0 read)

-- An entry of `from` hides the entry of `m` with its key.
pub lookup-merge :
    (j : String) (m from : Params)
    → lookup j (merge m from) ≡ (elim (lookup j from) [ some v ↦ some v | none ↦ lookup j m ])
unfolding merge lookup
lookup-merge j m [] = refl
lookup-merge j m ((k, v) ∷ from) =
    ground (arith, lookup-insert k j v (merge m from), lookup-merge j m from)

-- len(m) == 0, which holds of a nil map too.
abbrev pub is_empty : NilParams → Bool
is_empty none = true
is_empty (some []) = true
is_empty (some (x ∷ m)) = false

-- The entries of a map; a nil map has none.
abbrev pub entries : NilParams → Params
entries none = []
entries (some m) = m
