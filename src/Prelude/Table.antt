-- ===== src/Prelude/Table.antt =====
-- A Go map over keys that a Boolean test compares, as a list of entries with one entry for each key.
use mathlib.Core.Path.{◌≡◌}
use mathlib.Core.Logic.{◌↔◌}
use mathlib.Core.Bool.{Bool, true}
use mathlib.Core.Option.{Option, none, some}
use mathlib.Core.List.{List, [], ◌∷◌}
use native.Mathlib.Omega.{arith}
use ework_runner.Prelude.Tests.{if◌then◌else◌}

module _ {K V : Type 0} (same : K → K → Bool) where
  -- value, ok := m[k]
  unfoldable pub get : K → List (K × V) → Option V
  get k [] = none
  get k (e ∷ m) = if same e.0 k then some e.1 else get k m

  -- delete(m, k)
  unfoldable pub delete : K → List (K × V) → List (K × V)
  delete k [] = []
  delete k (e ∷ m) = let rest = delete k m in if same e.0 k then rest else e ∷ rest

  -- m[k] = v
  unfoldable pub put : K → V → List (K × V) → List (K × V)
  put k v m = (k, v) ∷ delete k m

  module _ (same_iff : (a b : K) → (same a b ≡ true) ↔ (a ≡ b)) where
    pub get-delete :
        (k j : K) (m : List (K × V)) → get j (delete k m) ≡ (if same k j then none else get j m)
    unfolding get delete
    get-delete k j [] = ground arith
    get-delete k j (e ∷ m) =
        ground (arith, get-delete k j m, same_iff k j, same_iff e.0 k, same_iff e.0 j)

    pub get-put :
        (k j : K) (v : V) (m : List (K × V))
        → get j (put k v m) ≡ (if same k j then some v else get j m)
    unfolding get put
    get-put k j v m = ground (arith, get-delete k j m)
