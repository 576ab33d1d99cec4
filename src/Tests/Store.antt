-- ===== src/Tests/Store.antt =====
-- A store of keys and a JWT library, for the tests.
use ework_runner.Prelude.{
  inl, inr, String, true, Option, none, some, List, [], ◌∷◌, ◌==ˢ◌, eq_iff, ◌≡◌, arith, Bool-cases,
}
use ework_runner.Prelude.Table.{get, put, delete, get-put, get-delete}
use ework_runner.Prelude.Text.{cut_prefix, cut_prefix-append}
use text.Mathlib.TextBridge.{IsPrefix}
use mathlib.Core.List.{Memᴰ}
use mathlib.Core.List.Memᴰ.{head, tail}
use ework_runner.Registry.{Etcd, IsStore}

abbrev pub Keys : Type 0
Keys = List (String × String)

abbrev pub value : String → Keys → Option String
value k s = get ◌==ˢ◌ k s

abbrev pub if_prefix : Option String → String → List String → List String
if_prefix none v rest = rest
if_prefix (some _) v rest = v ∷ rest

unfoldable pub values_under : String → Keys → List String
values_under p [] = []
values_under p (e ∷ s) = if_prefix (cut_prefix p e.0) e.1 (values_under p s)

abbrev pub keys : Etcd Keys
keys = record {
  put = λ k v s. (true, put ◌==ˢ◌ k v s);
  delete = λ k s. (true, delete ◌==ˢ◌ k s);
  get_with_prefix = λ p s. some (values_under p s);
}

values_under-mem :
    (p k v : String) (s : Keys) → IsPrefix p k → value k s ≡ some v → Memᴰ v (values_under p s)
unfolding values_under get
values_under-mem p k v [] under h = absurd (cc h)
values_under-mem p k v (e ∷ s) (u, joined) h = elim (Bool-cases (e.0 ==ˢ k)) [
  | inl same ↦
      let here : e.0 ≡ k = (eq_iff e.0 k).0 same in
      let cut : cut_prefix p e.0 ≡ some u = rw (here, ← joined) (cut_prefix-append p u) in
      rw cut (head (ground (arith, same, h)))
  | inr other ↦
      later (cut_prefix p e.0) (values_under-mem p k v s (u, joined) (ground (arith, other, h)))
]
  where
    later :
        (c : Option String)
        → Memᴰ v (values_under p s)
        → Memᴰ v (if_prefix c e.1 (values_under p s))
    later none m = m
    later (some _) m = tail m

pub keys-IsStore : IsStore keys value
keys-IsStore = record {
  put_law = λ k v j s h. get-put ◌==ˢ◌ eq_iff k j v s;
  delete_law = λ k j s h. get-delete ◌==ˢ◌ eq_iff k j s;
  lists_all = λ p k v vs s h under stored.
      let e : values_under p s ≡ vs = cc h in rw (← e) (values_under-mem p k v s under stored);
}
