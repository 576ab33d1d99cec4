-- ===== src/Workers/Names.antt =====
-- Workers of one name share one entry.
use ework_runner.Prelude.{String, Option, none, ◌≡◌, sym, ap, eq_refl}
use Prim.Native.String.{◌++◌}
use ework_runner.Action.{ok}
use ework_runner.Registry.{Etcd, IsStore}
use ework_runner.Registry.Listing.{when_done-ok}
use ework_runner.Workers.{Instance, instance_key, unregister}

-- When a worker is deregistered, no worker of its name is registered any more, whatever its topic.
pub unregister-same_name :
    {S : Type 0} (etcd : Etcd S) (value : String → S → Option String) (i j : Instance) (s : S)
    → IsStore etcd value
    → i.name ≡ j.name
    → (unregister etcd i s).0 ≡ ok tt
    → value (instance_key j) (unregister etcd i s).1 ≡ none
unfolding unregister
unregister-same_name etcd value i j s laws same done =
    let key = instance_key i in
    let (worked, after) = when_done-ok (etcd.delete key s) done in
    let same_key : instance_key j ≡ key = ap (λ (n : String). "/task/worker/" ++ n) (sym same) in
    simp (after, same_key, laws.delete_law key key s worked, eq_refl key)
