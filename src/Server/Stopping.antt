-- ===== src/Server/Stopping.antt =====
-- What stopping a server does.
use ework_runner.Prelude.{
  String, Bool, true, false, Option, none, ◌∷◌, if◌then◌else◌, ◌≡◌, refl, ap, ◌∙◌,
}
use ework_runner.Action.{Result, ok}
use ework_runner.Registry.{ServiceInstance, Etcd, IsStore, instance_key, unregister, when_done}
use ework_runner.Registry.Listing.{unregister-value}
use ework_runner.Server.{graceful_stop, Server, Node, stop_grpc, on_etcd, drop_last, own_instance}

when_done-true : {S : Type 0} (r : Bool × S) → r.0 ≡ true → when_done r ≡ (ok tt, r.1)
when_done-true (true, s) h = refl
when_done-true (false, s) h = cc

module _ {S Float : Type 0} (etcd : Etcd S) (value : String → S → Option String) (prefix : String)
    (zero_float : Float) where
  pub stop_lem :
      (n : Node S) (addr : String) (m : Node S)
      → IsStore etcd value
      → n.server.has_registry ≡ true
      → m.server ≡ record n.server { cancelable = true; registered_addr = addr }
      → m.listeners ≡ n.server.listen_addr ∷ n.listeners
      → (etcd.delete (instance_key prefix (own_instance zero_float n.server addr)) m.etcd).0 ≡ true
      → (value
            (instance_key prefix (own_instance zero_float n.server addr))
            (graceful_stop zero_float etcd prefix m).etcd
          ≡ none)
        × ((graceful_stop zero_float etcd prefix m).listeners ≡ n.listeners)
        × ((graceful_stop zero_float etcd prefix m).stopped ≡ true)
  unfolding graceful_stop unregister
  stop_lem n addr m laws has server listeners deletes =
      let si = own_instance zero_float n.server addr in
      let key = instance_key prefix si in
      let has' : m.server.has_registry ≡ true = ap (λ (s : Server). s.has_registry) server ∙ has in
      let si' : own_instance zero_float m.server m.server.registered_addr ≡ si =
        ap (λ (s : Server). own_instance zero_float s s.registered_addr) server in
      let stopped : graceful_stop zero_float etcd prefix m
          ≡ stop_grpc (on_etcd (unregister etcd prefix si) m).1 =
        ap
          (λ (b : Bool). stop_grpc (
            if b
            then (on_etcd
                (unregister etcd prefix (own_instance zero_float m.server m.server.registered_addr))
                m).1
            else m))
          has'
        ∙ ap (λ (i : ServiceInstance Float). stop_grpc (on_etcd (unregister etcd prefix i) m).1)
            si' in
      let done : (unregister etcd prefix si m.etcd).0 ≡ ok tt =
        ap (λ (r : Result (Unit {0}) × S). r.0) (when_done-true (etcd.delete key m.etcd) deletes) in
      (
        ap (λ (k : Node S). value key k.etcd) stopped
            ∙ unregister-value etcd value prefix si m.etcd laws done,
        ap (λ (k : Node S). k.listeners) stopped ∙ ap drop_last listeners,
        ap (λ (k : Node S). k.stopped) stopped,
      )
