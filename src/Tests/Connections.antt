-- ===== src/Tests/Connections.antt =====
-- The balancer, the resolver and the registry, on small inputs.
use ework_runner.Prelude.{
  ℕ, ◌<◌, pos, ◌≡◌, refl, String, true, Option, none, some, List, [], ◌∷◌, ◌++◌, length, arith,
}
use ework_runner.Prelude.Table.{get, put, delete}
use ework_runner.Prelude.Text.{cut_prefix}
use mathlib.Core.List.{Memᴰ}
use ework_runner.Env.{Routing}
use ework_runner.Action.{ok}
use ework_runner.Balancer.{RoutingPicker, picked, pick}
use ework_runner.Balancer.Fairness.{after, pick_serves}
use ework_runner.Balancer.Connections.{
  Address, RoutingBalancer, new_routing_balancer, ready, idle, Call, addresses_changed,
  state_changed, address_set, remove_gone, add_new, update_client_conn_state, update_picker,
  connectivity_changed, update_sub_conn_state, perform, perform_all,
}
use ework_runner.Balancer.Connections.Consistency.{
  IsConsistent, reachable-IsConsistent, conn_at, ready_id,
}
use ework_runner.Registry.{ServiceInstance, register, list_services, decode_all}
use ework_runner.Registry.Listing.{register-list_services}
use ework_runner.Resolver.{Resolver, Told, addresses, resolve}
use ework_runner.Resolver.Refresh.{resolve-stale}
use ework_runner.Tests.Store.{keys, value, keys-IsStore, values_under}

abbrev plain : Routing
plain = record { specific_node_id = none; excluded_node_id = none }

abbrev three : RoutingPicker ℕ
three = record { sub_conns = 10 ∷ 20 ∷ 30 ∷ []; node_ids = "a" ∷ "b" ∷ "c" ∷ []; next = 5 }

pick_serves_example :
    (k : ℕ) × (k < length three.sub_conns) × ((pick plain (after plain k three)).0 ≡ picked 20)
pick_serves_example = pick_serves plain three 1 20 refl refl refl (omega arith)

abbrev node_ids : ℕ → Option String
node_ids n = some "a"

abbrev old_address : Address
old_address = record { addr = "10.0.0.1:80"; server_name = "demo"; attributes = 0 }

abbrev first_calls : List Call
first_calls = addresses_changed (old_address ∷ []) ∷ state_changed 0 ready ∷ []

abbrev connected : RoutingBalancer
connected = perform_all node_ids (λ t. true) first_calls new_routing_balancer

reachable-IsConsistent_example : IsConsistent node_ids connected
reachable-IsConsistent_example = reachable-IsConsistent node_ids (λ t. true) first_calls

connected_at : conn_at old_address connected ≡ some 0
unfolding perform_all perform update_client_conn_state remove_gone add_new address_set
    update_sub_conn_state update_picker connectivity_changed new_routing_balancer get put delete
connected_at = refl

connected_id : ready_id 0 connected ≡ some "a"
unfolding perform_all perform update_client_conn_state remove_gone add_new address_set
    update_sub_conn_state update_picker connectivity_changed new_routing_balancer get put delete
connected_id = refl

abbrev instance_of_demo : ServiceInstance (Unit {0})
instance_of_demo = record {
  name = "demo2";
  address = "10.0.0.1:80";
  id = "a";
  weight = pos 0;
  init_capacity = pos 0;
  max_capacity = pos 0;
  increase_step = pos 0;
  growth_rate = tt;
}

abbrev resolver : Resolver
resolver = record { target = "demo2"; node_ids = "a" ∷ []; told = [] }

resolve-stale_example :
    (new : List Address) × (later : List Told) × ((resolve
        (λ name. ok (instance_of_demo ∷ []))
        none
        resolver).told
      ≡ resolver.told ++ addresses new ∷ later)
    × (ready_id 0 (
          perform_all node_ids
            (λ t. true)
            (addresses_changed new ∷ state_changed 0 idle ∷ [])
            connected)
        ≡ some "a")
resolve-stale_example =
    resolve-stale (λ name. ok (instance_of_demo ∷ [])) resolver (instance_of_demo ∷ []) none
      connected (λ t. true) node_ids old_address 0 "a" (state_changed 0 idle ∷ []) refl
      (reachable-IsConsistent node_ids (λ t. true) first_calls) (omega arith) connected_at
      connected_id

-- An instance of the service demo2 is listed for the service demo.
register-list_services_example : Memᴰ instance_of_demo (instance_of_demo ∷ [])
unfolding register list_services decode_all values_under get put delete cut_prefix
register-list_services_example =
    register-list_services keys value "/services" (λ i. some "json") (λ v. some instance_of_demo)
      instance_of_demo "demo" "2" "json" [] (instance_of_demo ∷ []) keys-IsStore refl refl refl
      registered listed
  where
    registered : (register keys "/services" (λ i. some "json") instance_of_demo []).0 ≡ ok tt
    registered = refl

    listed :
        list_services keys "/services"
          (λ v. some instance_of_demo)
          "demo"
          (register keys "/services" (λ i. some "json") instance_of_demo []).1
        ≡ ok (instance_of_demo ∷ [])
    listed = refl
