-- ===== src/Balancer/Connections.antt =====
-- pkg/grpc/balancer/routing_balancer.go: the connections to the executors of a service.
pub mod Consistency
pub mod Stale
pub mod Routes
use ework_runner.Prelude.{
  ℕ, suc, ◌==◌, String, Bool, true, false, ◌&&◌, Option, none, some, List, [], ◌∷◌, ◌++◌, map,
  ◌==ˢ◌,
}
use ework_runner.Prelude.Table.{get, put, delete}
use ework_runner.Balancer.{RoutingPicker}

-- resolver.Address, which Go compares field by field. `attributes` is the pointer to the attributes: two
-- pointers are equal if they point to the same value.
pub record Address : Type 0 where
  pub addr : String
  pub server_name : String
  pub attributes : ℕ

abbrev pub same_address : Address → Address → Bool
same_address a b =
    a.addr ==ˢ b.addr && a.server_name ==ˢ b.server_name && a.attributes == b.attributes

pub data Connectivity : Type 0 where
  idle connecting ready transient_failure shutdown : Connectivity

-- balancer.State: what UpdateState tells gRPC.
pub data Published : Type 0 where
  no_connection : Published
  ready_picker : RoutingPicker ℕ → Published

-- The connections that gRPC makes are numbered by the calls of NewSubConn, `tick`.
pub record RoutingBalancer : Type 0 where
  pub sub_conn_map : List (Address × ℕ)
  pub sc_to_addr_map : List (ℕ × Address)
  pub node_id_map : List (Address × String)
  pub ready_scs : List (ℕ × String)
  pub tick : ℕ
  pub shut_down : List ℕ  -- the connections shut down, oldest first
  pub published : List Published  -- oldest first

unfoldable pub new_routing_balancer : RoutingBalancer
new_routing_balancer = record {
  sub_conn_map = [];
  sc_to_addr_map = [];
  node_id_map = [];
  ready_scs = [];
  tick = 0;
  shut_down = [];
  published = [];
}

-- The set of the addresses, as the map `newAddrs`.
unfoldable pub address_set : List Address → List (Address × Unit {0})
address_set [] = []
address_set (a ∷ addresses) = put same_address a tt (address_set addresses)

abbrev pub node_id_or : Option String → String → String
node_id_or (some id) addr = id
node_id_or none addr = addr

abbrev pub remove : Address → ℕ → RoutingBalancer → RoutingBalancer
remove a sc b = record b {
  sub_conn_map = delete same_address a b.sub_conn_map;
  sc_to_addr_map = delete ◌==◌ sc b.sc_to_addr_map;
  node_id_map = delete same_address a b.node_id_map;
  shut_down = b.shut_down ++ sc ∷ [];
}

-- One entry of `subConnMap` as the first loop meets it: an entry deleted before is not met.
abbrev pub remove_if_gone :
    Option (Unit {0}) → Option ℕ → Address → RoutingBalancer → RoutingBalancer
remove_if_gone none (some sc) a b = remove a sc b
remove_if_gone none none a b = b
remove_if_gone (some _) sc a b = b

unfoldable pub remove_gone :
    List (Address × Unit {0}) → List (Address × ℕ) → RoutingBalancer → RoutingBalancer
remove_gone new_addrs [] b = b
remove_gone new_addrs (e ∷ entries) b =
    remove_gone new_addrs entries
      (remove_if_gone (get same_address e.0 new_addrs) (get same_address e.0 b.sub_conn_map) e.0 b)

-- `map[key]` of a missing key is the empty string.
abbrev pub or_empty : Option String → String
or_empty none = ""
or_empty (some s) = s

abbrev pub published_state : List (ℕ × String) → Published
published_state [] = no_connection
published_state (e ∷ ready_scs) = ready_picker (record {
  sub_conns = map (λ r. r.0) (e ∷ ready_scs);
  node_ids = map (λ r. r.1) (e ∷ ready_scs);
  next = 0;
})

unfoldable pub update_picker : RoutingBalancer → RoutingBalancer
update_picker b = record b { published = b.published ++ published_state b.ready_scs ∷ [] }

-- The `switch` of UpdateSubConnState.
unfoldable pub connectivity_changed : Connectivity → ℕ → Address → RoutingBalancer → RoutingBalancer
connectivity_changed ready sc a b = record b {
  ready_scs = put ◌==◌ sc (or_empty (get same_address a b.node_id_map)) b.ready_scs;
}
connectivity_changed shutdown sc a b = record b {
  sub_conn_map = delete same_address a b.sub_conn_map;
  sc_to_addr_map = delete ◌==◌ sc b.sc_to_addr_map;
  node_id_map = delete same_address a b.node_id_map;
  ready_scs = delete ◌==◌ sc b.ready_scs;
}
connectivity_changed idle sc a b = record b { ready_scs = delete ◌==◌ sc b.ready_scs }
connectivity_changed connecting sc a b = record b { ready_scs = delete ◌==◌ sc b.ready_scs }
connectivity_changed transient_failure sc a b = record b { ready_scs = delete ◌==◌ sc b.ready_scs }

abbrev pub changed_at : Option Address → Connectivity → ℕ → RoutingBalancer → RoutingBalancer
changed_at none state sc b = b
changed_at (some a) state sc b = update_picker (connectivity_changed state sc a b)

unfoldable pub update_sub_conn_state : ℕ → Connectivity → RoutingBalancer → RoutingBalancer
update_sub_conn_state sc state b = changed_at (get ◌==◌ sc b.sc_to_addr_map) state sc b

-- Close
unfoldable pub close : RoutingBalancer → RoutingBalancer
close b = record b {
  sub_conn_map = [];
  sc_to_addr_map = [];
  node_id_map = [];
  ready_scs = [];
  shut_down = b.shut_down ++ map (λ e. e.1) b.sub_conn_map;
}

-- What gRPC calls, in order; it calls nothing after Close.
pub data Call : Type 0 where
  addresses_changed : List Address → Call
  state_changed : ℕ → Connectivity → Call

-- `node_id` is the value of "nodeID" behind a pointer to attributes, if there is one and it is a
-- string; `connects` says which calls of NewSubConn succeed.
module _ (node_id : ℕ → Option String) where
  abbrev pub extract_node_id : Address → String
  extract_node_id a = node_id_or (node_id a.attributes) a.addr

  abbrev pub add : Address → RoutingBalancer → RoutingBalancer
  add a b = record b {
    sub_conn_map = put same_address a b.tick b.sub_conn_map;
    sc_to_addr_map = put ◌==◌ b.tick a b.sc_to_addr_map;
    node_id_map = put same_address a (extract_node_id a) b.node_id_map;
    tick = suc b.tick;
  }

  -- One new address: it is skipped if it is connected, or if NewSubConn returns an error.
  abbrev pub add_if_new : Option ℕ → Bool → Address → RoutingBalancer → RoutingBalancer
  add_if_new (some sc) succeeds a b = b
  add_if_new none false a b = record b { tick = suc b.tick }
  add_if_new none true a b = add a b

  module _ (connects : ℕ → Bool) where
    unfoldable pub add_new : List (Address × Unit {0}) → RoutingBalancer → RoutingBalancer
    add_new [] b = b
    add_new (e ∷ new_addrs) b =
        add_new new_addrs (add_if_new (get same_address e.0 b.sub_conn_map) (connects b.tick) e.0 b)

    unfoldable pub update_client_conn_state : List Address → RoutingBalancer → RoutingBalancer
    update_client_conn_state addresses b =
        let new_addrs = address_set addresses in
        add_new new_addrs (remove_gone new_addrs b.sub_conn_map b)

    unfoldable pub perform : Call → RoutingBalancer → RoutingBalancer
    perform (addresses_changed addresses) b = update_client_conn_state addresses b
    perform (state_changed sc state) b = update_sub_conn_state sc state b

    unfoldable pub perform_all : List Call → RoutingBalancer → RoutingBalancer
    perform_all [] b = b
    perform_all (c ∷ calls) b = perform_all calls (perform c b)
