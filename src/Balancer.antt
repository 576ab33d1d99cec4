-- ===== src/Balancer.antt =====
-- pkg/grpc/balancer: the routing values of a context and the picker.
pub mod Picks
pub mod Fairness
pub mod Connections
use ework_runner.Prelude.{
  ℕ, zero, suc, ◌+◌, ◌%◌, ◌==◌, String, Bool, true, false, ◌||◌, Option, none, some, List, [], ◌∷◌,
  length, get_elem?, ◌==ˢ◌, if◌then◌else◌,
}
use ework_runner.Env.{Routing}

-- A value of the context counts if it is not empty.
abbrev pub non_empty : Option String → Option String
non_empty none = none
non_empty (some s) = if s ==ˢ "" then none else some s

abbrev pub get_specific_node_id : Routing → Option String
get_specific_node_id r = non_empty r.specific_node_id

abbrev pub get_exclude_node : Routing → Option String
get_exclude_node r = non_empty r.excluded_node_id

pub record RoutingPicker (SubConn : Type 0) : Type 0 where
  pub sub_conns : List SubConn
  pub node_ids : List String
  pub next : ℕ  -- uint32

pub data PickResult (SubConn : Type 0) : Type 0 where
  picked : SubConn → PickResult SubConn
  no_sub_conn_available : PickResult SubConn
  unavailable : PickResult SubConn
  index_out_of_range : PickResult SubConn  -- a Go panic

abbrev pub uint32 : ℕ → ℕ
uint32 n = n % 0x100000000

-- The first index of a node id, from `i` on.
unfoldable pub index_from : ℕ → String → List String → Option ℕ
index_from i node [] = none
index_from i node (id ∷ ids) = if id ==ˢ node then some i else index_from (suc i) node ids

-- The indexes, from `i` on, of the nodes that are not excluded.
unfoldable pub candidates_from : ℕ → String → List String → List ℕ
candidates_from i node [] = []
candidates_from i node (id ∷ ids) =
    let rest = candidates_from (suc i) node ids in if id ==ˢ node then rest else i ∷ rest

module _ {SubConn : Type 0} where
  -- The element of a slice; an index outside the slice panics.
  abbrev pub element : Option SubConn → PickResult SubConn
  element none = index_out_of_range
  element (some c) = picked c

  abbrev pub at_index : List SubConn → ℕ → PickResult SubConn
  at_index conns i = element (get_elem? conns i)

  abbrev pub at_candidate : List SubConn → Option ℕ → PickResult SubConn
  at_candidate conns none = index_out_of_range
  at_candidate conns (some i) = at_index conns i

  -- atomic.AddUint32(&p.next, 1)
  abbrev pub advance : RoutingPicker SubConn → RoutingPicker SubConn
  advance p = record p { next = uint32 (suc p.next) }

  -- next - 1, in uint32, after the counter has advanced
  abbrev pub turn : RoutingPicker SubConn → ℕ
  turn p = uint32 (uint32 (suc p.next) + 0xffffffff)

  unfoldable pub pick_round_robin :
      RoutingPicker SubConn → PickResult SubConn × RoutingPicker SubConn
  pick_round_robin p = (at_index p.sub_conns (turn p % length p.sub_conns), advance p)

  abbrev pub pick_candidate :
      RoutingPicker SubConn → List ℕ → PickResult SubConn × RoutingPicker SubConn
  pick_candidate p [] = pick_round_robin p
  pick_candidate p (c ∷ cs) =
      (at_candidate p.sub_conns (get_elem? (c ∷ cs) (turn p % length (c ∷ cs))), advance p)

  abbrev pub pick_excluding :
      Option String → RoutingPicker SubConn → PickResult SubConn × RoutingPicker SubConn
  pick_excluding none p = pick_round_robin p
  pick_excluding (some node) p =
      let candidates = candidates_from 0 node p.node_ids in
      if length p.sub_conns == 1 then pick_round_robin p else pick_candidate p candidates

  abbrev pub pick_found :
      Option ℕ → RoutingPicker SubConn → PickResult SubConn × RoutingPicker SubConn
  pick_found none p = (unavailable, p)
  pick_found (some i) p = (at_index p.sub_conns i, p)

  abbrev pub pick_specific :
      Routing → Option String → RoutingPicker SubConn → PickResult SubConn × RoutingPicker SubConn
  pick_specific r none p = pick_excluding (get_exclude_node r) p
  pick_specific r (some node) p = pick_found (index_from 0 node p.node_ids) p

  unfoldable pub pick : Routing → RoutingPicker SubConn → PickResult SubConn × RoutingPicker SubConn
  pick r p =
      if length p.sub_conns == 0
      then (no_sub_conn_available, p)
      else pick_specific r (get_specific_node_id r) p
