-- ===== src/Balancer/Connections/Consistency.antt =====
-- The maps of the balancer agree with each other, whatever gRPC calls.
use ework_runner.Prelude.{
  ℕ, suc, ◌<◌, ◌==◌, ◌≡◌, refl, ◌↔◌, String, Bool, true, false, Option, none, some, List, [], ◌∷◌,
  eq_iff, arith,
}
use ework_runner.Prelude.Table.{get, delete, get-delete, get-put}
use ework_runner.Balancer.Connections.{
  Address, same_address, Connectivity, idle, connecting, ready, transient_failure, shutdown,
  Published, RoutingBalancer, new_routing_balancer, address_set, extract_node_id, remove,
  remove_if_gone, remove_gone, add, add_if_new, add_new, update_client_conn_state, or_empty,
  update_picker, connectivity_changed, changed_at, update_sub_conn_state, Call, addresses_changed,
  state_changed, perform, perform_all,
}

pub ==_iff : (m n : ℕ) → (m == n ≡ true) ↔ (m ≡ n)
==_iff m n = (λ h. ground arith, λ h. ground arith)

pub same_address_iff : (a b : Address) → (same_address a b ≡ true) ↔ (a ≡ b)
same_address_iff a b = (
  λ h. ground (arith, eq_iff a.addr b.addr, eq_iff a.server_name b.server_name),
  λ h. ground (arith, eq_iff a.addr b.addr, eq_iff a.server_name b.server_name),
)

abbrev pub conn_at : Address → RoutingBalancer → Option ℕ
conn_at a b = get same_address a b.sub_conn_map

abbrev pub address_of : ℕ → RoutingBalancer → Option Address
address_of s b = get ◌==◌ s b.sc_to_addr_map

abbrev pub id_at : Address → RoutingBalancer → Option String
id_at a b = get same_address a b.node_id_map

abbrev pub ready_id : ℕ → RoutingBalancer → Option String
ready_id s b = get ◌==◌ s b.ready_scs

module _ (node_id : ℕ → Option String) where
  -- The two maps between addresses and connections are inverse to each other, each connected address has
  -- its node id, and each ready connection that is still connected has the node id of its address.
  pub record IsConsistent (b : RoutingBalancer) : Type 0 where
    pub forth : (a : Address) (s : ℕ) → conn_at a b ≡ some s → address_of s b ≡ some a
    pub back : (s : ℕ) (a : Address) → address_of s b ≡ some a → conn_at a b ≡ some s
    pub named :
        (a : Address) (s : ℕ) → conn_at a b ≡ some s → id_at a b ≡ some (extract_node_id node_id a)
    pub young : (s : ℕ) (a : Address) → address_of s b ≡ some a → s < b.tick
    pub ready_young : (s : ℕ) (n : String) → ready_id s b ≡ some n → s < b.tick
    pub ready_named :
        (s : ℕ) (n : String) (a : Address)
        → ready_id s b ≡ some n
        → address_of s b ≡ some a
        → n ≡ extract_node_id node_id a

  pub new_routing_balancer-IsConsistent : IsConsistent new_routing_balancer
  unfolding new_routing_balancer get
  new_routing_balancer-IsConsistent = record {
    forth = λ a s h. cc;
    back = λ s a h. cc;
    named = λ a s h. cc;
    young = λ s a h. ground arith;
    ready_young = λ s n h. ground arith;
    ready_named = λ s n a h k. ground arith;
  }

  module _ {b : RoutingBalancer} (v : IsConsistent b) where
    pub remove-IsConsistent :
        (a : Address) (s : ℕ) → conn_at a b ≡ some s → IsConsistent (remove a s b)
    remove-IsConsistent a s at = record {
      forth = λ a' s' h. ground (
        arith,
        v.forth a' s',
        v.forth a s,
        ==_iff s s',
        same_address_iff a a',
        get-delete same_address same_address_iff a a' b.sub_conn_map,
        get-delete ◌==◌ ==_iff s s' b.sc_to_addr_map,
      );
      back = λ s' a' h. ground (
        arith,
        v.back s' a',
        v.forth a s,
        ==_iff s s',
        same_address_iff a a',
        get-delete same_address same_address_iff a a' b.sub_conn_map,
        get-delete ◌==◌ ==_iff s s' b.sc_to_addr_map,
      );
      named = λ a' s' h. ground (
        arith,
        v.named a' s',
        get-delete same_address same_address_iff a a' b.sub_conn_map,
        get-delete same_address same_address_iff a a' b.node_id_map,
      );
      young =
          λ s' a' h. ground (arith, v.young s' a', get-delete ◌==◌ ==_iff s s' b.sc_to_addr_map);
      ready_young = v.ready_young;
      ready_named = λ s' n a' h k.
          ground (arith, v.ready_named s' n a', get-delete ◌==◌ ==_iff s s' b.sc_to_addr_map);
    }

    pub add-IsConsistent : (a : Address) → conn_at a b ≡ none → IsConsistent (add node_id a b)
    add-IsConsistent a at = record {
      forth = λ a' s' h. ground (
        arith,
        v.forth a' s',
        v.young s' a',
        ==_iff b.tick s',
        same_address_iff a a',
        get-put same_address same_address_iff a a' b.tick b.sub_conn_map,
        get-put ◌==◌ ==_iff b.tick s' a b.sc_to_addr_map,
      );
      back = λ s' a' h. ground (
        arith,
        v.back s' a',
        v.young s' a',
        ==_iff b.tick s',
        same_address_iff a a',
        get-put same_address same_address_iff a a' b.tick b.sub_conn_map,
        get-put ◌==◌ ==_iff b.tick s' a b.sc_to_addr_map,
      );
      named = λ a' s' h. ground (
        arith,
        v.named a' s',
        same_address_iff a a',
        get-put same_address same_address_iff a a' b.tick b.sub_conn_map,
        get-put same_address same_address_iff a a' (extract_node_id node_id a) b.node_id_map,
      );
      young = λ s' a' h. ground (
        arith,
        v.young s' a',
        ==_iff b.tick s',
        get-put ◌==◌ ==_iff b.tick s' a b.sc_to_addr_map,
      );
      ready_young = λ s' n h. omega (arith, v.ready_young s' n h);
      ready_named = λ s' n a' h k. ground (
        arith,
        v.ready_named s' n a',
        v.ready_young s' n,
        ==_iff b.tick s',
        get-put ◌==◌ ==_iff b.tick s' a b.sc_to_addr_map,
      );
    }

    pub skip-IsConsistent : IsConsistent (record b { tick = suc b.tick })
    skip-IsConsistent = record {
      forth = v.forth;
      back = v.back;
      named = v.named;
      young = λ s a h. omega (arith, v.young s a h);
      ready_young = λ s n h. omega (arith, v.ready_young s n h);
      ready_named = v.ready_named;
    }

    pub ready-IsConsistent :
        (s : ℕ) (a : Address)
        → address_of s b ≡ some a
        → IsConsistent (connectivity_changed ready s a b)
    unfolding connectivity_changed
    ready-IsConsistent s a at =
        let id = or_empty (id_at a b) in
        record {
          forth = v.forth;
          back = v.back;
          named = v.named;
          young = v.young;
          ready_young = λ s' n h. ground (
            arith,
            v.ready_young s' n,
            v.young s a,
            ==_iff s s',
            get-put ◌==◌ ==_iff s s' id b.ready_scs,
          );
          ready_named = λ s' n a' h k. ground (
            arith,
            v.ready_named s' n a',
            v.back s a,
            v.named a s,
            ==_iff s s',
            get-put ◌==◌ ==_iff s s' id b.ready_scs,
          );
        }

    pub lost-IsConsistent :
        (s : ℕ) → IsConsistent (record b { ready_scs = delete ◌==◌ s b.ready_scs })
    lost-IsConsistent s = record {
      forth = v.forth;
      back = v.back;
      named = v.named;
      young = v.young;
      ready_young =
          λ s' n h. ground (arith, v.ready_young s' n, get-delete ◌==◌ ==_iff s s' b.ready_scs);
      ready_named = λ s' n a' h k.
          ground (arith, v.ready_named s' n a', get-delete ◌==◌ ==_iff s s' b.ready_scs);
    }

  -- The list of the connections that were shut down, and the published pickers, bind nothing.
  pub same_maps-IsConsistent :
      {b : RoutingBalancer}
      → IsConsistent b
      → (down : List ℕ) (published : List Published)
      → IsConsistent (record b { shut_down = down; published = published })
  same_maps-IsConsistent v down published = record {
    forth = v.forth;
    back = v.back;
    named = v.named;
    young = v.young;
    ready_young = v.ready_young;
    ready_named = v.ready_named;
  }

  pub shutdown-IsConsistent :
      (b : RoutingBalancer)
      → IsConsistent b
      → (s : ℕ) (a : Address) → address_of s b ≡ some a
      → IsConsistent (connectivity_changed shutdown s a b)
  unfolding connectivity_changed
  shutdown-IsConsistent b v s a at =
      same_maps-IsConsistent (remove-IsConsistent (lost-IsConsistent v s) a s (v.back s a at))
        b.shut_down b.published

  pub connectivity_changed-IsConsistent :
      (state : Connectivity) (b : RoutingBalancer)
      → IsConsistent b
      → (s : ℕ) (a : Address) → address_of s b ≡ some a
      → IsConsistent (connectivity_changed state s a b)
  unfolding connectivity_changed
  connectivity_changed-IsConsistent ready b v s a at = ready-IsConsistent v s a at
  connectivity_changed-IsConsistent shutdown b v s a at = shutdown-IsConsistent b v s a at
  connectivity_changed-IsConsistent idle b v s a at = lost-IsConsistent v s
  connectivity_changed-IsConsistent connecting b v s a at = lost-IsConsistent v s
  connectivity_changed-IsConsistent transient_failure b v s a at = lost-IsConsistent v s

  remove_gone-IsConsistent :
      (new_addrs : List (Address × Unit {0})) (entries : List (Address × ℕ)) (b : RoutingBalancer)
      → IsConsistent b
      → IsConsistent (remove_gone new_addrs entries b)
  unfolding remove_gone
  remove_gone-IsConsistent new_addrs [] b v = v
  remove_gone-IsConsistent new_addrs (e ∷ entries) b v =
      remove_gone-IsConsistent new_addrs entries _
        (one (get same_address e.0 new_addrs) (conn_at e.0 b) refl)
    where
      one :
          (wanted : Option (Unit {0})) (at : Option ℕ)
          → conn_at e.0 b ≡ at
          → IsConsistent (remove_if_gone wanted at e.0 b)
      one none (some s) h = remove-IsConsistent v e.0 s h
      one none none h = v
      one (some _) at h = v

  module _ (connects : ℕ → Bool) where
    add_new-IsConsistent :
        (new_addrs : List (Address × Unit {0})) (b : RoutingBalancer)
        → IsConsistent b
        → IsConsistent (add_new node_id connects new_addrs b)
    unfolding add_new
    add_new-IsConsistent [] b v = v
    add_new-IsConsistent (e ∷ new_addrs) b v =
        add_new-IsConsistent new_addrs _ (one (conn_at e.0 b) (connects b.tick) refl)
      where
        one :
            (at : Option ℕ) (succeeds : Bool)
            → conn_at e.0 b ≡ at
            → IsConsistent (add_if_new node_id at succeeds e.0 b)
        one (some s) succeeds h = v
        one none false h = skip-IsConsistent v
        one none true h = add-IsConsistent v e.0 h

    pub perform-IsConsistent :
        (c : Call) (b : RoutingBalancer)
        → IsConsistent b
        → IsConsistent (perform node_id connects c b)
    unfolding perform update_client_conn_state update_sub_conn_state update_picker
    perform-IsConsistent (addresses_changed addresses) b v =
        add_new-IsConsistent (address_set addresses) _
          (remove_gone-IsConsistent (address_set addresses) b.sub_conn_map b v)
    perform-IsConsistent (state_changed s state) b v = one (address_of s b) refl
      where
        one : (at : Option Address) → address_of s b ≡ at → IsConsistent (changed_at at state s b)
        one none h = v
        one (some a) h =
            same_maps-IsConsistent (connectivity_changed-IsConsistent state b v s a h) _ _

    perform_all-from :
        (calls : List Call) (b : RoutingBalancer)
        → IsConsistent b
        → IsConsistent (perform_all node_id connects calls b)
    unfolding perform_all
    perform_all-from [] b v = v
    perform_all-from (c ∷ calls) b v = perform_all-from calls _ (perform-IsConsistent c b v)

    -- Whatever gRPC calls: the maps between the addresses and the connections of the balancer are
    -- inverse to each other, each connected address has its node id, no connection of the maps and
    -- no ready one is yet to be made, and each ready connection that is still connected has the
    -- node id of its address.
    pub reachable-IsConsistent :
        (calls : List Call) → IsConsistent (perform_all node_id connects calls new_routing_balancer)
    reachable-IsConsistent calls =
        perform_all-from calls new_routing_balancer new_routing_balancer-IsConsistent
