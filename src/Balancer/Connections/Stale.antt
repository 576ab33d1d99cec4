-- ===== src/Balancer/Connections/Stale.antt =====
-- Connections that the resolver no longer lists stay ready in the picker.
use ework_runner.Prelude.{
  ℕ, ◌<◌, ◌==◌, ◌≡◌, refl, inl, inr, String, Bool, true, false, Option, none, some, List, [], ◌∷◌,
  arith, Bool-cases,
}
use ework_runner.Prelude.Table.{get, delete, get-delete, get-put}
use ework_runner.Balancer.Connections.{
  Address, same_address, Connectivity, idle, connecting, ready, transient_failure, shutdown,
  RoutingBalancer, address_set, remove, remove_if_gone, remove_gone, add_if_new, add_new,
  update_client_conn_state, or_empty, update_picker, connectivity_changed, changed_at,
  update_sub_conn_state, Call, addresses_changed, state_changed, perform, perform_all,
}
use ework_runner.Balancer.Connections.Consistency.{
  ==_iff, same_address_iff, conn_at, address_of, ready_id, IsConsistent,
}

module _ (node_id : ℕ → Option String) (connects : ℕ → Bool) (s : ℕ) (n : String) where
  -- The connection `s`, with the node id `n`, is ready but has no address.
  record IsStale (b : RoutingBalancer) : Type 0 where
    pub gone : address_of s b ≡ none
    pub old : s < b.tick
    pub kept : ready_id s b ≡ some n

  remove-IsStale :
      (a : Address) (s' : ℕ) (b : RoutingBalancer) → IsStale b → IsStale (remove a s' b)
  remove-IsStale a s' b v = record {
    gone = ground (arith, v.gone, get-delete ◌==◌ ==_iff s' s b.sc_to_addr_map);
    old = v.old;
    kept = v.kept;
  }

  remove_gone-IsStale :
      (new_addrs : List (Address × Unit {0})) (entries : List (Address × ℕ)) (b : RoutingBalancer)
      → IsStale b
      → IsStale (remove_gone new_addrs entries b)
  unfolding remove_gone
  remove_gone-IsStale new_addrs [] b v = v
  remove_gone-IsStale new_addrs (e ∷ entries) b v =
      remove_gone-IsStale new_addrs entries _ (one (get same_address e.0 new_addrs) (conn_at e.0 b))
    where
      one : (wanted : Option (Unit {0})) (at : Option ℕ) → IsStale (remove_if_gone wanted at e.0 b)
      one none (some s') = remove-IsStale e.0 s' b v
      one none none = v
      one (some _) at = v

  add_new-IsStale :
      (new_addrs : List (Address × Unit {0})) (b : RoutingBalancer)
      → IsStale b
      → IsStale (add_new node_id connects new_addrs b)
  unfolding add_new
  add_new-IsStale [] b v = v
  add_new-IsStale (e ∷ new_addrs) b v =
      add_new-IsStale new_addrs _ (one (conn_at e.0 b) (connects b.tick))
    where
      one : (at : Option ℕ) (succeeds : Bool) → IsStale (add_if_new node_id at succeeds e.0 b)
      one (some s') succeeds = v
      one none false = record { gone = v.gone; old = omega (arith, v.old); kept = v.kept }
      one none true = record {
        gone = ground (
          arith,
          v.gone,
          v.old,
          ==_iff b.tick s,
          get-put ◌==◌ ==_iff b.tick s e.0 b.sc_to_addr_map,
        );
        old = omega (arith, v.old);
        kept = v.kept;
      }

  connectivity_changed-IsStale :
      (state : Connectivity) (s' : ℕ) (a : Address) (b : RoutingBalancer)
      → (s' == s) ≡ false
      → IsStale b
      → IsStale (connectivity_changed state s' a b)
  unfolding connectivity_changed
  connectivity_changed-IsStale state s' a b other v = case state
    where
      lost : get ◌==◌ s (delete ◌==◌ s' b.ready_scs) ≡ some n
      lost = ground (arith, other, v.kept, get-delete ◌==◌ ==_iff s' s b.ready_scs)

      case : (state : Connectivity) → IsStale (connectivity_changed state s' a b)
      case ready = record {
        gone = v.gone;
        old = v.old;
        kept = ground (
          arith,
          other,
          v.kept,
          get-put ◌==◌ ==_iff s' s (or_empty (get same_address a b.node_id_map)) b.ready_scs,
        );
      }
      case shutdown = record {
        gone = ground (arith, v.gone, get-delete ◌==◌ ==_iff s' s b.sc_to_addr_map);
        old = v.old;
        kept = lost;
      }
      case idle = record { gone = v.gone; old = v.old; kept = lost }
      case connecting = record { gone = v.gone; old = v.old; kept = lost }
      case transient_failure = record { gone = v.gone; old = v.old; kept = lost }

  perform-IsStale :
      (c : Call) (b : RoutingBalancer) → IsStale b → IsStale (perform node_id connects c b)
  unfolding perform update_client_conn_state update_sub_conn_state update_picker
  perform-IsStale (addresses_changed addresses) b v =
      add_new-IsStale (address_set addresses) _
        (remove_gone-IsStale (address_set addresses) b.sub_conn_map b v)
  perform-IsStale (state_changed s' state) b v = one (address_of s' b) refl
    where
      one : (at : Option Address) → address_of s' b ≡ at → IsStale (changed_at at state s' b)
      one none h = v
      one (some a) h =
          let w : IsStale (connectivity_changed state s' a b) =
            connectivity_changed-IsStale state s' a b (ground (arith, h, v.gone, ==_iff s' s)) v in
          record { gone = w.gone; old = w.old; kept = w.kept }

  perform_all-IsStale :
      (calls : List Call) (b : RoutingBalancer)
      → IsStale b
      → IsStale (perform_all node_id connects calls b)
  unfolding perform_all
  perform_all-IsStale [] b v = v
  perform_all-IsStale (c ∷ calls) b v = perform_all-IsStale calls _ (perform-IsStale c b v)

  -- The first loop removes the connection of an address that is not wanted.
  remove_gone-gone :
      (new_addrs : List (Address × Unit {0})) (a : Address) (entries : List (Address × ℕ))
      (b : RoutingBalancer)
      → get same_address a new_addrs ≡ none
      → s < b.tick
      → ready_id s b ≡ some n
      → conn_at a b ≡ some s
      → get same_address a entries ≡ some s
      → IsStale (remove_gone new_addrs entries b)
  unfolding remove_gone get
  remove_gone-gone new_addrs a [] b unwanted old kept at entry = cc
  remove_gone-gone new_addrs a (e ∷ entries) b unwanted old kept at entry =
      elim (Bool-cases (same_address e.0 a)) [
        | inl same ↦
            let here : e.0 ≡ a = (same_address_iff e.0 a).0 same in
            remove_gone-IsStale new_addrs entries _ (
              rw (here, unwanted, at)
                (record {
                  gone = ground (arith, ==_iff s s, get-delete ◌==◌ ==_iff s s b.sc_to_addr_map);
                  old = old;
                  kept = kept;
                }))
        | inr other ↦
            later other (get same_address e.0 new_addrs) (conn_at e.0 b)
              (ground (arith, other, entry)) (remove_gone-gone new_addrs a entries)
      ]
    where
      later :
          (same_address e.0 a ≡ false)
          → (wanted : Option (Unit {0})) (at' : Option ℕ) → get same_address a entries ≡ some s
          → ((b' : RoutingBalancer)
              → get same_address a new_addrs ≡ none
              → s < b'.tick
              → ready_id s b' ≡ some n
              → conn_at a b' ≡ some s
              → get same_address a entries ≡ some s
              → IsStale (remove_gone new_addrs entries b'))
          → IsStale (remove_gone new_addrs entries (remove_if_gone wanted at' e.0 b))
      later other none (some s') rest ih =
          ih _ unwanted old kept
            (ground
              (arith, other, at, get-delete same_address same_address_iff e.0 a b.sub_conn_map))
            rest
      later other none none rest ih = ih b unwanted old kept at rest
      later other (some _) at' rest ih = ih b unwanted old kept at rest

  -- If the maps agree, a ready connection whose address is missing from an update of the addresses
  -- stays among the ready connections, with its node id, whatever gRPC calls afterwards.
  pub perform_all-stale :
      (b : RoutingBalancer) (a : Address) (addresses : List Address) (calls : List Call)
      → IsConsistent node_id b
      → conn_at a b ≡ some s
      → ready_id s b ≡ some n
      → get same_address a (address_set addresses) ≡ none
      → ready_id s (perform_all node_id connects (addresses_changed addresses ∷ calls) b) ≡ some n
  unfolding perform_all perform update_client_conn_state
  perform_all-stale b a addresses calls v at is_ready unwanted =
      (perform_all-IsStale calls _ (
        add_new-IsStale (address_set addresses) _ (
          remove_gone-gone (address_set addresses) a b.sub_conn_map b unwanted
            (v.ready_young s n is_ready) is_ready at at))).kept
