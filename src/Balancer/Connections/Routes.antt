-- ===== src/Balancer/Connections/Routes.antt =====
-- What the picker of the ready connections answers.
use ework_runner.Prelude.{
  ℕ, zero, suc, ◌<◌, ◌≡◌, refl, ap, inl, inr, String, none, some, List, [], ◌∷◌, ◌++◌, map, length,
  get_elem?, eq_iff, arith,
}
use ework_runner.Env.{Routing}
use ework_runner.Balancer.{RoutingPicker, picked, pick, index_from, get_specific_node_id}
use ework_runner.Balancer.Picks.{pick_specific_node}
use ework_runner.Balancer.Connections.{
  RoutingBalancer, ready_picker, published_state, update_picker,
}

-- Synchronised lists: the entries, their connections and their node ids.
length-map : {A B : Type 0} (f : A → B) (xs : List A) → length (map f xs) ≡ length xs
length-map f [] = refl
length-map f (x ∷ xs) = ap suc (length-map f xs)

get_elem?-map :
    {A B : Type 0} (f : A → B) (xs : List A) (i : ℕ) (x : A)
    → get_elem? xs i ≡ some x
    → get_elem? (map f xs) i ≡ some (f x)
get_elem?-map f [] i x h = cc
get_elem?-map f (y ∷ xs) zero x h = ground arith
get_elem?-map f (y ∷ xs) (suc i) x h = get_elem?-map f xs i x h

entry_of :
    (entries : List (ℕ × String)) (i : ℕ) (id : String) (s : ℕ)
    → get_elem? (map (λ r. r.1) entries) i ≡ some id
    → get_elem? (map (λ r. r.0) entries) i ≡ some s
    → get_elem? entries i ≡ some (s, id)
entry_of [] i id s h k = cc
entry_of (e ∷ entries) zero id s h k = ground arith
entry_of (e ∷ entries) (suc i) id s h k = entry_of entries i id s h k

index_from-ne-none :
    (i : ℕ) (node : String) (ids : List String) (k : ℕ)
    → get_elem? ids k ≡ some node
    → index_from i node ids ≡ none
    → ⊥
unfolding index_from
index_from-ne-none i node [] k h missing = cc
index_from-ne-none i node (id ∷ ids) zero h missing = ground (arith, eq_iff id node)
index_from-ne-none i node (id ∷ ids) (suc k) h missing =
    ground (arith, index_from-ne-none (suc i) node ids k h)

-- The picker of the entries, when there are any.
picker_of : List (ℕ × String) → RoutingPicker ℕ
picker_of entries = record {
  sub_conns = map (λ e. e.0) entries;
  node_ids = map (λ e. e.1) entries;
  next = 0;
}

published_state-picker_of :
    (entries : List (ℕ × String)) (k : ℕ) (e : ℕ × String)
    → get_elem? entries k ≡ some e
    → published_state entries ≡ ready_picker (picker_of entries)
unfolding picker_of
published_state-picker_of [] k e h = cc
published_state-picker_of (e' ∷ entries) k e h = refl

lengths-picker_of :
    (entries : List (ℕ × String)) (k : ℕ) (e : ℕ × String)
    → get_elem? entries k ≡ some e
    → (length (picker_of entries).sub_conns ≡ length (picker_of entries).node_ids)
      × (0 < length (picker_of entries).sub_conns)
unfolding picker_of
lengths-picker_of [] k e h = cc
lengths-picker_of (e' ∷ entries) k e h = (
  omega (
    arith,
    length-map (λ (r : ℕ × String). r.0) entries,
    length-map (λ (r : ℕ × String). r.1) entries,
  ),
  omega arith,
)

-- The picker that is published while a connection of a node is ready: a call that names the node
-- gets a ready connection of that node, and the picker stays as it is.
pub pick-update_picker :
    (b : RoutingBalancer) (r : Routing) (node : String) (k s : ℕ)
    → get_elem? b.ready_scs k ≡ some (s, node)
    → get_specific_node_id r ≡ some node
    → (p : RoutingPicker ℕ) × (s' k' : ℕ) × ((update_picker b).published
        ≡ b.published ++ ready_picker p ∷ [])
      × (get_elem? b.ready_scs k' ≡ some (s', node))
      × (pick r p ≡ (picked s', p))
unfolding update_picker picker_of
pick-update_picker b r node k s found wants =
    let p = picker_of b.ready_scs in
    let (same, some_ready) = lengths-picker_of b.ready_scs k (s, node) found in
    let (stays, answer) = pick_specific_node r p node same some_ready wants in
    let published =
      ap (λ st. b.published ++ st ∷ []) (published_state-picker_of b.ready_scs k (s, node) found) in
    elim answer [
      | inl (i, id, s', found_id, found_s, is_node, result) ↦
          let named : id ≡ node = (eq_iff id node).0 is_node in
          (
            p,
            s',
            i,
            published,
            rw (← named) (entry_of b.ready_scs i id s' found_id found_s),
            ground (arith, result, stays),
          )
      | inr (result, missing) ↦ absurd (
          index_from-ne-none 0 node p.node_ids k
            (get_elem?-map (λ r. r.1) b.ready_scs k (s, node) found) missing)
    ]
