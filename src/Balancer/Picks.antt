-- ===== src/Balancer/Picks.antt =====
-- Which connection the picker answers with.
use ework_runner.Prelude.{
  ℕ, zero, suc, ◌+◌, ◌%◌, ◌==◌, ◌<◌, String, true, false, ◌≡◌, refl, sym, ◌⊎◌, inl, inr, none, some,
  List, [], ◌∷◌, length, get_elem?, ◌==ˢ◌, arith, Bool-cases, Option-cases,
}
use native.Mathlib.Nat.{mod-lt}
use ework_runner.Env.{Routing}
use ework_runner.Balancer.{
  RoutingPicker, PickResult, picked, unavailable, pick, pick_round_robin, index_from,
  candidates_from, get_specific_node_id, get_exclude_node, turn, pick_candidate, at_index,
}

module _ {A : Type 0} where
  get_elem?-lt : (xs : List A) (i : ℕ) → i < length xs → (x : A) × (get_elem? xs i ≡ some x)
  get_elem?-lt [] i h = absurd (omega (arith, h))
  get_elem?-lt (x ∷ xs) zero h = (x, refl)
  get_elem?-lt (x ∷ xs) (suc i) h = get_elem?-lt xs i (omega (arith, h))

  pub lt-get_elem? : (xs : List A) (i : ℕ) (x : A) → get_elem? xs i ≡ some x → i < length xs
  lt-get_elem? [] i x h = cc
  lt-get_elem? (y ∷ xs) zero x h = omega arith
  lt-get_elem? (y ∷ xs) (suc i) x h = omega (arith, lt-get_elem? xs i x h)

  get_elem?-cons :
      (x : A) (xs : List A) (k : ℕ) (y : A)
      → get_elem? (x ∷ xs) k ≡ some y
      → (y ≡ x) ⊎ ((k' : ℕ) × (get_elem? xs k' ≡ some y))
  get_elem?-cons x xs zero y h = inl cc
  get_elem?-cons x xs (suc k) y h = inr (k, h)

-- The index that the search for a node finds is one of that node.
index_from_sound :
    (i : ℕ) (node : String) (ids : List String) (j : ℕ)
    → index_from i node ids ≡ some j
    → (m : ℕ) × (id : String) × (j ≡ i + m) × (get_elem? ids m ≡ some id) × ((id ==ˢ node) ≡ true)
unfolding index_from
index_from_sound i node [] j h = cc
index_from_sound i node (id ∷ ids) j h = elim (Bool-cases (id ==ˢ node)) [
  | inl same ↦ (0, id, ground (arith, same, h), refl, same)
  | inr other ↦
      let (m, id', e, found, same) =
        index_from_sound (suc i) node ids j (ground (arith, other, h)) in
      (suc m, id', omega (arith, e), found, same)
]

candidates_from_sound :
    (i : ℕ) (node : String) (ids : List String) (k j : ℕ)
    → get_elem? (candidates_from i node ids) k ≡ some j
    → (m : ℕ) × (id : String) × (j ≡ i + m) × (get_elem? ids m ≡ some id) × ((id ==ˢ node) ≡ false)
unfolding candidates_from
candidates_from_sound i node [] k j h = cc
candidates_from_sound i node (id ∷ ids) k j h = elim (Bool-cases (id ==ˢ node)) [
  | inl same ↦ later (candidates_from_sound (suc i) node ids) (k, ground (arith, h, same))
  | inr other ↦
      elim (get_elem?-cons i (candidates_from (suc i) node ids) k j (ground (arith, h, other))) [
        | inl e ↦ (0, id, omega (arith, e), refl, other)
        | inr found ↦ later (candidates_from_sound (suc i) node ids) found
      ]
]
  where
    later :
        ((k' j' : ℕ)
          → get_elem? (candidates_from (suc i) node ids) k' ≡ some j'
          → (m : ℕ) × (id' : String) × (j' ≡ suc i + m)
            × (get_elem? ids m ≡ some id')
            × ((id' ==ˢ node) ≡ false))
        → ((k' : ℕ) × (get_elem? (candidates_from (suc i) node ids) k' ≡ some j))
        → (m : ℕ) × (id' : String) × (j ≡ i + m)
          × (get_elem? (id ∷ ids) m ≡ some id')
          × ((id' ==ˢ node) ≡ false)
    later rest (k', h') =
        let (m, id', e, found, differs) = rest k' j h' in
        (suc m, id', omega (arith, e), found, differs)

-- A node that is not excluded is a candidate.
candidates_from-some :
    (i : ℕ) (node : String) (ids : List String) (m : ℕ) (id : String)
    → get_elem? ids m ≡ some id
    → (id ==ˢ node) ≡ false
    → 0 < length (candidates_from i node ids)
unfolding candidates_from
candidates_from-some i node [] m id h differs = cc
candidates_from-some i node (x ∷ ids) m id h differs = elim (get_elem?-cons x ids m id h) [
  | inl e ↦ rw (sym e, differs) (omega arith)
  | inr (m', h') ↦ ground (arith, candidates_from-some (suc i) node ids m' id h' differs)
]

module _ {SubConn : Type 0} where
  -- The connection of a node: its index is also that of the node's id.
  abbrev pub IsConnOf : RoutingPicker SubConn → (String → Type 0) → PickResult SubConn → Type 0
  IsConnOf p Q result =
      (i : ℕ) × (id : String) × (c : SubConn) × (get_elem? p.node_ids i ≡ some id)
      × (get_elem? p.sub_conns i ≡ some c)
      × Q id
      × (result ≡ picked c)

  conn_of :
      (p : RoutingPicker SubConn) (Q : String → Type 0) (i : ℕ) (id : String)
      → length p.sub_conns ≡ length p.node_ids
      → get_elem? p.node_ids i ≡ some id
      → Q id
      → IsConnOf p Q (at_index p.sub_conns i)
  conn_of p Q i id same found q =
      let (c, found_c) =
        get_elem?-lt p.sub_conns i (omega (arith, lt-get_elem? p.node_ids i id found, same)) in
      (i, id, c, found, found_c, q, rw found_c refl)

  -- If each connection has a node id and there is one, then a call that names a node gets a
  -- connection with that node id, or it is refused and the search finds no such id; either way the
  -- turn does not pass.
  pub pick_specific_node :
      (r : Routing) (p : RoutingPicker SubConn) (node : String)
      → length p.sub_conns ≡ length p.node_ids
      → 0 < length p.sub_conns
      → get_specific_node_id r ≡ some node
      → ((pick r p).1 ≡ p)
        × (IsConnOf p (λ id. (id ==ˢ node) ≡ true) (pick r p).0
            ⊎ (((pick r p).0 ≡ unavailable) × (index_from 0 node p.node_ids ≡ none)))
  unfolding pick
  pick_specific_node r p node same ready wants =
      let open_ : (length p.sub_conns == 0) ≡ false = ground (arith, ready) in
      elim (Option-cases (index_from 0 node p.node_ids)) [
        | inl missing ↦ rw (open_, wants, missing) (refl, inr (refl, refl))
        | inr (j, hit) ↦
            let (m, id, e, found, is_node) = index_from_sound 0 node p.node_ids j hit in
            let at_m : j ≡ m = omega (arith, e) in
            rw (open_, wants, hit, at_m)
              (refl, inl (conn_of p (λ id. (id ==ˢ node) ≡ true) m id same found is_node))
      ]

  pick_round_robin-picked :
      (p : RoutingPicker SubConn)
      → 0 < length p.sub_conns
      → (c : SubConn) × (i : ℕ) × (get_elem? p.sub_conns i ≡ some c)
        × ((pick_round_robin p).0 ≡ picked c)
  unfolding pick_round_robin
  pick_round_robin-picked p ready =
      let i = turn p % length p.sub_conns in
      let (c, found) = get_elem?-lt p.sub_conns i (mod-lt (turn p) ready) in
      (c, i, found, rw found refl)

  pick_candidate-picked :
      (p : RoutingPicker SubConn) (Q : String → Type 0) (candidates : List ℕ)
      → length p.sub_conns ≡ length p.node_ids
      → 0 < length candidates
      → ((k j : ℕ)
          → get_elem? candidates k ≡ some j
          → (id : String) × (get_elem? p.node_ids j ≡ some id) × Q id)
      → IsConnOf p Q (pick_candidate p candidates).0
  pick_candidate-picked p Q [] same some_left sound = absurd (omega (arith, some_left))
  pick_candidate-picked p Q (c ∷ cs) same some_left sound =
      let k = turn p % length (c ∷ cs) in
      let (j, found) = get_elem?-lt (c ∷ cs) k (mod-lt (turn p) some_left) in
      let (id, found_id, q) = sound k j found in rw found (conn_of p Q j id same found_id q)

  -- If each connection has a node id, a call names no node, excludes one, and the picker has a
  -- connection of another node, then the call gets a connection whose node id is not the excluded
  -- one.
  pub pick_excluded_node :
      (r : Routing) (p : RoutingPicker SubConn) (node : String) (i : ℕ) (other : String)
      → length p.sub_conns ≡ length p.node_ids
      → get_specific_node_id r ≡ none
      → get_exclude_node r ≡ some node
      → get_elem? p.node_ids i ≡ some other
      → (other ==ˢ node) ≡ false
      → IsConnOf p (λ id. (id ==ˢ node) ≡ false) (pick r p).0
  unfolding pick
  pick_excluded_node r p node i other same no_wish excludes found differs =
      let i_lt = lt-get_elem? p.node_ids i other found in
      let open_ : (length p.sub_conns == 0) ≡ false = ground (arith, i_lt, same) in
      let left = candidates_from-some 0 node p.node_ids i other found differs in
      elim (Bool-cases (length p.sub_conns == 1)) [
        | inl single ↦
            let (c, k, found_c, result) = pick_round_robin-picked p (omega (arith, i_lt, same)) in
            let one : length p.sub_conns ≡ 1 = ground (arith, single) in
            let k_is_i : k ≡ i =
              omega (arith, lt-get_elem? p.sub_conns k c found_c, i_lt, same, one) in
            rw (open_, no_wish, excludes, single)
              (k, other, c, rw k_is_i found, found_c, differs, result)
        | inr several ↦
            rw (open_, no_wish, excludes, several)
              (pick_candidate-picked p (λ id. (id ==ˢ node) ≡ false)
                (candidates_from 0 node p.node_ids) same left
                (λ k j h.
                  let (m, id, e, found_id, q) = candidates_from_sound 0 node p.node_ids k j h in
                  let at_m : j ≡ m = omega (arith, e) in (id, rw at_m found_id, q)))
      ]
