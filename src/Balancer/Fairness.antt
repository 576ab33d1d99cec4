-- ===== src/Balancer/Fairness.antt =====
-- Round robin serves every connection.
use ework_runner.Prelude.{
  ℕ, zero, suc, ◌+◌, ◌-◌, ◌%◌, ◌<◌, ◌≡◌, refl, sym, ap, ◌∙◌, none, some, false, ◌==◌, length,
  get_elem?, inl, inr, arith, ltb, Bool-cases,
}
use native.Mathlib.Nat.{mod-lt, mod-eq_of_lt, mod-add-mod, mod-eq-sub-mod}
use ework_runner.Balancer.Picks.{lt-get_elem?}
use ework_runner.Env.{Routing}
use ework_runner.Balancer.{
  pick, get_specific_node_id, get_exclude_node, RoutingPicker, picked, pick_round_robin, turn,
  advance,
}

-- The number of steps that lead to an index.
steps_to : (next n i : ℕ) → i < n → (k : ℕ) × (k < n) × ((next + k) % n ≡ i)
steps_to next n i h =
    let r_lt : next % n < n = mod-lt next (omega arith) in
    elim (Bool-cases (ltb i (next % n))) [
      | inl before ↦
          let k = i + n - next % n in
          let sum : next % n + k ≡ i + n = omega (arith, r_lt) in
          (
            k,
            ground (arith, before),
            sym (mod-add-mod next n k)
                ∙ ap (λ (m : ℕ). m % n) sum
                ∙ mod-eq-sub-mod (omega arith)
                ∙ ap (λ (m : ℕ). m % n) (omega arith)
                ∙ mod-eq_of_lt h,
          )
      | inr behind ↦
          let k = i - next % n in
          let sum : next % n + k ≡ i = ground (arith, behind) in
          (
            k,
            omega (arith, h),
            sym (mod-add-mod next n k) ∙ ap (λ (m : ℕ). m % n) sum ∙ mod-eq_of_lt h,
          )
    ]

-- The picker after a number of calls with the same routing.
unfoldable pub after :
    {SubConn : Type 0} → Routing → ℕ → RoutingPicker SubConn → RoutingPicker SubConn
after r zero p = p
after r (suc k) p = after r k (pick r p).1

module _ {SubConn : Type 0} (r : Routing) where
  pick_plain :
      (p : RoutingPicker SubConn)
      → get_specific_node_id r ≡ none
      → get_exclude_node r ≡ none
      → 0 < length p.sub_conns
      → pick r p ≡ pick_round_robin p
  unfolding pick
  pick_plain p no_wish no_exclude some_ready =
      let open_ : (length p.sub_conns == 0) ≡ false = ground (arith, some_ready) in
      rw (open_, no_wish, no_exclude) refl

  after-next :
      (k : ℕ) (p : RoutingPicker SubConn)
      → get_specific_node_id r ≡ none
      → get_exclude_node r ≡ none
      → 0 < length p.sub_conns
      → p.next + k < 0x100000000
      → ((after r k p).next ≡ p.next + k) × ((after r k p).sub_conns ≡ p.sub_conns)
  unfolding after pick_round_robin
  after-next zero p no_wish no_exclude some_ready h = (omega arith, refl)
  after-next (suc k) p no_wish no_exclude some_ready h =
      let (next, conns) = after-next k (advance p) no_wish no_exclude some_ready (omega arith) in
      simp (pick_plain p no_wish no_exclude some_ready) (omega (arith, next), conns)

  -- Calls that neither name nor exclude a node: unless the counter wraps around at 2 ^ 32, each
  -- connection is picked by one of as many calls in a row as there are connections.
  pub pick_serves :
      (p : RoutingPicker SubConn) (i : ℕ) (c : SubConn)
      → get_specific_node_id r ≡ none
      → get_exclude_node r ≡ none
      → get_elem? p.sub_conns i ≡ some c
      → p.next + length p.sub_conns < 0x100000000
      → (k : ℕ) × (k < length p.sub_conns) × ((pick r (after r k p)).0 ≡ picked c)
  unfolding pick_round_robin
  pick_serves p i c no_wish no_exclude found room =
      let i_lt = lt-get_elem? p.sub_conns i c found in
      let (k, k_lt, lands) = steps_to p.next (length p.sub_conns) i i_lt in
      let (next, conns) =
        after-next k p no_wish no_exclude (omega (arith, i_lt)) (omega (arith, k_lt, room)) in
      let on_turn : turn (after r k p) ≡ p.next + k = omega (arith, next, k_lt, room) in
      let there : 0 < length (after r k p).sub_conns = omega (arith, ap length conns, i_lt) in
      (
        k,
        k_lt,
        simp (pick_plain (after r k p) no_wish no_exclude there, conns, on_turn, lands, found),
      )
