-- ===== src/Cluster/Loops.antt =====
-- The endless loops of the compensators, as turns of the system.
use ework_runner.Prelude.{
  ℕ, zero, suc, ◌≤◌, ℤ, String, ◌≡◌, refl, sym, ap, ◌∙◌, ◌⊎◌, inl, inr, List, [], ◌∷◌, arith,
}
use ework_runner.Action.{Result, ok, err, panic, handle_result, pure, continue}
use ework_runner.Env.{Env, World, Act}
use ework_runner.Compensator.{retry_round, reschedule_round, interrupt_round}
use ework_runner.Compensator.Loops.{
  Pass, done_before, done_after, goes_on, loop, start_retry, start_reschedule, start_interrupt,
}
use ework_runner.Cluster.{Turn, retries, reschedules, interrupts, take_turn, take_turns}

abbrev pub repeat : ℕ → Turn → List Turn
repeat zero t = []
repeat (suc n) t = t ∷ repeat n t

-- How many rounds the passes leave time for, up to the end of the context.
abbrev pub rounds_in : List Pass → ℕ
rounds_in [] = 0
rounds_in (done_before ∷ passes) = 0
rounds_in (done_after ∷ passes) = 1
rounds_in (goes_on ∷ passes) = suc (rounds_in passes)

-- Exactly so many turns of one kind; or fewer, of which the last ended in a panic.
abbrev pub Makes : Env → Turn → ℕ → World → Result (Unit {0}) × World → Type 0
Makes env t rounds w (r, w') =
    ((r ≡ ok tt) × (w' ≡ take_turns env (repeat rounds t) w))
    ⊎ ((r ≡ panic) × (n : ℕ) × (suc n ≤ rounds) × (w' ≡ take_turns env (repeat (suc n) t) w))

module _ (env : Env) where
  one_turn :
      (t : Turn) (w w₁ : World) (r : Result (Unit {0}))
      → take_turn env t w ≡ w₁
      → Makes env t 1 w (handle_result r pure (λ e. pure tt) w₁)
  unfolding take_turns
  one_turn t w w₁ (ok _) e = inl (refl, rw e refl)
  one_turn t w w₁ (err x) e = inl (refl, rw e refl)
  one_turn t w w₁ panic e = inr (refl, 0, omega arith, rw e refl)

  more_turns :
      (t : Turn) (rounds : ℕ) (w w₁ : World) (rest : Result (Unit {0}) × World)
      → take_turn env t w ≡ w₁
      → Makes env t rounds w₁ rest
      → Makes env t (suc rounds) w rest
  unfolding take_turns
  more_turns t rounds w w₁ rest e (inl (ends, same)) =
      inl (ends, same ∙ ap (take_turns env (repeat rounds t)) (sym e))
  more_turns t rounds w w₁ rest e (inr (crashed, n, le, same)) =
      inr (crashed, suc n, omega arith, same ∙ ap (take_turns env (repeat (suc n) t)) (sym e))

  loop-Makes :
      (t : Turn) (round : Act (Unit {0}))
      → ((w : World) → take_turn env t w ≡ (round w).1)
      → (passes : List Pass) (w : World) → Makes env t (rounds_in passes) w (loop round passes w)
  unfolding loop take_turns
  loop-Makes t round turn [] w = inl (refl, refl)
  loop-Makes t round turn (done_before ∷ passes) w = inl (refl, refl)
  loop-Makes t round turn (done_after ∷ passes) w = one_turn t w (round w).1 (round w).0 (turn w)
  loop-Makes t round turn (goes_on ∷ passes) w =
      after (round w).0 (round w).1 (turn w) (loop-Makes t round turn passes (round w).1)
    where
      after :
          (r : Result (Unit {0})) (w₁ : World)
          → take_turn env t w ≡ w₁
          → Makes env t (rounds_in passes) w₁ (loop round passes w₁)
          → Makes env t (suc (rounds_in passes)) w (
              continue
                (handle_result r pure (λ e. pure tt) w₁).0
                (λ _. loop round passes)
                (handle_result r pure (λ e. pure tt) w₁).1)
      after (ok _) w₁ e rest = more_turns t _ w w₁ _ e rest
      after (err x) w₁ e rest = more_turns t _ w w₁ _ e rest
      after panic w₁ e rest = inr (refl, 0, omega arith, rw e refl)

  -- The loop of each of the three compensators does to the shared state as many rounds as there
  -- are passes before its context ends, one more if it ends only while the loop waits, and none
  -- after that; errors of a round change nothing of this, and only a panic ends a loop before.
  pub start-take_turns :
      (node : String) (batch_size : ℤ) (passes : List Pass) (w : World)
      → Makes env
          (retries node batch_size)
          (rounds_in passes)
          w
          (start_retry env node batch_size passes w)
        × Makes env
            (reschedules node batch_size)
            (rounds_in passes)
            w
            (start_reschedule env node batch_size passes w)
        × Makes env
            (interrupts batch_size)
            (rounds_in passes)
            w
            (start_interrupt env batch_size passes w)
  unfolding start_retry start_reschedule start_interrupt take_turn
  start-take_turns node batch_size passes w = (
    loop-Makes (retries node batch_size) (retry_round env node batch_size) (λ x. refl) passes w,
    loop-Makes (reschedules node batch_size) (reschedule_round env node batch_size) (λ x. refl)
        passes w,
    loop-Makes (interrupts batch_size) (interrupt_round env batch_size) (λ x. refl) passes w,
  )
