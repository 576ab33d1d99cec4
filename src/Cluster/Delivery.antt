-- ===== src/Cluster/Delivery.antt =====
-- The loop of the completion consumer, as turns of the system.
use ework_runner.Prelude.{
  ℕ, String, ◌≡◌, refl, ap, ◌∙◌, Option, some, List, [], ◌∷◌, map, get_elem?,
}
use ework_runner.Env.{Env, World, Event}
use ework_runner.Queue as queue
use ework_runner.Queue.{Input, message, inner_done, outer_done, channel_closed}
use ework_runner.Complete.{consume}
use ework_runner.Cluster.{consumes, take_turn, take_turns}

module _ (env : Env) (unmarshal : String → Option Event) where
  -- The loop meets a message for each of some events, which the broker holds at that moment, and
  -- then perhaps its end.
  abbrev pub Delivers : List ℕ → List Input → World → Type 0
  Delivers [] [] w = Unit {0}
  Delivers [] (inner_done ∷ inputs) w = Unit {0}
  Delivers [] (outer_done ∷ inputs) w = Unit {0}
  Delivers [] (channel_closed ∷ inputs) w = Unit {0}
  Delivers [] (message m ∷ inputs) w = ⊥
  Delivers (n ∷ ns) [] w = ⊥
  Delivers (n ∷ ns) (inner_done ∷ inputs) w = ⊥
  Delivers (n ∷ ns) (outer_done ∷ inputs) w = ⊥
  Delivers (n ∷ ns) (channel_closed ∷ inputs) w = ⊥
  Delivers (n ∷ ns) (message m ∷ inputs) w =
      (e : Event) × (get_elem? w.events n ≡ some e)
      × (unmarshal m ≡ some e)
      × Delivers ns inputs (consume env unmarshal m w).1

  -- The loop of the completion consumer does to the shared state the turns of the events that it
  -- gets, in their order, whatever the handling of one returns.
  pub consume-take_turns :
      (ns : List ℕ) (inputs : List Input) (w : World)
      → Delivers ns inputs w
      → queue.consume (consume env unmarshal) inputs w ≡ take_turns env (map consumes ns) w
  unfolding queue.consume take_turns take_turn consume
  consume-take_turns [] [] w d = refl
  consume-take_turns [] (inner_done ∷ inputs) w d = refl
  consume-take_turns [] (outer_done ∷ inputs) w d = refl
  consume-take_turns [] (channel_closed ∷ inputs) w d = refl
  consume-take_turns [] (message m ∷ inputs) w d = elim d [ ]
  consume-take_turns (n ∷ ns) [] w d = elim d [ ]
  consume-take_turns (n ∷ ns) (inner_done ∷ inputs) w d = elim d [ ]
  consume-take_turns (n ∷ ns) (outer_done ∷ inputs) w d = elim d [ ]
  consume-take_turns (n ∷ ns) (channel_closed ∷ inputs) w d = elim d [ ]
  consume-take_turns (n ∷ ns) (message m ∷ inputs) w (e, held, read, rest) =
      consume-take_turns ns inputs (consume env unmarshal m w).1 rest
      ∙ ap (take_turns env (map consumes ns)) (rw read (rw held refl))
