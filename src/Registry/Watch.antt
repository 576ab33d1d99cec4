-- ===== src/Registry/Watch.antt =====
-- pkg/grpc/registry/etcd/registry.go and pkg/registry/etcd/registry.go: the goroutine that Subscribe
-- starts, and its channel. The two differ in what they make of a change, which is `event_of`.
use ework_runner.Prelude.{◌≡◌, refl, ap, ◌∙◌, List, [], ◌∷◌, ◌++◌, map, Option, none, some}
use ework_runner.Registry.{WatchResponse, canceled, watch_error, changes, forwarded}

-- The goroutine waits in its select, or for a receiver of the first of some events, or has ended.
pub data Forwarder (C : Type 0) : Type 0 where
  selecting : Forwarder C
  sending : C → List C → Forwarder C
  ended : Forwarder C

-- The answers of the watch that wait in its channel, and the goroutine.
pub record Watching (C : Type 0) : Type 0 where
  pub inbox : List (WatchResponse C)
  pub forwarder : Forwarder C

-- Who moves next: the goroutine with an answer or with the end of its context, or the subscriber.
pub data Signal : Type 0 where
  takes_answer : Signal
  context_done : Signal
  receives : Signal

module _ {C E : Type 0} (event_of : C → E) where
  abbrev pub send : List C → Forwarder C
  send [] = selecting
  send (e ∷ events) = sending e events

  abbrev pub answered : WatchResponse C → Forwarder C
  answered canceled = ended
  answered watch_error = selecting
  answered (changes events) = send events

  -- A case of the select, and a send that meets its receiver. A move that is not possible as the
  -- goroutine stands changes nothing: in a send it waits for nothing but a receiver.
  abbrev pub move : Signal → List (WatchResponse C) → Forwarder C → Option E × Watching C
  move takes_answer (r ∷ inbox) selecting = (none, record { inbox = inbox; forwarder = answered r })
  move takes_answer [] selecting = (none, record { inbox = []; forwarder = selecting })
  move takes_answer inbox (sending e events) =
      (none, record { inbox = inbox; forwarder = sending e events })
  move takes_answer inbox ended = (none, record { inbox = inbox; forwarder = ended })
  move context_done inbox selecting = (none, record { inbox = inbox; forwarder = ended })
  move context_done inbox (sending e events) =
      (none, record { inbox = inbox; forwarder = sending e events })
  move context_done inbox ended = (none, record { inbox = inbox; forwarder = ended })
  move receives inbox selecting = (none, record { inbox = inbox; forwarder = selecting })
  move receives inbox (sending e events) =
      (some (event_of e), record { inbox = inbox; forwarder = send events })
  move receives inbox ended = (none, record { inbox = inbox; forwarder = ended })

  -- The next state, and the event that the subscriber gets.
  unfoldable pub step : Signal → Watching C → Option E × Watching C
  step signal s = move signal s.inbox s.forwarder

  abbrev pub cons_some : Option E → List E → List E
  cons_some none es = es
  cons_some (some e) es = e ∷ es

  -- What the subscriber gets, and how the goroutine stands afterwards.
  unfoldable pub steps : List Signal → Watching C → List E × Watching C
  steps [] s = ([], s)
  steps (signal ∷ signals) s =
      let (e, s') = step signal s in let (es, s'') = steps signals s' in (cons_some e es, s'')

  -- What a subscriber can still get.
  abbrev pub remaining_from : List (WatchResponse C) → Forwarder C → List E
  remaining_from inbox selecting = forwarded event_of inbox
  remaining_from inbox (sending e events) = map event_of (e ∷ events) ++ forwarded event_of inbox
  remaining_from inbox ended = []

  abbrev pub remaining : Watching C → List E
  remaining s = remaining_from s.inbox s.forwarder

  -- No move was the end of the context.
  abbrev pub NoDone : List Signal → Type 0
  NoDone [] = Unit {0}
  NoDone (takes_answer ∷ signals) = NoDone signals
  NoDone (context_done ∷ signals) = ⊥
  NoDone (receives ∷ signals) = NoDone signals

  -- What was received, and a rest, are what could be received; nothing is lost but by a cancel.
  abbrev pub Delivers : List Signal → List E → List E × Watching C → Type 0
  Delivers signals all (es, s') =
      (rest : List E) × (es ++ rest ≡ all) × (NoDone signals → rest ≡ remaining s')

  remaining-send :
      (events : List C) (inbox : List (WatchResponse C))
      → remaining_from inbox (send events) ≡ map event_of events ++ forwarded event_of inbox
  remaining-send [] inbox = refl
  remaining-send (e ∷ events) inbox = refl

  remaining-answered :
      (r : WatchResponse C) (inbox : List (WatchResponse C))
      → remaining_from inbox (answered r) ≡ forwarded event_of (r ∷ inbox)
  unfolding forwarded
  remaining-answered canceled inbox = refl
  remaining-answered watch_error inbox = refl
  remaining-answered (changes events) inbox = remaining-send events inbox

  -- The goroutine has ended, and nothing comes any more.
  steps-ended :
      (signals : List Signal) (inbox : List (WatchResponse C))
      → steps signals (record { inbox = inbox; forwarder = ended })
        ≡ ([], record { inbox = inbox; forwarder = ended })
  unfolding steps step
  steps-ended [] inbox = refl
  steps-ended (takes_answer ∷ signals) inbox = rw (steps-ended signals inbox) refl
  steps-ended (context_done ∷ signals) inbox = rw (steps-ended signals inbox) refl
  steps-ended (receives ∷ signals) inbox = rw (steps-ended signals inbox) refl

  steps-remaining :
      (signals : List Signal) (inbox : List (WatchResponse C)) (f : Forwarder C)
      → let s : Watching C = record { inbox = inbox; forwarder = f } in
        Delivers signals (remaining s) (steps signals s)
  unfolding steps step
  steps-remaining [] inbox f = (_, refl, λ h. refl)
  steps-remaining (takes_answer ∷ signals) [] selecting = steps-remaining signals [] selecting
  steps-remaining (takes_answer ∷ signals) (r ∷ inbox) selecting =
      let (rest, same, kept) = steps-remaining signals inbox (answered r) in
      (rest, same ∙ remaining-answered r inbox, kept)
  steps-remaining (takes_answer ∷ signals) inbox (sending e events) =
      steps-remaining signals inbox (sending e events)
  steps-remaining (takes_answer ∷ signals) inbox ended = steps-remaining signals inbox ended
  steps-remaining (context_done ∷ signals) inbox selecting =
      (forwarded event_of inbox, rw (steps-ended signals inbox) refl, λ h. elim h [ ])
  steps-remaining (context_done ∷ signals) inbox (sending e events) =
      let (rest, same, kept) = steps-remaining signals inbox (sending e events) in
      (rest, same, λ h. elim h [ ])
  steps-remaining (context_done ∷ signals) inbox ended =
      let (rest, same, kept) = steps-remaining signals inbox ended in (rest, same, λ h. elim h [ ])
  steps-remaining (receives ∷ signals) inbox selecting = steps-remaining signals inbox selecting
  steps-remaining (receives ∷ signals) inbox (sending e events) =
      let (rest, same, kept) = steps-remaining signals inbox (send events) in
      (rest, ap (λ es. event_of e ∷ es) (same ∙ remaining-send events inbox), kept)
  steps-remaining (receives ∷ signals) inbox ended = steps-remaining signals inbox ended

  -- However the goroutine, its subscriber and the end of its context take turns: what the
  -- subscriber has got is a beginning of the events of the answers up to the first canceled one,
  -- in their order; and as long as the context has not ended, the rest is what the goroutine has
  -- still to send, so that nothing is lost and nothing comes twice.
  pub steps-forwarded :
      (signals : List Signal) (responses : List (WatchResponse C))
      → Delivers signals
          (forwarded event_of responses)
          (steps signals (record { inbox = responses; forwarder = selecting }))
  steps-forwarded signals responses = steps-remaining signals responses selecting
