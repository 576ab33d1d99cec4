-- ===== src/Queue.antt =====
-- pkg/mpx: producers and consumers of a message queue.
pub mod Topics
use ework_runner.Prelude.{
  String, Bool, true, false, Option, none, some, List, [], ◌∷◌, ◌==ˢ◌, if◌then◌else◌,
}
use ework_runner.Prelude.Table.{get, put}
use ework_runner.Domain.Errors.{Error, json_failed, broker_failed, topic_exists, topic_missing}
use ework_runner.Action.{Action, Result, ok, err, panic, pure, ◌>>=◌, ◌>>◌}

-- The queue library, on a state `S` of the broker: a call answers false when it fails.
pub record Broker (S : Type 0) : Type 0 where
  pub new_producer : String → S → Bool × S
  pub send : String → String → S → Bool × S  -- a message to a topic

-- MultipleProducer: the topics that have a producer, and the broker.
pub record MultipleProducer (S : Type 0) : Type 0 where
  pub producers : List (String × Unit {0})
  pub broker : S

-- What the select of a consumer's loop meets.
pub data Input : Type 0 where
  inner_done : Input
  outer_done : Input
  channel_closed : Input
  message : String → Input

module _ {S : Type 0} (broker : Broker S) where
  abbrev pub or_failed : Error → Bool × S → Result (Unit {0}) × S
  or_failed e (true, s) = (ok tt, s)
  or_failed e (false, s) = (err e, s)

  -- NewGeneralProducer
  unfoldable pub new_general_producer : String → Action S (Unit {0})
  new_general_producer topic s = or_failed broker_failed (broker.new_producer topic s)

  abbrev pub keep_producer :
      String → MultipleProducer S → Result (Unit {0}) × S → Result (Unit {0}) × MultipleProducer S
  keep_producer topic p (ok _, s) =
      (ok tt, record { producers = put ◌==ˢ◌ topic tt p.producers; broker = s })
  keep_producer topic p (err e, s) = (err e, record p { broker = s })
  keep_producer topic p (panic, s) = (panic, record p { broker = s })

  abbrev pub add_to : Option (Unit {0}) → String → Action (MultipleProducer S) (Unit {0})
  add_to (some _) topic p = (err topic_exists, p)
  add_to none topic p = keep_producer topic p (new_general_producer topic p.broker)

  unfoldable pub add_producer : String → Action (MultipleProducer S) (Unit {0})
  add_producer topic p = add_to (get ◌==ˢ◌ topic p.producers) topic p

  module _ {T : Type 0} (marshal : T → Option String) where
    abbrev pub send_text : Option String → String → Action S (Unit {0})
    send_text none topic s = (err json_failed, s)
    send_text (some text) topic s = or_failed broker_failed (broker.send topic text s)

    -- Produce of a GeneralProducer
    unfoldable pub produce : String → T → Action S (Unit {0})
    produce topic evt = send_text (marshal evt) topic

    abbrev pub produce_to : Option (Unit {0}) → String → T → Action (MultipleProducer S) (Unit {0})
    produce_to none topic evt p = (err topic_missing, p)
    produce_to (some _) topic evt p =
        let (r, s) = produce topic evt p.broker in (r, record p { broker = s })

    -- Produce of a MultipleProducer
    unfoldable pub produce_multiple : String → T → Action (MultipleProducer S) (Unit {0})
    produce_multiple topic evt p = produce_to (get ◌==ˢ◌ topic p.producers) topic evt p

-- The loop of a consumer over what it meets: an error of `consume_func` is logged only.
unfoldable pub consume : {W : Type 0} → (String → Action W (Unit {0})) → List Input → W → W
consume consume_func [] w = w
consume consume_func (inner_done ∷ inputs) w = w
consume consume_func (outer_done ∷ inputs) w = w
consume consume_func (channel_closed ∷ inputs) w = w
consume consume_func (message m ∷ inputs) w = consume consume_func inputs (consume_func m w).1

module _ {S C : Type 0} (open_consumer : String → String → Action S C) where
  module _ (consume_chan : C → Action S (Unit {0})) where
    -- Start of a consumer, which gives the goroutine that it begins: what that does to the state for
    -- the inputs that it will meet.
    unfoldable pub start :
        String → String → (String → Action S (Unit {0})) → Action S (List Input → S → S)
    start name topic consume_func = do
      consumer ← open_consumer topic name
      consume_chan consumer
      pure (consume consume_func)
