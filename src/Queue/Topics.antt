-- ===== src/Queue/Topics.antt =====
-- Which topics a MultipleProducer sends to.
use ework_runner.Prelude.{
  String, false, ◌≡◌, refl, inl, inr, Option, ◌==ˢ◌, eq_iff, arith, Option-cases,
}
use ework_runner.Prelude.Table.{get, get-put}
use ework_runner.Action.{Result, ok, err, panic}
use ework_runner.Queue.{Broker, MultipleProducer, new_general_producer, keep_producer, add_producer}

module _ {S T : Type 0} (broker : Broker S) (marshal : T → Option String) where
  -- Adding a topic changes what is sent to that topic only: any other topic has a producer
  -- afterwards exactly if it had one.
  pub add_producer-elsewhere :
      (topic other : String) (p : MultipleProducer S)
      → (topic ==ˢ other) ≡ false
      → get ◌==ˢ◌ other (add_producer broker topic p).1.producers ≡ get ◌==ˢ◌ other p.producers
  unfolding add_producer
  add_producer-elsewhere topic other p differs = elim (Option-cases (get ◌==ˢ◌ topic p.producers)) [
    | inr (u, e) ↦ rw e refl
    | inl e ↦ rw e (kept (new_general_producer broker topic p.broker))
  ]
    where
      kept :
          (r : Result (Unit {0}) × S)
          → get ◌==ˢ◌ other (keep_producer broker topic p r).1.producers
            ≡ get ◌==ˢ◌ other p.producers
      kept (ok _, s) = ground (arith, differs, get-put ◌==ˢ◌ eq_iff topic other tt p.producers)
      kept (err e, s) = refl
      kept (panic, s) = refl
