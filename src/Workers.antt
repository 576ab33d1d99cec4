-- ===== src/Workers.antt =====
-- pkg/registry: the workers that take scripts from the queue, in etcd.
pub mod Names
use ework_runner.Prelude.{
  String, Bool, true, false, Option, none, some, List, [], ◌∷◌, map, ◌++◌ as ◌++ˡ◌, ◌==ˢ◌,
}
use Prim.Native.String.{◌++◌}
use ework_runner.Domain.Errors.{json_failed, etcd_failed}
use ework_runner.Action.{Action, Result, ok, err, panic}
use ework_runner.Registry.Watch.{Signal, Watching, steps}
use ework_runner.Registry.{Etcd, EventType, event_type_add, event_type_delete, when_done}

pub record Instance : Type 0 where
  pub name : String
  pub desc : String
  pub topic : String

-- The zero value, which an event has whose value is not read.
abbrev pub no_instance : Instance
no_instance = record { name = ""; desc = ""; topic = "" }

pub record Event : Type 0 where
  pub type : EventType
  pub key : String
  pub instance_ : Instance

-- A change that a watch reports, with its key and, for a PUT, its value.
pub data Change : Type 0 where
  put_change : String → String → Change
  delete_change : String → Change

abbrev pub instance_key : Instance → String
instance_key i = "/task/worker/" ++ i.name

abbrev pub service_key : String → String
service_key name = "/task/" ++ name

module _ {S : Type 0} (etcd : Etcd S) where
  -- An instance that cannot be written as JSON is no error.
  abbrev pub put_value : Option String → Instance → Action S (Unit {0})
  put_value none i s = (ok tt, s)
  put_value (some v) i s = when_done (etcd.put (instance_key i) v s)

  -- `marshal` is json.Marshal of an instance.
  unfoldable pub register : (Instance → Option String) → Instance → Action S (Unit {0})
  register marshal i = put_value (marshal i) i

  unfoldable pub unregister : Instance → Action S (Unit {0})
  unregister i s = when_done (etcd.delete (instance_key i) s)

module _ (unmarshal : String → Option Instance) where
  abbrev pub with_instance : Option Instance → Result (List Instance) → Result (List Instance)
  with_instance none rest = err json_failed
  with_instance (some i) (ok instances) = ok (i ∷ instances)
  with_instance (some i) (err e) = err e
  with_instance (some i) panic = panic

  unfoldable pub decode_all : List String → Result (List Instance)
  decode_all [] = ok []
  decode_all (v ∷ vs) = with_instance (unmarshal v) (decode_all vs)

  abbrev pub decode_answer : Option (List String) → Result (List Instance)
  decode_answer none = err etcd_failed
  decode_answer (some vs) = decode_all vs

  unfoldable pub list_workers : {S : Type 0} → Etcd S → String → S → Result (List Instance)
  list_workers etcd name s = decode_answer (etcd.get_with_prefix (service_key name) s)

  -- A value that is no JSON is logged, and the event has the zero instance.
  abbrev pub or_no_instance : Option Instance → Instance
  or_no_instance none = no_instance
  or_no_instance (some i) = i

  abbrev pub event_of : Change → Event
  event_of (put_change k v) = record {
    type = event_type_add;
    key = k;
    instance_ = or_no_instance (unmarshal v);
  }
  event_of (delete_change k) = record { type = event_type_delete; key = k; instance_ = no_instance }

  -- The goroutine of Subscribe, from where it stands on, and the events that its subscriber gets.
  unfoldable pub subscribed : List Signal → Watching Change → List Event × Watching Change
  subscribed signals s = steps event_of signals s
