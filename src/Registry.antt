-- ===== src/Registry.antt =====
-- pkg/grpc/registry: the instances of a service in etcd.
pub mod Listing
pub mod Watch
pub mod Closing
use ework_runner.Prelude.{
  ℤ, String, Bool, true, false, Option, none, some, List, [], ◌∷◌, map, ◌==ˢ◌, if◌then◌else◌, ◌≡◌,
}
use Prim.Native.String.{◌++◌}
use text.Mathlib.TextBridge.{IsPrefix}
use mathlib.Core.List.{Memᴰ, ◌++◌ as ◌++ˡ◌}
use ework_runner.Domain.Errors.{etcd_failed, json_failed}
use ework_runner.Action.{Action, Result, ok, err, panic}

-- `Float` is Go's float64, which nothing here computes with.
pub record ServiceInstance (Float : Type 0) : Type 0 where
  pub name : String
  pub address : String
  pub id : String
  pub weight : ℤ
  pub init_capacity : ℤ
  pub max_capacity : ℤ
  pub increase_step : ℤ
  pub growth_rate : Float

pub data EventType : Type 0 where
  event_type_unknown event_type_add event_type_delete : EventType

unfoldable pub is_add : EventType → Bool
is_add event_type_unknown = false
is_add event_type_add = true
is_add event_type_delete = false

unfoldable pub is_delete : EventType → Bool
is_delete event_type_unknown = false
is_delete event_type_add = false
is_delete event_type_delete = true

-- The client of etcd, on a state `S` of etcd. A call answers false, or `none`, when it fails.
pub record Etcd (S : Type 0) : Type 0 where
  pub put : String → String → S → Bool × S
  pub delete : String → S → Bool × S
  pub get_with_prefix : String → S → Option (List String)  -- the values of the keys

-- What etcd documents of these calls, where `value` is the value of a key. A call that fails may
-- have changed anything.
pub record IsStore {S : Type 0} (etcd : Etcd S) (value : String → S → Option String) : Type 0 where
  pub put_law :
      (k v j : String) (s : S)
      → (etcd.put k v s).0 ≡ true
      → value j (etcd.put k v s).1 ≡ (if k ==ˢ j then some v else value j s)
  pub delete_law :
      (k j : String) (s : S)
      → (etcd.delete k s).0 ≡ true
      → value j (etcd.delete k s).1 ≡ (if k ==ˢ j then none else value j s)
  pub lists_all :
      (p k v : String) (vs : List String) (s : S)
      → etcd.get_with_prefix p s ≡ some vs
      → IsPrefix p k
      → value k s ≡ some v
      → Memᴰ v vs

-- What a watch of etcd reports.
pub data EtcdEvent : Type 0 where
  put_event delete_event : EtcdEvent

-- An answer of a watch, with its changes as `C`.
pub data WatchResponse (C : Type 0) : Type 0 where
  canceled : WatchResponse C
  watch_error : WatchResponse C
  changes : List C → WatchResponse C

unfoldable pub types_map : EtcdEvent → EventType
types_map put_event = event_type_add
types_map delete_event = event_type_delete

module _ {C E : Type 0} (event_of : C → E) where
  -- The goroutine of Subscribe: the events that it sends for the answers of the watch, in order.
  unfoldable pub forwarded : List (WatchResponse C) → List E
  forwarded [] = []
  forwarded (canceled ∷ responses) = []
  forwarded (watch_error ∷ responses) = forwarded responses
  forwarded (changes events ∷ responses) = map event_of events ++ˡ forwarded responses

module _ {Float : Type 0} where
  abbrev pub instance_key : String → ServiceInstance Float → String
  instance_key prefix si = prefix ++ "/" ++ si.name ++ "/" ++ si.address

  abbrev pub with_instance :
      Option (ServiceInstance Float)
      → Result (List (ServiceInstance Float))
      → Result (List (ServiceInstance Float))
  with_instance none rest = err json_failed
  with_instance (some si) (ok instances) = ok (si ∷ instances)
  with_instance (some si) (err e) = err e
  with_instance (some si) panic = panic

  -- `unmarshal` is json.Unmarshal into an instance.
  unfoldable pub decode_all :
      (String → Option (ServiceInstance Float))
      → List String
      → Result (List (ServiceInstance Float))
  decode_all unmarshal [] = ok []
  decode_all unmarshal (v ∷ vs) = with_instance (unmarshal v) (decode_all unmarshal vs)

  abbrev pub decode_answer :
      (String → Option (ServiceInstance Float))
      → Option (List String)
      → Result (List (ServiceInstance Float))
  decode_answer unmarshal none = err etcd_failed
  decode_answer unmarshal (some vs) = decode_all unmarshal vs

abbrev pub service_key : String → String → String
service_key prefix name = prefix ++ "/" ++ name

abbrev pub when_done : {S : Type 0} → Bool × S → Result (Unit {0}) × S
when_done (true, s) = (ok tt, s)
when_done (false, s) = (err etcd_failed, s)

module _ {Float S : Type 0} (etcd : Etcd S) (prefix : String) where
  abbrev pub put_value : Option String → ServiceInstance Float → Action S (Unit {0})
  put_value none si s = (err json_failed, s)
  put_value (some v) si s = when_done (etcd.put (instance_key prefix si) v s)

  -- `marshal` is json.Marshal of an instance.
  unfoldable pub register :
      (ServiceInstance Float → Option String) → ServiceInstance Float → Action S (Unit {0})
  register marshal si = put_value (marshal si) si

  unfoldable pub unregister : ServiceInstance Float → Action S (Unit {0})
  unregister si s = when_done (etcd.delete (instance_key prefix si) s)

  unfoldable pub list_services :
      (String → Option (ServiceInstance Float)) → String → S → Result (List (ServiceInstance Float))
  list_services unmarshal name s =
      decode_answer unmarshal (etcd.get_with_prefix (service_key prefix name) s)
