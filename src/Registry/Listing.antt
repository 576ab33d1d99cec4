-- ===== src/Registry/Listing.antt =====
-- Which instances a service lists.
use ework_runner.Prelude.{
  String, Bool, true, false, Option, none, some, List, [], ◌∷◌, eq_refl, ◌≡◌, refl, sym, ap, ◌∙◌,
  ◌++◌ as ◌++ˡ◌,
}
use Prim.Native.String.{◌++◌}
use text.Mathlib.TextBridge.{IsPrefix}
use text.Mathlib.TextLemmas.{append_assoc}
use mathlib.Core.List.{Memᴰ}
use mathlib.Core.List.Memᴰ.{head, tail}
use ework_runner.Action.{Result, ok, err, panic}
use ework_runner.Registry.{
  ServiceInstance, Etcd, IsStore, WatchResponse, canceled, watch_error, changes, forwarded,
  instance_key, with_instance, decode_all, decode_answer, service_key, when_done, register,
  unregister, list_services,
}

module _ {C E : Type 0} (event_of : C → E) where
  -- After a canceled answer of the watch nothing is forwarded any more.
  pub forwarded-canceled :
      (before after : List (WatchResponse C))
      → forwarded event_of (before ++ˡ canceled ∷ after) ≡ forwarded event_of before
  unfolding forwarded
  forwarded-canceled [] after = refl
  forwarded-canceled (canceled ∷ before) after = refl
  forwarded-canceled (watch_error ∷ before) after = forwarded-canceled before after
  forwarded-canceled (changes events ∷ before) after = simp (forwarded-canceled before after)

with_instance-ok :
    {Float : Type 0} (first : Option (ServiceInstance Float))
    (rest : Result (List (ServiceInstance Float))) (found : List (ServiceInstance Float))
    → with_instance first rest ≡ ok found
    → (si : ServiceInstance Float) × (others : List (ServiceInstance Float)) × (first ≡ some si)
      × (rest ≡ ok others)
      × (found ≡ si ∷ others)
with_instance-ok none rest found h = cc
with_instance-ok (some si) (ok others) found h = (si, others, refl, refl, cc)
with_instance-ok (some si) (err e) found h = cc
with_instance-ok (some si) panic found h = cc

pub when_done-ok :
    {S : Type 0} (r : Bool × S) → (when_done r).0 ≡ ok tt → (r.0 ≡ true) × ((when_done r).1 ≡ r.1)
when_done-ok (true, s) h = (refl, refl)
when_done-ok (false, s) h = cc

-- What is decoded from a list holds the instance of each value of it.
decode_all-mem :
    {Float : Type 0} (unmarshal : String → Option (ServiceInstance Float)) (vs : List String)
    (v : String) (si : ServiceInstance Float) (found : List (ServiceInstance Float))
    → Memᴰ v vs
    → unmarshal v ≡ some si
    → decode_all unmarshal vs ≡ ok found
    → Memᴰ si found
unfolding decode_all
decode_all-mem unmarshal [] v si found m d h = elim m [ ]
decode_all-mem unmarshal (w ∷ vs) v si found (head e) d h =
    let (si', others, at, rest, all) =
      with_instance-ok (unmarshal w) (decode_all unmarshal vs) found h in
    rw all (head (cc (e, d, at)))
decode_all-mem unmarshal (w ∷ vs) v si found (tail m) d h =
    let (si', others, at, rest, all) =
      with_instance-ok (unmarshal w) (decode_all unmarshal vs) found h in
    rw all (tail (decode_all-mem unmarshal vs v si others m d rest))

module _ {Float S : Type 0} (etcd : Etcd S) (value : String → S → Option String)
    (prefix : String) where
  -- A registration stores the JSON of the instance under its key.
  pub register-value :
      (marshal : ServiceInstance Float → Option String) (si : ServiceInstance Float) (v : String)
      (s : S)
      → IsStore etcd value
      → marshal si ≡ some v
      → (register etcd prefix marshal si s).0 ≡ ok tt
      → value (instance_key prefix si) (register etcd prefix marshal si s).1 ≡ some v
  unfolding register
  register-value marshal si v s laws m done =
      let key = instance_key prefix si in
      let (worked, same) = when_done-ok (etcd.put key v s) (rw m at done) in
      simp (m, same, laws.put_law key v key s worked, eq_refl key)

  -- After a deregistration nothing is stored under the key of the instance.
  pub unregister-value :
      (si : ServiceInstance Float) (s : S)
      → IsStore etcd value
      → (unregister etcd prefix si s).0 ≡ ok tt
      → value (instance_key prefix si) (unregister etcd prefix si s).1 ≡ none
  unfolding unregister
  unregister-value si s laws done =
      let key = instance_key prefix si in
      let (worked, same) = when_done-ok (etcd.delete key s) done in
      simp (same, laws.delete_law key key s worked, eq_refl key)

module _ {Float S : Type 0} (etcd : Etcd S) (value : String → S → Option String) (prefix : String)
    (marshal : ServiceInstance Float → Option String)
    (unmarshal : String → Option (ServiceInstance Float)) where
  -- An instance stored under its key is in each answer for a beginning of its service's name.
  pub list_services-begins :
      (si : ServiceInstance Float) (name rest v : String) (s : S)
      (found : List (ServiceInstance Float))
      → IsStore etcd value
      → si.name ≡ name ++ rest
      → value (instance_key prefix si) s ≡ some v
      → unmarshal v ≡ some si
      → list_services etcd prefix unmarshal name s ≡ ok found
      → Memᴰ si found
  unfolding list_services
  list_services-begins si name rest v s found laws begins stored d h =
      answer (etcd.get_with_prefix (service_key prefix name) s) refl
    where
      under : IsPrefix (service_key prefix name) (instance_key prefix si)
      under = (rest ++ "/" ++ si.address, simp (begins, append_assoc))

      answer :
          (vs : Option (List String))
          → etcd.get_with_prefix (service_key prefix name) s ≡ vs
          → Memᴰ si found
      answer none e = absurd (cc (e, h))
      answer (some vs) e =
          decode_all-mem unmarshal vs v si found
            (laws.lists_all (service_key prefix name) (instance_key prefix si) v vs s e under
              stored)
            d (sym (ap (decode_answer unmarshal) e) ∙ h)

  -- If instances come back from their JSON, a registered instance is in each later answer for a
  -- text that its service's name begins with, whether that text is the name or the shorter name
  -- of another service.
  pub register-list_services :
      (si : ServiceInstance Float) (name rest v : String) (s : S)
      (found : List (ServiceInstance Float))
      → IsStore etcd value
      → marshal si ≡ some v
      → unmarshal v ≡ some si
      → si.name ≡ name ++ rest
      → (register etcd prefix marshal si s).0 ≡ ok tt
      → list_services etcd prefix unmarshal name (register etcd prefix marshal si s).1 ≡ ok found
      → Memᴰ si found
  register-list_services si name rest v s found laws m d begins done h =
      list_services-begins si name rest v _ found laws begins
        (register-value etcd value prefix marshal si v s laws m done) d h
