-- ===== src/Server/Lifetime.antt =====
-- What starting and stopping a server leave behind.
use ework_runner.Prelude.{
  String, true, Option, none, some, ◌∷◌, ◌≡◌, refl, sym, ap, ◌∙◌, ◌⊎◌, inl, inr, arith, Bool-cases,
  Option-cases,
}
use ework_runner.Domain.Errors.{Error, listen_failed, json_failed, etcd_failed}
use ework_runner.Action.{Result, ok, err, panic, result_cases}
use ework_runner.Registry.{ServiceInstance, Etcd, IsStore, instance_key, register}
use ework_runner.Registry.Listing.{register-value}
use ework_runner.Server.Stopping.{stop_lem}
use ework_runner.Server.Addresses.{resolve_advertise_address-ne-panic}
use ework_runner.Server.{
  graceful_stop, Machine, Server, Node, or_close, close_last, own_instance,
  resolve_advertise_address, register_server, start_server, healthy,
}

or_close-ok :
    {S : Type 0} (l : String) (r : Result (Unit {0}) × Node S)
    → r.0 ≡ ok tt
    → or_close l r ≡ (ok l, r.1)
or_close-ok l (ok _, n) h = refl
or_close-ok l (err e, n) h = cc
or_close-ok l (panic, n) h = cc

or_close-err :
    {S : Type 0} (l : String) (e : Error) (r : Result (Unit {0}) × Node S)
    → r.0 ≡ err e
    → or_close l r ≡ (err e, close_last r.1)
or_close-err l e (ok _, n) h = cc
or_close-err l e (err e', n) h = ground (arith, h)
or_close-err l e (panic, n) h = cc

ok_inj : {A : Type 0} {a b : A} → ok a ≡ ok b → a ≡ b
ok_inj h = cc

module _ {S Float : Type 0} (etcd : Etcd S) (prefix : String)
    (marshal : ServiceInstance Float → Option String) where
  register-marshal :
      (si : ServiceInstance Float) (s : S)
      → (((v : String) × (marshal si ≡ some v) × ((register etcd prefix marshal si s).0 ≡ ok tt))
          ⊎ ((e : Error) × ((register etcd prefix marshal si s).0 ≡ err e)))
  unfolding register
  register-marshal si s = elim (Option-cases (marshal si)) [
    | inl e ↦ inr (json_failed, simp e)
    | inr (v, e) ↦ elim (Bool-cases (etcd.put (instance_key prefix si) v s).0) [
      | inl worked ↦ inl (v, e, ground (arith, e, worked))
      | inr not_worked ↦ inr (etcd_failed, ground (arith, e, not_worked))
    ]
  ]

module _ {S Float : Type 0} (machine : Machine) (etcd : Etcd S) (value : String → S → Option String)
    (prefix : String) (marshal : ServiceInstance Float → Option String) (zero_float : Float) where
  -- What a registration does, for a server with a registry.
  register_server_cases :
      (addr : String) (n : Node S)
      → IsStore etcd value
      → n.server.has_registry ≡ true
      → let si = own_instance zero_float n.server addr in
        let m = (register_server zero_float etcd prefix marshal addr n).1 in
        (m.listeners ≡ n.listeners)
        × (m.server ≡ record n.server { registered_addr = addr })
        × (((v : String) × ((register_server zero_float etcd prefix marshal addr n).0 ≡ ok tt)
              × (marshal si ≡ some v)
              × (value (instance_key prefix si) m.etcd ≡ some v))
            ⊎ ((e : Error) × ((register_server zero_float etcd prefix marshal addr n).0 ≡ err e)))
  unfolding register_server
  register_server_cases addr n laws has =
      let si = own_instance zero_float n.server addr in
      simp has (
        refl,
        refl,
        elim (register-marshal etcd prefix marshal si n.etcd) [
          | inl (v, m, worked) ↦
              inl (v, worked, m, register-value etcd value prefix marshal si v n.etcd laws m worked)
          | inr (e, refused) ↦ inr (e, refused)
        ],
      )

  abbrev pub Started : Node S → Type 0
  Started n =
      let m = (start_server zero_float etcd prefix marshal machine n).1 in
      (addr v : String) × ((start_server zero_float etcd prefix marshal machine n).0
        ≡ ok n.server.listen_addr)
      × (resolve_advertise_address machine n.server ≡ ok addr)
      × (m.server ≡ record n.server { cancelable = true; registered_addr = addr })
      × (m.listeners ≡ n.server.listen_addr ∷ n.listeners)
      × (marshal (own_instance zero_float n.server addr) ≡ some v)
      × (value (instance_key prefix (own_instance zero_float n.server addr)) m.etcd ≡ some v)

  abbrev pub Refused : Node S → Type 0
  Refused n =
      let m = (start_server zero_float etcd prefix marshal machine n).1 in
      (e : Error) × ((start_server zero_float etcd prefix marshal machine n).0 ≡ err e)
      × (m.listeners ≡ n.listeners)
      × (healthy m.server ≡ true)

  resolve_cancelable :
      (s : Server)
      → resolve_advertise_address machine (record s { cancelable = true })
        ≡ resolve_advertise_address machine s
  unfolding resolve_advertise_address
  resolve_cancelable s = refl

  -- A start of a server with a registry either listens, and etcd has the instance under the
  -- advertised address, or it fails, and no listener stays open; after a failure the server still
  -- says that it is healthy.
  pub start_server_cases :
      (n : Node S) → IsStore etcd value → n.server.has_registry ≡ true → Started n ⊎ Refused n
  unfolding start_server
  start_server_cases n laws has = elim (Bool-cases (machine.listens n.server.listen_addr)) [
    | inr deaf ↦ inr (listen_failed, simp deaf, simp deaf, simp deaf)
    | inl hears ↦ elim (result_cases (resolve_advertise_address machine n.server)) [
      | inl (addr, at) ↦ listening hears addr at
      | inr (inl (e, at)) ↦
          let at' = resolve_cancelable n.server ∙ at in
          inr (e, simp (hears, at'), simp (hears, at'), simp (hears, at'))
      | inr (inr at) ↦ absurd (resolve_advertise_address-ne-panic machine n.server at)
    ]
  ]
    where
      listening :
          machine.listens n.server.listen_addr ≡ true
          → (addr : String) → resolve_advertise_address machine n.server ≡ ok addr
          → Started n ⊎ Refused n
      listening hears addr at =
          let at' = resolve_cancelable n.server ∙ at in
          let n' : Node S = record n {
            server = record n.server { cancelable = true };
            listeners = n.server.listen_addr ∷ n.listeners;
          } in
          let (same, server, answer) = register_server_cases addr n' laws has in
          let call = register_server zero_float etcd prefix marshal addr n' in
          elim answer [
            | inl (v, worked, m, stored) ↦
                let e' = or_close-ok n.server.listen_addr call worked in
                inl (
                  addr,
                  v,
                  simp (hears, at', e'),
                  at,
                  simp (hears, at', e', server),
                  simp (hears, at', e', same),
                  m,
                  simp (hears, at', e', stored),
                )
            | inr (e, refused) ↦
                let e' = or_close-err n.server.listen_addr e call refused in
                inr (
                  e,
                  simp (hears, at', e'),
                  simp (hears, at', e', same),
                  simp (hears, at', e', server),
                )
          ]

  -- A server that has started and is stopped while etcd answers: nothing is stored under the key
  -- of the instance that the start registered, the listeners are those of before, and the gRPC
  -- server is stopped.
  pub graceful_stop-start_server :
      (n : Node S) (addr : String)
      → IsStore etcd value
      → n.server.has_registry ≡ true
      → resolve_advertise_address machine n.server ≡ ok addr
      → (start_server zero_float etcd prefix marshal machine n).0 ≡ ok n.server.listen_addr
      → (etcd.delete
          (instance_key prefix (own_instance zero_float n.server addr))
          (start_server zero_float etcd prefix marshal machine n).1.etcd).0
        ≡ true
      → let m =
          graceful_stop zero_float etcd prefix
            (start_server zero_float etcd prefix marshal machine n).1 in
        (value (instance_key prefix (own_instance zero_float n.server addr)) m.etcd ≡ none)
        × (m.listeners ≡ n.listeners)
        × (m.stopped ≡ true)
  graceful_stop-start_server n addr laws has at started deletes =
      elim (start_server_cases n laws has) [
        | inr (e, refused, same, sick) ↦ absurd (cc (started, refused))
        | inl (addr', v, ok_, at', server, listeners, m, stored) ↦
            let same : addr' ≡ addr = ok_inj (sym at' ∙ at) in
            stop_lem etcd value prefix zero_float n addr _ laws has
              (server
                ∙ ap (λ (a : String). record n.server { cancelable = true; registered_addr = a })
                    same)
              listeners deletes
      ]
