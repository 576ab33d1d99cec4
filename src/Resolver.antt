-- ===== src/Resolver.antt =====
-- pkg/grpc/resolver.go: what the resolver tells gRPC about the executors of a service.
pub mod Refresh
use ework_runner.Prelude.{
  ℕ, suc, String, Option, none, some, List, [], ◌∷◌, ◌++◌, map, length, get_elem?,
}
use ework_runner.Domain.Errors.{Error}
use ework_runner.Action.{Result, ok, err, panic}
use ework_runner.Registry.{ServiceInstance}
use ework_runner.Balancer.Connections.{Address}

-- resolver.ClientConn, as the calls that it gets.
pub data Told : Type 0 where
  reported : Error → Told
  addresses : List Address → Told

-- The attributes that resolve made are numbered as they are made: `node_ids` has the value of
-- "nodeID" in each.
pub record Resolver : Type 0 where
  pub target : String  -- the name of the service
  pub node_ids : List String
  pub told : List Told  -- oldest first

unfoldable pub node_id_at : Resolver → ℕ → Option String
node_id_at r attributes = get_elem? r.node_ids attributes

-- What UpdateState of the connection returns is reported if it is an error.
abbrev pub report_refusal : Option Error → Resolver → Resolver
report_refusal none r = r
report_refusal (some e) r = record r { told = r.told ++ reported e ∷ [] }

-- What the select of watch meets: an event, with what ListServices and UpdateState answer then, or
-- the close of the resolver.
pub data Wakeup (Float : Type 0) : Type 0 where
  woken : (String → Result (List (ServiceInstance Float))) → Option Error → Wakeup Float
  closed : Wakeup Float

module _ {Float : Type 0} where
  -- The loop over the instances; attributes.New makes a new pointer for each.
  unfoldable pub addresses_from : ℕ → List (ServiceInstance Float) → List Address
  addresses_from n [] = []
  addresses_from n (ins ∷ instances) =
      record { addr = ins.address; server_name = ins.name; attributes = n }
      ∷ addresses_from (suc n) instances

  abbrev pub tell : List (ServiceInstance Float) → Resolver → Resolver
  tell instances r = record r {
    node_ids = r.node_ids ++ map (λ ins. ins.id) instances;
    told = r.told ++ addresses (addresses_from (length r.node_ids) instances) ∷ [];
  }

  -- ListServices answers no instances with an error.
  abbrev pub tell_answer : Result (List (ServiceInstance Float)) → Resolver → Resolver
  tell_answer (ok instances) r = tell instances r
  tell_answer (err e) r = tell [] (record r { told = r.told ++ reported e ∷ [] })
  tell_answer panic r = r

  unfoldable pub resolve :
      (String → Result (List (ServiceInstance Float))) → (Option Error) → Resolver → Resolver
  resolve list_services refusal r = report_refusal refusal (tell_answer (list_services r.target) r)

  unfoldable pub watch : List (Wakeup Float) → Resolver → Resolver
  watch [] r = r
  watch (closed ∷ wakeups) r = r
  watch (woken list_services refusal ∷ wakeups) r = watch wakeups (resolve list_services refusal r)

  -- Build: the first refresh, and the goroutine
  unfoldable pub build :
      String
      → (String → Result (List (ServiceInstance Float)))
      → Option Error
      → List (Wakeup Float)
      → Resolver
  build target list_services refusal wakeups =
      let fresh : Resolver = record { target = target; node_ids = []; told = [] } in
      watch wakeups (resolve list_services refusal fresh)
