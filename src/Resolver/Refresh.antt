-- ===== src/Resolver/Refresh.antt =====
-- What a refresh of the addresses does to the connections.
use ework_runner.Prelude.{
  ℕ, suc, ◌<◌, ◌≡◌, refl, ◌∙◌, String, Bool, Option, none, some, List, [], ◌∷◌, ◌++◌, length, arith,
}
use ework_runner.Prelude.Table.{get, get-put}
use mathlib.Core.List.{append-nil, append_assoc}
use ework_runner.Domain.Errors.{Error}
use ework_runner.Action.{Result, ok, err}
use ework_runner.Registry.{ServiceInstance}
use ework_runner.Balancer.Connections.{
  Address, same_address, RoutingBalancer, address_set, Call, addresses_changed, perform_all,
}
use ework_runner.Balancer.Connections.Consistency.{
  same_address_iff, conn_at, ready_id, IsConsistent,
}
use ework_runner.Balancer.Connections.Stale.{perform_all-stale}
use ework_runner.Resolver.{
  Resolver, Told, reported, addresses, addresses_from, resolve, report_refusal, tell_answer,
}

-- An older address is not among the addresses with new attributes.
address_set-older :
    {Float : Type 0} (a : Address) (n : ℕ) (instances : List (ServiceInstance Float))
    → a.attributes < n
    → get same_address a (address_set (addresses_from n instances)) ≡ none
unfolding address_set addresses_from get
address_set-older a n [] older = refl
address_set-older a n (ins ∷ instances) older =
    let new : Address = record { addr = ins.address; server_name = ins.name; attributes = n } in
    ground (
      arith,
      address_set-older a (suc n) instances,
      same_address_iff new a,
      get-put same_address same_address_iff new a tt
          (address_set (addresses_from (suc n) instances)),
    )

-- A refusal only adds to what gRPC was told.
told-report_refusal :
    (refusal : Option Error) (r : Resolver)
    → (rest : List Told) × ((report_refusal refusal r).told ≡ r.told ++ rest)
told-report_refusal none r = ([], simp append-nil)
told-report_refusal (some e) r = (reported e ∷ [], refl)

module _ {Float : Type 0} (list_services : String → Result (List (ServiceInstance Float))) where
  -- When the registry answers with an error, the resolver reports it and then tells gRPC that the service has
  -- no address at all.
  pub resolve-err :
      (r : Resolver) (e : Error) (refusal : Option Error)
      → list_services r.target ≡ err e
      → (rest : List Told) × ((resolve list_services refusal r).told
          ≡ r.told ++ reported e ∷ addresses [] ∷ rest)
  unfolding resolve addresses_from
  resolve-err r e refusal h =
      let (rest, told) = told-report_refusal refusal (tell_answer (list_services r.target) r) in
      (rest, told ∙ simp (h, addresses_from, append_assoc))

  -- A refresh loses every connection that the balancer has, even if the registry answers as before:
  -- whatever gRPC calls after it hands the balancer the new addresses, a ready connection stays among the
  -- ready ones although the balancer has dropped it.
  pub resolve-stale :
      (r : Resolver) (instances : List (ServiceInstance Float)) (refusal : Option Error)
      (b : RoutingBalancer) (connects : ℕ → Bool) (node_id : ℕ → Option String) (a : Address)
      (s : ℕ) (n : String) (calls : List Call)
      → list_services r.target ≡ ok instances
      → IsConsistent node_id b
      → a.attributes < length r.node_ids
      → conn_at a b ≡ some s
      → ready_id s b ≡ some n
      → (new : List Address) × (later : List Told) × ((resolve list_services refusal r).told
          ≡ r.told ++ addresses new ∷ later)
        × (ready_id s (perform_all node_id connects (addresses_changed new ∷ calls) b) ≡ some n)
  unfolding resolve
  resolve-stale r instances refusal b connects node_id a s n calls h v older at is_ready =
      let new = addresses_from (length r.node_ids) instances in
      let (later, told) = told-report_refusal refusal (tell_answer (list_services r.target) r) in
      (
        new,
        later,
        told ∙ simp (h, append_assoc),
        perform_all-stale node_id connects s n b a new calls v at is_ready
            (address_set-older a (length r.node_ids) instances older),
      )
