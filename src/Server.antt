-- ===== src/Server.antt =====
-- pkg/grpc/server.go and pkg/netx/ip.go: the life of a gRPC server that registers itself.
pub mod Addresses
pub mod Stopping
pub mod Lifetime
use ework_runner.Prelude.{
  ℤ, pos, String, Bool, true, false, not, ◌&&◌, ◌||◌, Option, none, some, List, [], ◌∷◌, ◌==ˢ◌,
  if◌then◌else◌,
}
use ework_runner.Domain.Errors.{Error, listen_failed, bad_address, no_ip}
use ework_runner.Action.{Action, Result, ok, err, panic, pure, raise, ◌>>=◌, ◌>>◌}
use ework_runner.Registry.{ServiceInstance, Etcd, register, unregister}

pub record Config : Type 0 where
  pub service_id : String
  pub service_name : String
  pub listen_addr : String
  pub advertise_addr : String
  pub auth_token : String

-- Validate; the errors are their texts.
unfoldable pub validate : Config → Option String
validate c =
    if c.service_name ==ˢ ""
    then some "ServiceName 不能为空"
    else if c.listen_addr ==ˢ ""
    then some "监听地址不能为空"
    else none

-- An address of net.InterfaceAddrs.
pub record InterfaceAddr : Type 0 where
  pub is_ip_net : Bool
  pub is_loopback : Bool
  pub is_ipv4 : Bool
  pub text : String

-- The machine: what its network and its environment variables answer.
pub record Machine : Type 0 where
  pub listens : String → Bool  -- whether net.Listen succeeds
  pub split_host_port : String → Option (String × String)
  pub join_host_port : String → String → String
  pub getenv : String → String
  pub interface_addrs : Option (List InterfaceAddr)

abbrev pub first_ipv4 : List InterfaceAddr → Result String
first_ipv4 [] = err no_ip
first_ipv4 (a ∷ addrs) =
    if a.is_ip_net && not a.is_loopback && a.is_ipv4 then ok a.text else first_ipv4 addrs

unfoldable pub get_outbound_ip : Option (List InterfaceAddr) → Result String
get_outbound_ip none = err no_ip
get_outbound_ip (some addrs) = first_ipv4 addrs

pub record Server : Type 0 where
  pub service_id : String
  pub service_name : String
  pub listen_addr : String
  pub advertise_addr : String
  pub registered_addr : String
  pub has_registry : Bool
  pub cancelable : Bool  -- `cancel` is not nil
  pub interceptor_key : Option String  -- the key of the JWT interceptor, if there is one

-- The server, its registry's etcd, the open listeners, the last one first, and whether the gRPC server was stopped.
pub record Node (S : Type 0) : Type 0 where
  pub server : Server
  pub etcd : S
  pub listeners : List String
  pub stopped : Bool

abbrev pub with_jwt_auth : String → Server → Server
with_jwt_auth auth_token s =
    if auth_token ==ˢ "" then s else record s { interceptor_key = some auth_token }

abbrev pub apply : List (Server → Server) → Server → Server
apply [] s = s
apply (opt ∷ opts) s = apply opts (opt s)

unfoldable pub new_server : Config → Bool → List (Server → Server) → Server
new_server cfg has_registry opts = apply opts (record {
  service_id = cfg.service_id;
  service_name = cfg.service_name;
  listen_addr = cfg.listen_addr;
  advertise_addr = cfg.advertise_addr;
  registered_addr = "";
  has_registry = has_registry;
  cancelable = false;
  interceptor_key = none;
})

module _ (machine : Machine) where
  unfoldable pub get_advertise_ip : Result String
  get_advertise_ip =
      if not (machine.getenv "POD_IP" ==ˢ "")
      then ok (machine.getenv "POD_IP")
      else if not (machine.getenv "HOST_IP" ==ˢ "")
      then ok (machine.getenv "HOST_IP")
      else get_outbound_ip machine.interface_addrs

  abbrev pub join_ip : String → Result String → Result String
  join_ip port (ok ip) = ok (machine.join_host_port ip port)
  join_ip port (err e) = err e
  join_ip port panic = panic

  abbrev pub advertised_host : String → Option (String × String) → Result String
  advertised_host listen_addr none = err bad_address
  advertised_host listen_addr (some (host, port)) =
      if host ==ˢ "::" || host ==ˢ "0.0.0.0" then join_ip port get_advertise_ip else ok listen_addr

  unfoldable pub resolve_advertise_address : Server → Result String
  resolve_advertise_address s =
      if not (s.advertise_addr ==ˢ "")
      then ok s.advertise_addr
      else advertised_host s.listen_addr (machine.split_host_port s.listen_addr)

abbrev pub drop_last : List String → List String
drop_last [] = []
drop_last (l ∷ ls) = ls

abbrev pub change_server : {S : Type 0} → (Server → Server) → Node S → Node S
change_server f n = record n { server = f n.server }

-- `weight`, the capacities and the rate of a registered instance are zero.
abbrev pub own_instance : {Float : Type 0} → Float → Server → String → ServiceInstance Float
own_instance zero_float s addr = record {
  name = s.service_name;
  address = addr;
  id = s.service_id;
  weight = pos 0;
  init_capacity = pos 0;
  max_capacity = pos 0;
  increase_step = pos 0;
  growth_rate = zero_float;
}

-- listener.Close() of the listener opened last
abbrev pub close_last : {S : Type 0} → Node S → Node S
close_last n = record n { listeners = drop_last n.listeners }

abbrev pub or_close : {S : Type 0} → String → Result (Unit {0}) × Node S → Result String × Node S
or_close listener (ok _, n) = (ok listener, n)
or_close listener (err e, n) = (err e, close_last n)
or_close listener (panic, n) = (panic, n)

-- A call of the registry, on the state of etcd.
abbrev pub on_etcd : {S : Type 0} → (S → Result (Unit {0}) × S) → Action (Node S) (Unit {0})
on_etcd call n = let (r, s) = call n.etcd in (r, record n { etcd = s })

-- The gRPC server's GracefulStop closes the listener that it serves: the last one that was opened,
-- which `start` and `serve` hand to it.
abbrev pub stop_grpc : {S : Type 0} → Node S → Node S
stop_grpc n = record n { stopped = true; listeners = drop_last n.listeners }

module _ {S Float : Type 0} (zero_float : Float) (etcd : Etcd S) (prefix : String) where
  -- An error of UnRegister is logged only.
  abbrev pub unregister_server : Node S → Node S
  unregister_server n =
      if n.server.has_registry
      then (on_etcd
          (unregister etcd prefix (own_instance zero_float n.server n.server.registered_addr)) n).1
      else n

  -- cancel() ends a context that nothing uses, so that it changes nothing here.
  unfoldable pub close : Node S → Node S
  close n = stop_grpc (unregister_server n)

  unfoldable pub stop : Node S → Node S
  stop n = close n

  unfoldable pub graceful_stop : Node S → Node S
  graceful_stop n = stop_grpc (unregister_server n)

  module _ (marshal : ServiceInstance Float → Option String) where
    -- A server without a registry panics.
    unfoldable pub register_server : String → Action (Node S) (Unit {0})
    register_server addr n =
        let n' = change_server (λ s. record s { registered_addr = addr }) n in
        if n.server.has_registry
        then on_etcd (register etcd prefix marshal (own_instance zero_float n'.server addr)) n'
        else (panic, n')

    module _ (machine : Machine) where
      abbrev pub register_at : Result String → Action (Node S) String
      register_at (ok addr) n = or_close n.server.listen_addr (register_server addr n)
      register_at (err e) n = (err e, close_last n)
      register_at panic n = (panic, n)

      -- The listener is named by its address.
      unfoldable pub start_server : Action (Node S) String
      start_server n =
          let n' = change_server (λ s. record s { cancelable = true }) n in
          let addr = n.server.listen_addr in
          if machine.listens addr
          then register_at (resolve_advertise_address machine n'.server)
              (record n' { listeners = addr ∷ n'.listeners })
          else (err listen_failed, n')

      -- `served` is what the gRPC server's Serve returns in the end.
      unfoldable pub serve : Result (Unit {0}) → Action (Node S) (Unit {0})
      serve served = start_server >>= λ listener n. (served, n)

      -- The gRPC server serves in a goroutine.
      unfoldable pub start : Action (Node S) (Unit {0})
      start = start_server >>= λ listener. pure tt

-- `Healthy` of Info
abbrev pub healthy : Server → Bool
healthy s = s.cancelable
