-- ===== src/Tests/Servers.antt =====
-- A gRPC server that starts and stops.
use ework_runner.Prelude.{String, true, false, Option, none, some, [], ◌≡◌, refl}
use ework_runner.Registry.{ServiceInstance, register}
use ework_runner.Server.{
  Machine, Node, resolve_advertise_address, register_server, start_server, graceful_stop,
}
use ework_runner.Server.Lifetime.{graceful_stop-start_server}
use ework_runner.Tests.Store.{Keys, keys, value, keys-IsStore}

abbrev machine : Machine
machine = record {
  listens = λ a. true;
  split_host_port = λ a. some ("10.0.0.7", "80");
  join_host_port = λ h p. h;
  getenv = λ v. "";
  interface_addrs = none;
}

abbrev node : Node Keys
node = record {
  server = record {
    service_id = "a";
    service_name = "demo";
    listen_addr = "10.0.0.7:80";
    advertise_addr = "";
    registered_addr = "";
    has_registry = true;
    cancelable = false;
    interceptor_key = none;
  };
  etcd = [];
  listeners = [];
  stopped = false;
}

abbrev marshal : ServiceInstance (Unit {0}) → Option String
marshal i = some "json"

graceful_stop-start_server_example :
    let m =
      graceful_stop {Float = Unit {0}} tt keys "/services"
        (start_server tt keys "/services" marshal machine node).1 in
    (value "/services/demo/10.0.0.7:80" m.etcd ≡ none) × (m.listeners ≡ []) × (m.stopped ≡ true)
unfolding start_server register_server register resolve_advertise_address
graceful_stop-start_server_example =
    graceful_stop-start_server machine keys value "/services" marshal tt node "10.0.0.7:80"
      keys-IsStore refl refl refl refl
