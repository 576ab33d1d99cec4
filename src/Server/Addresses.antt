-- ===== src/Server/Addresses.antt =====
-- The address that a server advertises.
use ework_runner.Prelude.{
  String, Option, none, some, List, [], ◌∷◌, ◌≢◌, refl, inl, inr, arith, Option-cases,
}
use ework_runner.Action.{Result, ok, err, panic}
use ework_runner.Server.{
  Machine, Server, InterfaceAddr, first_ipv4, get_outbound_ip, get_advertise_ip, join_ip,
  resolve_advertise_address,
}

first_ipv4-ne-panic : (addrs : List InterfaceAddr) → first_ipv4 addrs ≢ panic
first_ipv4-ne-panic [] h = cc
first_ipv4-ne-panic (a ∷ addrs) h = ground (arith, first_ipv4-ne-panic addrs)

get_outbound_ip-ne-panic : (addrs : Option (List InterfaceAddr)) → get_outbound_ip addrs ≢ panic
unfolding get_outbound_ip
get_outbound_ip-ne-panic none h = cc
get_outbound_ip-ne-panic (some addrs) h = first_ipv4-ne-panic addrs h

get_advertise_ip-ne-panic : (machine : Machine) → get_advertise_ip machine ≢ panic
unfolding get_advertise_ip
get_advertise_ip-ne-panic machine h =
    ground (arith, get_outbound_ip-ne-panic machine.interface_addrs)

join_ip-ne-panic :
    (machine : Machine) (port : String) (ip : Result String)
    → ip ≢ panic
    → join_ip machine port ip ≢ panic
join_ip-ne-panic machine port (ok ip) h k = cc
join_ip-ne-panic machine port (err e) h k = cc
join_ip-ne-panic machine port panic h k = h refl

pub resolve_advertise_address-ne-panic :
    (machine : Machine) (s : Server) → resolve_advertise_address machine s ≢ panic
unfolding resolve_advertise_address
resolve_advertise_address-ne-panic machine s h =
    elim (Option-cases (machine.split_host_port s.listen_addr)) [
      | inl e ↦ ground (arith, e, h)
      | inr ((host, port), e) ↦ ground (
        arith,
        e,
        h,
        join_ip-ne-panic machine port (get_advertise_ip machine)
            (get_advertise_ip-ne-panic machine),
      )
    ]
