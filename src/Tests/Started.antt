-- ===== src/Tests/Started.antt =====
-- The server 192.168.1.1 when it has just started, with one static client.
use psa_dhcp.Base.{
  ℕ, ◌≡◌, ◌≢◌, ◌*◌, refl, arith, ap, length, false, some, none, List, [], ◌∷◌, ok, All,
}
use psa_dhcp.Base.Bytes.{IsByte}
use psa_dhcp.Net.{Ip, ipv4_bcast, to4}
use psa_dhcp.Dhcpmsg.Options.{second, decode_options}
use psa_dhcp.Leaseopts.{ClientConfig}
use psa_dhcp.Ipdb.Uip.{Uip, to_v4}
use psa_dhcp.Ipdb.Duid.{duid_string}
use psa_dhcp.Ipdb.Keys.{duid_string-injective}
use psa_dhcp.Ipdb.Clients.{new_clients}
use psa_dhcp.Ipdb.Clients.Invariant.{new_clients-IsConsistent}
use psa_dhcp.Ipdb.Db.{Ipdb, to_uip, lookup_client_by_duid, add_permanent_client, update_client}
use psa_dhcp.Ipdb.Db.Reserved.{HasHolder, no_call, then_call, updated, add_permanent_client-keeps}
use psa_dhcp.Server.State.{Server, duid_from_hw_addr}
use psa_dhcp.Server.Config.{Host, Config, set_override, new_server}
use psa_dhcp.Server.Started.{new_server-HasHolder}
use psa_dhcp.Server.Handlers.{handle_msg}
use psa_dhcp.Server.OwnAddress.{Spares, handle_msg-Spares}
use psa_dhcp.Tests.Leases.{alice, alice_bytes, lan, network, netmask}
use psa_dhcp.Tests.Handlers.{server, gateway, quiet, hello, mac}

-- The strings are the bytes that they stand for.
abbrev host : Host
host = record {
  iface_addr = 2 ∷ 0 ∷ 0 ∷ 0 ∷ 0 ∷ 1 ∷ [];
  interface_ip = some gateway;
  parsers = record {
    parse_ip = λ s. some s;
    parse_cidr = λ s. some (network, netmask);
    parse_duration = λ s. some (3600 * second);
  };
  parse_mac = λ s. some s;
  mac_string = λ a. a;
  now = 100;
}

abbrev printer : Ip
printer = 192 ∷ 168 ∷ 1 ∷ 50 ∷ []

abbrev section : ClientConfig
section = record { ip = printer; hostname = []; router = []; dns = []; ntp = [] }

abbrev config : Config
config = record {
  lease = record {
    network = [];
    lease_duration = [];
    domain = [];
    router = gateway;
    dns = [];
    ntp = [];
  };
  dynamic_range = [];
  static_only = false;
  sections = (mac, section) ∷ [];
}

abbrev serving : Server
serving = record server {
  overrides =
      set_override (duid_string (duid_from_hw_addr mac)) (record server.lopts { ip = printer })
        (λ k. none);
}

abbrev with_printer : Ipdb
with_printer = (add_permanent_client 100 printer (duid_from_hw_addr mac) lan).1

abbrev started : Ipdb
started = (add_permanent_client 100 gateway (duid_from_hw_addr server.iface_addr) with_printer).1

starts : new_server host config ≡ ok (serving, started)
unfolding new_server to4 psa_dhcp.Ipdb.Clients.inject_permanent
    psa_dhcp.Ipdb.Clients.inject_internal psa_dhcp.Ipdb.Clients.lookup
    psa_dhcp.Ipdb.Clients.lookup_key new_clients psa_dhcp.Ipdb.Clients.add_client
    psa_dhcp.Ipdb.Clients.insert psa_dhcp.Ipdb.Uip.uip_string
starts = refl

new_server-HasHolder_example : HasHolder gateway (duid_from_hw_addr server.iface_addr) started
new_server-HasHolder_example = new_server-HasHolder host config starts

mac_bytes : All IsByte mac
mac_bytes =
    (omega arith, (omega arith, (omega arith, (omega arith, (omega arith, (omega arith, tt))))))

iface_bytes : All IsByte server.iface_addr
iface_bytes =
    (omega arith, (omega arith, (omega arith, (omega arith, (omega arith, (omega arith, tt))))))

own_duid_bytes : All IsByte (duid_from_hw_addr server.iface_addr)
unfolding duid_from_hw_addr
own_duid_bytes = (omega arith, (omega arith, (omega arith, (omega arith, iface_bytes))))

no_identifier :
    duid_string (decode_options hello.options).client_identifier
    ≢ duid_string (duid_from_hw_addr server.iface_addr)
unfolding decode_options duid_from_hw_addr psa_dhcp.Dhcpmsg.Assemble.option_type
no_identifier e =
    clash (duid_string-injective [] (duid_from_hw_addr server.iface_addr) tt own_duid_bytes e)
  where
    clash : {x : ℕ} {l : List ℕ} → [] ≢ (x ∷ l)
    clash e = cc

handle_msg-Spares_example :
    Spares gateway serving hello (handle_msg serving (quiet 100) gateway ipv4_bcast hello started).0
handle_msg-Spares_example =
    handle_msg-Spares serving (quiet 100) gateway ipv4_bcast hello started
      (new_server-HasHolder host config starts) (λ i ix. no_call) refl mac_bytes iface_bytes
      no_identifier

added : (add_permanent_client 100 printer (duid_from_hw_addr mac) lan).0 ≡ none
unfolding add_permanent_client to_uip to4 psa_dhcp.Ipdb.Clients.inject_permanent
    psa_dhcp.Ipdb.Clients.inject_internal psa_dhcp.Ipdb.Clients.lookup
    psa_dhcp.Ipdb.Clients.lookup_key new_clients
added = refl

alice_ne_printer : duid_string alice ≢ duid_string (duid_from_hw_addr mac)
unfolding duid_from_hw_addr
alice_ne_printer e = clash (
    duid_string-injective alice _ alice_bytes
      (omega arith, (omega arith, (omega arith, (omega arith, mac_bytes)))) e)
  where
    clash : {x : ℕ} {l : List ℕ} → (0 ∷ 3 ∷ 0 ∷ 0 ∷ []) ≢ (0 ∷ 3 ∷ 0 ∷ 0 ∷ x ∷ l)
    clash e = cc (ap length e)

add_permanent_client-keeps_example :
    ((n : Uip) × (to_uip (update_client 200 printer alice 60 with_printer).1 printer ≡ ok n)
      × ((lookup_client_by_duid 300
            (duid_from_hw_addr mac)
            (update_client 200 printer alice 60 with_printer).1).0
          ≡ ok (to_v4 n)))
    × ((update_client 300 printer alice 60 (update_client 200 printer alice 60 with_printer).1).0
        ≢ none)
add_permanent_client-keeps_example =
    add_permanent_client-keeps 100 printer (duid_from_hw_addr mac) lan 300 printer alice 60
      (new_clients-IsConsistent 100) added (then_call no_call (updated 200 printer alice 60)) refl
      alice_ne_printer
