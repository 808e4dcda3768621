-- ===== src/Tests/Handlers.antt =====
-- The server 192.168.1.1 and a client with nothing but its hardware address.
use psa_dhcp.Base.{
  ℕ, zero, suc, ◌+◌, ◌*◌, ◌<◌, ◌^◌, ◌≤◌, ◌≡◌, ◌≢◌, ◌↔◌, ◌⊎◌, refl, arith, true, false, not, ◌&&◌,
  List, [], ◌∷◌, ◌++◌, length, Option, some, none, ok, All,
}
use psa_dhcp.Base.Bytes.{zeros}
use psa_dhcp.Net.{Ip, ipv4, ipv4_bcast, ip_equal}
use psa_dhcp.Dhcpmsg.{
  Message, DecodedOptions, op_request, htype_ether, dhcp_cookie, msg_type_discover, msg_type_ack,
}
use psa_dhcp.Dhcpmsg.Assemble.{option_type, option_server_identifier}
use psa_dhcp.Dhcpmsg.Assemble
use psa_dhcp.Dhcpmsg.RoundTrip.{IsWire}
use psa_dhcp.Dhcpmsg.Options.{no_options, second}
use psa_dhcp.Ipdb.Db.{
  Ipdb, Round, in_managed_range, lookup_client_by_duid, find_ip, update_client, to_uip,
}
use psa_dhcp.Server.Replies.{ack_message, assemble_ack, assemble_offer, dst_from_flag}
use psa_dhcp.Server.Replies.Received.{Delivers, assemble_ack-Delivers}
use psa_dhcp.Server.State.{Server, arp_verify}
use psa_dhcp.Server.Handlers.{World, sent, rounds, send_msg, send_nack, confirm, handle_discover}
use psa_dhcp.Server.Discover.{handle_discover-is_recorded, handle_discover-offers}
use psa_dhcp.Server.Request.{confirm-is_recorded, confirm-acknowledges}
use psa_dhcp.Client.Verify.{passed, verify_gen_ack}
use psa_dhcp.Client.Verify.Sound.{IsLease, verify_gen_ack_iff}
use psa_dhcp.Tests.Leases.{
  alice, alice_bytes, lan, lan-IsWellFormed, home, leased, leased-IsWellFormed, found_at_home, draw,
  draw_lt,
}

abbrev pub gateway : Ip
gateway = 192 ∷ 168 ∷ 1 ∷ 1 ∷ []

abbrev pub mac : List ℕ
mac = 2 ∷ 0 ∷ 0 ∷ 0 ∷ 0 ∷ 7 ∷ []

abbrev pub server : Server
server = record {
  iface_addr = 2 ∷ 0 ∷ 0 ∷ 0 ∷ 0 ∷ 1 ∷ [];
  self_ip = gateway;
  lopts = record {
    ip = [];
    domain = [];
    hostname = [];
    netmask = 255 ∷ 255 ∷ 255 ∷ 0 ∷ [];
    router = gateway;
    dns = [];
    ntp = [];
    lease_duration = 3600 * second;
  };
  overrides = λ k. none;
}

-- Nothing else happens, and nobody answers to ARP.
abbrev pub quiet : ℕ → World
quiet now = record {
  clock = λ k. now;
  meanwhile = λ k ix. ix;
  round_clock = λ i. now;
  cancelled = λ i. false;
  ping = λ i ip n. none;
  perm = draw;
}

abbrev pub hello : Message
hello = record {
  op = op_request;
  htype = htype_ether;
  hops = 0;
  xid = 77;
  secs = 0;
  flags = 0;
  client_ip = [];
  your_ip = [];
  next_ip = [];
  relay_ip = [];
  client_mac = mac;
  server_host_name = zeros 64;
  boot_filename = zeros 128;
  cookie = dhcp_cookie;
  options = option_type msg_type_discover ∷ [];
}

abbrev wish : DecodedOptions
wish = record no_options { message_type = msg_type_discover; requested_ip = home }

handle_discover-is_recorded_example :
    ((handle_discover server (quiet 100) ipv4_bcast alice hello wish lan).0 ≡ sent [])
    ⊎ ((offer : Ip) × ((handle_discover server (quiet 100) ipv4_bcast alice hello wish lan).0
          ≡ sent (send_msg server hello offer assemble_offer ∷ []))
        × ((lookup_client_by_duid 130 alice
              (handle_discover server (quiet 100) ipv4_bcast alice hello wish lan).1).0
            ≡ ok offer))
handle_discover-is_recorded_example =
    handle_discover-is_recorded server (quiet 100) ipv4_bcast alice hello wish lan lan-IsWellFormed
      (omega arith) (λ j. omega arith) alice_bytes (λ ix1 h. h) 130 (omega arith)

is_bcast : ip_equal ipv4_bcast ipv4_bcast ≡ true
unfolding ip_equal psa_dhcp.Base.bytes_eq
is_bcast = refl

home_is_found : (find_ip 100 (rounds (quiet 100) mac) draw home alice lan).0 ≡ ok home
unfolding find_ip psa_dhcp.Ipdb.Db.find_loop to_uip psa_dhcp.Ipdb.Clients.lookup
    psa_dhcp.Ipdb.Clients.lookup_key psa_dhcp.Ipdb.Clients.new_clients psa_dhcp.Ipdb.Clients.expired
    psa_dhcp.Ipdb.Uip.uip_string psa_dhcp.Ipdb.Duid.duid_string psa_dhcp.Ipdb.Uip.hex
    psa_dhcp.Ipdb.Uip.hex_digit psa_dhcp.Ipdb.Duid.dashed psa_dhcp.Ipdb.Uip.to_v4
    psa_dhcp.Ipdb.Uip.is_valid psa_dhcp.Base.bytes_eq psa_dhcp.Net.to4 arp_verify
    psa_dhcp.Server.State.arp_loop
home_is_found = refl

handle_discover-offers_example :
    (handle_discover server (quiet 100) ipv4_bcast alice hello wish lan).0
    ≡ sent (send_msg server hello home assemble_offer ∷ [])
handle_discover-offers_example =
    handle_discover-offers server (quiet 100) ipv4_bcast alice hello wish lan lan-IsWellFormed
      (omega arith) (λ j. omega arith) alice_bytes (λ ix1. refl) draw_lt is_bcast refl home_is_found

confirm-is_recorded_example :
    ((confirm server (quiet 130) home alice hello leased).0 ≡ sent [])
    ⊎ (((confirm server (quiet 130) home alice hello leased).0
          ≡ sent (send_nack server 77 mac ∷ []))
        ⊎ ((lease : Ip) × ((confirm server (quiet 130) home alice hello leased).0
              ≡ sent (send_msg server hello lease assemble_ack ∷ []))
            × (ip_equal home lease ≡ true)
            × (arp_verify mac ((quiet 130).ping 0 lease) ≡ true)
            × ((lookup_client_by_duid 200 alice
                  (confirm server (quiet 130) home alice hello leased).1).0
                ≡ ok lease)))
confirm-is_recorded_example =
    confirm-is_recorded server (quiet 130) home alice hello leased leased-IsWellFormed (omega arith)
      (λ ix1 h. h) alice_bytes 200 (omega arith)

home_is_home : ip_equal home home ≡ true
unfolding ip_equal psa_dhcp.Base.bytes_eq
home_is_home = refl

no_answer : arp_verify mac ((quiet 130).ping 0 home) ≡ true
unfolding arp_verify psa_dhcp.Server.State.arp_loop
no_answer = refl

confirm-acknowledges_example :
    (confirm server (quiet 130) home alice hello leased).0
    ≡ sent (send_msg server hello home assemble_ack ∷ [])
confirm-acknowledges_example =
    confirm-acknowledges server (quiet 130) home alice hello leased leased-IsWellFormed
      (omega arith) (λ ix1. refl) found_at_home home_is_home no_answer

ack-IsWire : IsWire (ack_message 77 0 gateway home mac [])
unfolding option_type option_server_identifier psa_dhcp.Net.to4
ack-IsWire = record {
  shaped = record { host_name = refl; filename = refl };
  xid = omega arith;
  secs = omega arith;
  flags = omega arith;
  cookie = omega arith;
  mac = omega arith;
  opts = (
    record { not_padding = λ e. omega arith; not_end = λ e. omega arith; short = omega arith },
    (
      record { not_padding = λ e. omega arith; not_end = λ e. omega arith; short = omega arith },
      tt,
    ),
  );
}

ack_size : 28 + length (Assemble.assemble (ack_message 77 0 gateway home mac [])) < 2 ^ 16
unfolding Assemble.assemble Assemble.header Assemble.append_options option_type
    option_server_identifier psa_dhcp.Net.to4 psa_dhcp.Base.bytes_eq
ack_size = omega arith

assemble_ack-Delivers_example :
    Delivers
      (assemble_ack 77 0 gateway home mac [])
      gateway
      (dst_from_flag 0 home)
      (ack_message 77 0 gateway home mac [])
assemble_ack-Delivers_example = assemble_ack-Delivers 77 0 gateway home mac [] ack-IsWire ack_size

verify_gen_ack_iff_example : (verify_gen_ack hello wish 77 true hello wish ≡ passed) ↔ (
    (wish.message_type ≡ msg_type_ack)
    × (ip_equal hello.your_ip hello.your_ip ≡ true)
    × ((true && not (ip_equal wish.server_identifier wish.server_identifier)) ≡ false)
    × IsLease 77 hello wish)
verify_gen_ack_iff_example = verify_gen_ack_iff hello wish 77 true hello wish
