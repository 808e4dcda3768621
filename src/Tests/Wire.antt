-- ===== src/Tests/Wire.antt =====
-- A message, a datagram and an ARP packet.
use psa_dhcp.Base.{
  ℕ, ◌+◌, ◌≡◌, ◌≢◌, refl, arith, List, [], ◌∷◌, ◌++◌, ok, take, some, ◌↔◌, ◌≤◌, length, drop,
}
use psa_dhcp.Base.Bytes.{zeros}
use psa_dhcp.Net.{v4_in_v6_prefix}
use psa_dhcp.Net.Laws.{ip4}
use psa_dhcp.Dhcpmsg.{DhcpOpt, Message, op_request, htype_ether, dhcp_cookie, msg_type_discover}
use psa_dhcp.Dhcpmsg.Assemble
use psa_dhcp.Dhcpmsg.Assemble.{option_type, option_hostname}
use psa_dhcp.Dhcpmsg.Parse.{decode, options_loop, fixed_part, dhcp_min_len}
use psa_dhcp.Dhcpmsg.Grammar.{Encodes, decode_iff, options_loop-ends}
use psa_dhcp.Dhcpmsg.RoundTrip.{IsWire, message_as_read, decode-assemble}
use psa_dhcp.Layer.Arp.{Arp}
use psa_dhcp.Layer.Ip
use psa_dhcp.Layer.Ip.{Ipv4, decode_ipv4}
use psa_dhcp.Layer.Udp
use psa_dhcp.Layer.Udp.{Udp, decode_udp}
use psa_dhcp.Layer.Stack.{IsDatagram}
use psa_dhcp.Layer.Stack.Sums.{IsBytes, Verifies, pseudo_header, checksums_verify}

abbrev mac : List ℕ
mac = 2 ∷ 0 ∷ 0 ∷ 0 ∷ 0 ∷ 7 ∷ []

abbrev discover : Message
discover = record {
  op = op_request;
  htype = htype_ether;
  hops = 0;
  xid = 77;
  secs = 0;
  flags = 0;
  client_ip = [];
  your_ip = [];
  next_ip = [];
  relay_ip = [];
  client_mac = mac;
  server_host_name = zeros 64;
  boot_filename = zeros 128;
  cookie = dhcp_cookie;
  options = option_type msg_type_discover ∷ option_hostname (104 ∷ 105 ∷ []) ∷ [];
}

discover-IsWire : IsWire discover
unfolding option_type option_hostname
discover-IsWire = record {
  shaped = record { host_name = refl; filename = refl };
  xid = omega arith;
  secs = omega arith;
  flags = omega arith;
  cookie = omega arith;
  mac = omega arith;
  opts = (
    record { not_padding = λ e. omega arith; not_end = λ e. omega arith; short = omega arith },
    (
      record { not_padding = λ e. omega arith; not_end = λ e. omega arith; short = omega arith },
      tt,
    ),
  );
}

not_nil : {o : DhcpOpt} {os : List DhcpOpt} → (o ∷ os) ≢ []
not_nil e = cc

decode-assemble_example :
    decode (Assemble.assemble discover ++ zeros 3) ≡ ok (message_as_read discover)
decode-assemble_example = decode-assemble discover (zeros 3) discover-IsWire not_nil

decode_iff_example : (decode (Assemble.assemble discover) ≡ ok (message_as_read discover)) ↔ (
    (dhcp_min_len ≤ length (Assemble.assemble discover))
    × ((os : List DhcpOpt) × Encodes (drop dhcp_min_len (Assemble.assemble discover)) os
        × (message_as_read discover ≡ fixed_part (Assemble.assemble discover) os)))
decode_iff_example = decode_iff (Assemble.assemble discover) (message_as_read discover)

options_loop-ends_example :
    (r : ℕ × List DhcpOpt) × (options_loop 5 (0 ∷ 53 ∷ 1 ∷ 1 ∷ 255 ∷ []) 0 [] ≡ some r)
    × (options_loop 9 (0 ∷ 53 ∷ 1 ∷ 1 ∷ 255 ∷ []) 0 [] ≡ some r)
options_loop-ends_example =
    options_loop-ends 5 9 (0 ∷ 53 ∷ 1 ∷ 1 ∷ 255 ∷ []) 0 [] (omega arith) (omega arith)

abbrev host : List ℕ
host = 192 ∷ 168 ∷ 1 ∷ 2 ∷ []

abbrev peer : List ℕ
peer = 192 ∷ 168 ∷ 1 ∷ 9 ∷ []

abbrev question : Arp
question = record {
  sender_mac = mac;
  sender_ip = host;
  target_mac = zeros 6;
  target_ip = peer;
  opcode = 1;
}

abbrev udp : Udp
udp = record { src_port = 67; dst_port = 68; payload = 1 ∷ 2 ∷ 3 ∷ [] }

abbrev ip : Ipv4
ip = record {
  identification = 0;
  flags = 0;
  ttl = 64;
  protocol = 17;
  checksum = 0;
  source = host;
  destination = peer;
  payload = Udp.assemble udp;
}

ip-IsDatagram : IsDatagram ip udp
ip-IsDatagram = record {
  udp = refl;
  payload = refl;
  src_port = omega arith;
  dst_port = omega arith;
  size = omega arith;
  identification = omega arith;
  flags = omega arith;
}

ip-IsBytes : IsBytes ip udp (ip4 ip.source) (ip4 ip.destination)
unfolding psa_dhcp.Net.to4
ip-IsBytes = record {
  ttl = omega arith;
  source = (omega arith, (omega arith, (omega arith, (omega arith, tt))));
  destination = (omega arith, (omega arith, (omega arith, (omega arith, tt))));
  payload = (omega arith, (omega arith, (omega arith, tt)));
}

checksums_verify_example :
    Verifies (take 20 (Ip.assemble ip))
    × Verifies (
        pseudo_header (ip4 ip.source) (ip4 ip.destination) (8 + length udp.payload)
        ++ drop 20 (Ip.assemble ip))
checksums_verify_example = checksums_verify ip udp ip-IsDatagram ip-IsBytes
