-- ===== src/Server/Replies.antt =====
-- lib/server/replies: the packets that the server sends.
pub mod Received
use Prim.Native.Nat.{bit_and}
use psa_dhcp.Base.{ℕ, ◌==◌, not, Bool, if◌then◌else◌, List, [], ◌∷◌, ◌++◌}
use psa_dhcp.Base.Bytes.{zeros}
use psa_dhcp.Net.{Ip, HardwareAddr, ipv4_bcast}
use psa_dhcp.Dhcpmsg.{
  DhcpOpt, Message, op_reply, htype_ether, dhcp_cookie, flag_broadcast, msg_type_offer,
  msg_type_ack, msg_type_nack,
}
use psa_dhcp.Dhcpmsg.Assemble
use psa_dhcp.Dhcpmsg.Assemble.{option_type, option_server_identifier}
use psa_dhcp.Layer.Ip
use psa_dhcp.Layer.Udp

unfoldable pub assemble_udp : (src_ip dst_ip : Ip) → List ℕ → List ℕ
unfolding Ip.assemble Udp.assemble
assemble_udp src_ip dst_ip payload = Ip.assemble (record {
  identification = 0;
  flags = 0;
  ttl = 64;
  protocol = 0x11;
  checksum = 0;
  source = src_ip;
  destination = dst_ip;
  payload = Udp.assemble (record { src_port = 67; dst_port = 68; payload = payload });
})

-- `(flags & dhcpmsg.FlagBroadcast) != 0`.
abbrev pub is_broadcast : ℕ → Bool
is_broadcast flags = not (bit_and flags flag_broadcast == 0)

unfoldable pub dst_from_flag : ℕ → Ip → Ip
dst_from_flag flags dst = if is_broadcast flags then ipv4_bcast else dst

-- The message that the three replies are made from.
abbrev pub reply : (xid flags : ℕ) → Ip → HardwareAddr → List DhcpOpt → Message
reply xid flags your_ip dst_mac opts = record {
  op = op_reply;
  htype = htype_ether;
  hops = 0;
  xid = xid;
  secs = 0;
  flags = flags;
  client_ip = [];
  your_ip = your_ip;
  next_ip = [];
  relay_ip = [];
  client_mac = dst_mac;
  server_host_name = zeros 64;
  boot_filename = zeros 128;
  cookie = dhcp_cookie;
  options = opts;
}

abbrev pub ack_message :
    (xid flags : ℕ) → (src_ip dst_ip : Ip) → HardwareAddr → List DhcpOpt → Message
ack_message xid flags src_ip dst_ip dst_mac opts =
    reply xid flags dst_ip dst_mac
      ((option_type msg_type_ack ∷ option_server_identifier src_ip ∷ []) ++ opts)

abbrev pub offer_message :
    (xid flags : ℕ) → (src_ip dst_ip : Ip) → HardwareAddr → List DhcpOpt → Message
offer_message xid flags src_ip dst_ip dst_mac opts =
    reply xid flags dst_ip dst_mac
      ((option_type msg_type_offer ∷ option_server_identifier src_ip ∷ []) ++ opts)

abbrev pub nack_message : ℕ → Ip → HardwareAddr → Message
nack_message xid src_ip dst_mac =
    reply xid 0 [] dst_mac (option_type msg_type_nack ∷ option_server_identifier src_ip ∷ [])

unfoldable pub assemble_ack :
    (xid flags : ℕ) → (src_ip dst_ip : Ip) → HardwareAddr → List DhcpOpt → List ℕ
unfolding assemble_udp dst_from_flag Assemble.assemble
assemble_ack xid flags src_ip dst_ip dst_mac opts =
    assemble_udp src_ip (dst_from_flag flags dst_ip)
      (Assemble.assemble (ack_message xid flags src_ip dst_ip dst_mac opts))

unfoldable pub assemble_offer :
    (xid flags : ℕ) → (src_ip dst_ip : Ip) → HardwareAddr → List DhcpOpt → List ℕ
unfolding assemble_udp dst_from_flag Assemble.assemble
assemble_offer xid flags src_ip dst_ip dst_mac opts =
    assemble_udp src_ip (dst_from_flag flags dst_ip)
      (Assemble.assemble (offer_message xid flags src_ip dst_ip dst_mac opts))

unfoldable pub assemble_nack : ℕ → Ip → HardwareAddr → List ℕ
unfolding assemble_udp Assemble.assemble
assemble_nack xid src_ip dst_mac =
    assemble_udp src_ip ipv4_bcast (Assemble.assemble (nack_message xid src_ip dst_mac))
