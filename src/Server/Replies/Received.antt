-- ===== src/Server/Replies/Received.antt =====
-- What the client reads of the packets that the server sends.
use psa_dhcp.Base.{
  ℕ, ◌+◌, ◌^◌, ◌<◌, ◌≡◌, ◌≢◌, refl, sym, ap, ◌∙◌, arith, List, [], ◌∷◌, ◌++◌, append-nil, length,
  ok,
}
use psa_dhcp.Net.{Ip, HardwareAddr, v4_in_v6_prefix}
use psa_dhcp.Net.Laws.{ip4}
use psa_dhcp.Dhcpmsg.{DhcpOpt, Message}
use psa_dhcp.Dhcpmsg.Assemble
use psa_dhcp.Dhcpmsg.Parse.{decode}
use psa_dhcp.Dhcpmsg.RoundTrip.{IsWire, message_as_read, decode-assemble}
use psa_dhcp.Layer.Ip.{Ipv4, decode_ipv4}
use psa_dhcp.Layer.Udp
use psa_dhcp.Layer.Udp.{Udp, decode_udp}
use psa_dhcp.Layer.Stack.{decode-assemble_datagram}
use psa_dhcp.Server.Replies.{
  assemble_udp, ack_message, offer_message, assemble_ack, assemble_offer, dst_from_flag,
}

-- A packet from which the receiver reads the message `msg` between these addresses and ports.
pub record Delivers (packet : List ℕ) (src dst : Ip) (msg : Message) : Type 0 where
  pub v4 : Ipv4
  pub udp : Udp
  pub is_ipv4 : decode_ipv4 packet ≡ ok v4
  pub is_udp : decode_udp v4.payload ≡ ok udp
  pub protocol : v4.protocol ≡ 17
  pub source : v4.source ≡ v4_in_v6_prefix ++ ip4 src
  pub destination : v4.destination ≡ v4_in_v6_prefix ++ ip4 dst
  pub src_port : udp.src_port ≡ 67
  pub dst_port : udp.dst_port ≡ 68
  pub is_message : decode udp.payload ≡ ok (message_as_read msg)

assemble_udp-Delivers :
    (src dst : Ip) (msg : Message)
    → IsWire msg
    → msg.options ≢ []
    → 28 + length (Assemble.assemble msg) < 2 ^ 16
    → Delivers (assemble_udp src dst (Assemble.assemble msg)) src dst msg
unfolding assemble_udp
assemble_udp-Delivers src dst msg wire some_option size =
    let u : Udp = record { src_port = 67; dst_port = 68; payload = Assemble.assemble msg } in
    let (v4, e, p, s, d, e') =
      decode-assemble_datagram
        (record {
          identification = 0;
          flags = 0;
          ttl = 64;
          protocol = 17;
          checksum = 0;
          source = src;
          destination = dst;
          payload = Udp.assemble u;
        })
        u
        (record {
          udp = refl;
          payload = refl;
          src_port = omega arith;
          dst_port = omega arith;
          size = size;
          identification = omega arith;
          flags = omega arith;
        }) in
    record {
      v4 = v4;
      udp = u;
      is_ipv4 = e;
      is_udp = e';
      protocol = p;
      source = s;
      destination = d;
      src_port = refl;
      dst_port = refl;
      is_message =
          ap decode (sym (append-nil (Assemble.assemble msg)))
          ∙ decode-assemble msg [] wire some_option;
    }

cons-not_nil : (o : DhcpOpt) (os : List DhcpOpt) → (o ∷ os) ≢ []
cons-not_nil o os h = cc

module _ (xid flags : ℕ) (src_ip dst_ip : Ip) (mac : HardwareAddr) (opts : List DhcpOpt) where
  -- An ACK packet of less than 2 ^ 16 bytes, of a message whose fields and options fit their
  -- places, is read by the receiver as that message, from the server's address and port 67 to port
  -- 68.
  pub assemble_ack-Delivers :
      IsWire (ack_message xid flags src_ip dst_ip mac opts)
      → 28 + length (Assemble.assemble (ack_message xid flags src_ip dst_ip mac opts)) < 2 ^ 16
      → Delivers
          (assemble_ack xid flags src_ip dst_ip mac opts)
          src_ip
          (dst_from_flag flags dst_ip)
          (ack_message xid flags src_ip dst_ip mac opts)
  unfolding assemble_ack
  assemble_ack-Delivers wire size =
      assemble_udp-Delivers src_ip (dst_from_flag flags dst_ip) _ wire (cons-not_nil _ _) size

  -- An offer whose fields and options fit is read by the receiver as the message that the server
  -- made, from the server's address and port.
  pub assemble_offer-Delivers :
      IsWire (offer_message xid flags src_ip dst_ip mac opts)
      → 28 + length (Assemble.assemble (offer_message xid flags src_ip dst_ip mac opts)) < 2 ^ 16
      → Delivers
          (assemble_offer xid flags src_ip dst_ip mac opts)
          src_ip
          (dst_from_flag flags dst_ip)
          (offer_message xid flags src_ip dst_ip mac opts)
  unfolding assemble_offer
  assemble_offer-Delivers wire size =
      assemble_udp-Delivers src_ip (dst_from_flag flags dst_ip) _ wire (cons-not_nil _ _) size
