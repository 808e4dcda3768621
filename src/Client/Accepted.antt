-- ===== src/Client/Accepted.antt =====
-- The client's state machine of lib/client/dclient on the packets that lib/server sends.
use psa_dhcp.Base.{
  ℕ, ◌+◌, ◌*◌, ◌/◌, ◌^◌, ◌<◌, ◌≤◌, ◌≡◌, refl, arith, Bool, true, false, not, ◌&&◌, some, List, ◌∷◌,
  length, bytes_eq_refl, ==_refl, ◌⊎◌, inl, inr,
}
use psa_dhcp.Net.{Ip, HardwareAddr, is_nil, ip_equal}
use psa_dhcp.Dhcpmsg.{Message, DecodedOptions, msg_type_ack, msg_type_offer}
use psa_dhcp.Dhcpmsg.Assemble
use psa_dhcp.Dhcpmsg.Options.{second, decode_options}
use psa_dhcp.Dhcpmsg.RoundTrip.{IsWire, as_read, message_as_read}
use psa_dhcp.Server.Replies.{ack_message, offer_message, assemble_ack, assemble_offer}
use psa_dhcp.Server.Replies.Received.{Delivers, assemble_ack-Delivers, assemble_offer-Delivers}
use psa_dhcp.Server.State.{Server, dhcp_options}
use psa_dhcp.Client.Announced.{IsLeaseReply, announced_duration, decode_options-dhcp_options}
use psa_dhcp.Client.Verify.{Verdict, passed, min_lease, verify_offer, verify_gen_ack}
use psa_dhcp.Client.Verify.Sound.{IsHost, IsLease, verify_offer_iff, verify_gen_ack_iff}
use psa_dhcp.Client.Dclient.{message_of, catch_reply, reply}

ip_equal_refl : (ip : Ip) → ip_equal ip ip ≡ true
unfolding ip_equal
ip_equal_refl ip = rw (ip_equal, ==_refl (length ip)) (bytes_eq_refl ip)

-- A packet of a message to the client, read by the client.
message_of-Delivers :
    (packet : List ℕ) (src dst : Ip) (msg : Message)
    → Delivers packet src dst msg
    → message_of msg.client_mac packet ≡ some (message_as_read msg)
unfolding message_of
message_of-Delivers packet src dst msg d =
    rw
      (
        message_of,
        d.is_ipv4,
        d.protocol,
        d.is_udp,
        d.dst_port,
        d.is_message,
        bytes_eq_refl msg.client_mac,
      )
      refl

-- The first packet that the client reads, when it passes the check.
catch_reply-first :
    (mac : HardwareAddr) (vrfy : Message → DecodedOptions → Verdict) (packet : List ℕ)
    (packets : List (List ℕ)) (m : Message)
    → message_of mac packet ≡ some m
    → vrfy m (decode_options m.options) ≡ passed
    → catch_reply mac vrfy (packet ∷ packets) ≡ reply m (decode_options m.options)
unfolding catch_reply
catch_reply-first mac vrfy packet packets m e p = rw (e, catch_reply, p) refl

-- What the server needs for a lease that a client can use: a router of its own, an address of its
-- own that is a host's, a duration of at least a minute that fits its option.
pub record CanLease (sx : Server) : Type 0 where
  pub router : is_nil sx.lopts.router ≡ false
  pub host : IsHost (as_read sx.self_ip)
  pub long : min_lease ≤ sx.lopts.lease_duration
  pub fits : sx.lopts.lease_duration / second < 2 ^ 32

-- A message that fits the wire, in a packet that fits its length field.
pub record Fits (msg : Message) : Type 0 where
  pub wire : IsWire msg
  pub size : 28 + length (Assemble.assemble msg) < 2 ^ 16

module _ (sx : Server) (can : CanLease sx) (mac : HardwareAddr) (ip : Ip)
    (host : IsHost (as_read ip)) (xid flags : ℕ) where
  abbrev pub acked : Message
  acked = message_as_read (ack_message xid flags sx.self_ip ip mac (dhcp_options sx mac))

  abbrev pub offered : Message
  offered = message_as_read (offer_message xid flags sx.self_ip ip mac (dhcp_options sx mac))

  long_enough : min_lease ≤ announced_duration sx
  long_enough = whole sx.lopts.lease_duration can.long
    where
      whole : (d : ℕ) → 60_000_000_000 ≤ d → 60_000_000_000 ≤ 1_000_000_000 * (d / 1_000_000_000)
      whole d h = omega (arith, h)

  usable :
      {type : ℕ} (m : Message) (opts : DecodedOptions)
      → m.xid ≡ xid
      → m.your_ip ≡ as_read ip
      → IsLeaseReply type (as_read sx.self_ip) (announced_duration sx) opts
      → IsLease xid m opts
  usable m opts x y l = record {
    transaction = x;
    router = λ z. cc (l.router, z);
    address = rw y host;
    server = rw l.is_reply.server_identifier can.host;
    duration = rw l.is_reply.lease_duration long_enough;
  }

  -- What the client reads of the options of the two replies.
  pub offered_options :
      IsLeaseReply msg_type_offer
        (as_read sx.self_ip)
        (announced_duration sx)
        (decode_options offered.options)
  offered_options = decode_options-dhcp_options msg_type_offer sx.self_ip sx mac can.router can.fits

  pub acked_options :
      IsLeaseReply msg_type_ack
        (as_read sx.self_ip)
        (announced_duration sx)
        (decode_options acked.options)
  acked_options = decode_options-dhcp_options msg_type_ack sx.self_ip sx mac can.router can.fits

  pub offer-caught :
      (packets : List (List ℕ))
      → Fits (offer_message xid flags sx.self_ip ip mac (dhcp_options sx mac))
      → catch_reply mac
          (verify_offer xid)
          (assemble_offer xid flags sx.self_ip ip mac (dhcp_options sx mac) ∷ packets)
        ≡ reply offered (decode_options offered.options)
  offer-caught packets f =
      let opts = decode_options offered.options in
      catch_reply-first mac (verify_offer xid) _ packets offered
        (message_of-Delivers _ _ _ _
          (assemble_offer-Delivers xid flags sx.self_ip ip mac (dhcp_options sx mac) f.wire f.size))
        ((verify_offer_iff xid offered opts).1
          (offered_options.is_reply.message_type, usable offered opts refl refl offered_options))

  -- An acknowledgement of the address that the last message named, which the client asks of this
  -- server or of any.
  pub ack-caught :
      (lm : Message) (lopt : DecodedOptions) (vrfysi : Bool) (packets : List (List ℕ))
      → lm.your_ip ≡ as_read ip
      → (vrfysi ≡ false) ⊎ (lopt.server_identifier ≡ as_read sx.self_ip)
      → Fits (ack_message xid flags sx.self_ip ip mac (dhcp_options sx mac))
      → catch_reply mac
          (verify_gen_ack lm lopt xid vrfysi)
          (assemble_ack xid flags sx.self_ip ip mac (dhcp_options sx mac) ∷ packets)
        ≡ reply acked (decode_options acked.options)
  ack-caught lm lopt vrfysi packets y s f =
      let opts = decode_options acked.options in
      catch_reply-first mac (verify_gen_ack lm lopt xid vrfysi) _ packets acked
        (message_of-Delivers _ _ _ _
          (assemble_ack-Delivers xid flags sx.self_ip ip mac (dhcp_options sx mac) f.wire f.size))
        ((verify_gen_ack_iff lm lopt xid vrfysi acked opts).1 (
          acked_options.is_reply.message_type,
          rw y (ip_equal_refl (as_read ip)),
          same_server vrfysi opts.server_identifier lopt.server_identifier
              acked_options.is_reply.server_identifier s,
          usable acked opts refl refl acked_options,
        ))
    where
      same_server :
          (v : Bool) (a b : Ip)
          → a ≡ as_read sx.self_ip
          → (v ≡ false) ⊎ (b ≡ as_read sx.self_ip)
          → (v && not (ip_equal a b)) ≡ false
      same_server false a b ea s = refl
      same_server true a b ea (inl e) = absurd cc
      same_server true a b ea (inr e) = rw (ea, e, ip_equal_refl (as_read sx.self_ip)) refl
