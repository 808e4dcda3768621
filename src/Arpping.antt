-- ===== src/Arpping.antt =====
-- lib/arpping/arpping.go: who answers to an ARP request. The packets are those that are read until
-- the socket fails or the time is up.
use psa_dhcp.Base.{
  ℕ, ◌≡◌, refl, true, false, Option, none, some, List, [], ◌∷◌, ◌++◌, length, All, ok, err,
  if◌then◌else◌, bytes_eq_refl, ==_iff,
}
use psa_dhcp.Net.{Ip, HardwareAddr, ip_equal, to4, v4_in_v6_prefix}
use psa_dhcp.Layer.Arp.{Arp, ArpError, arp_op_request, decode_arp}
use psa_dhcp.Layer.Arp
use psa_dhcp.Layer.Arp.RoundTrip.{decode_arp-assemble}

-- The hardware address of a packet that is taken for the answer of `target`.
unfoldable pub answer_of : (target : Ip) → List ℕ → Option HardwareAddr
unfolding decode_arp ip_equal
answer_of target b = elim (decode_arp b) [
  | err e ↦ none
  | ok arp ↦ if ip_equal target arp.sender_ip then some arp.sender_mac else none
]

unfoldable pub catch_arp_reply : (target : Ip) → List (List ℕ) → Option HardwareAddr
unfolding answer_of
catch_arp_reply target [] = none
catch_arp_reply target (b ∷ packets) =
    let rest = catch_arp_reply target packets in
    elim (answer_of target b) [ some mac ↦ some mac | none ↦ rest ]

-- The packet that `sendARPPing` writes, once a second.
unfoldable pub arp_request : (iface : HardwareAddr) → (src dst : Ip) → List ℕ
unfolding Arp.assemble
arp_request iface src dst = Arp.assemble (record {
  opcode = arp_op_request;
  sender_mac = iface;
  sender_ip = src;
  target_mac = 0xff ∷ 0xff ∷ 0xff ∷ 0xff ∷ 0xff ∷ 0xff ∷ [];
  target_ip = dst;
})

-- The operation of a reply, by RFC 826.
abbrev pub arp_op_reply : ℕ
arp_op_reply = 2

-- A packet that is not the target's: no ARP packet, or one with another sender.
pub data NotFrom (target : Ip) (b : List ℕ) : Type 0 where
  undecoded : {e : ArpError} → decode_arp b ≡ err e → NotFrom target b
  from_other :
      {arp : Arp} → decode_arp b ≡ ok arp → ip_equal target arp.sender_ip ≡ false → NotFrom target b

NotFrom-none : (target : Ip) (b : List ℕ) → NotFrom target b → answer_of target b ≡ none
unfolding answer_of
NotFrom-none target b (undecoded h) = rw (h, answer_of) refl
NotFrom-none target b (from_other h other) = rw (h, answer_of, other) refl

ip_equal_refl : (ip : Ip) → ip_equal ip ip ≡ true
unfolding ip_equal
ip_equal_refl ip = rw ((==_iff (length ip) (length ip)).1 refl, ip_equal) (bytes_eq_refl ip)

heard :
    (u : Arp) (sip tip : List ℕ)
    → length u.sender_mac ≡ 6
    → length u.target_mac ≡ 6
    → to4 u.sender_ip ≡ some sip
    → to4 u.target_ip ≡ some tip
    → answer_of (v4_in_v6_prefix ++ sip) (Arp.assemble u) ≡ some u.sender_mac
unfolding answer_of
heard u sip tip hs ht es et =
    rw
      (decode_arp-assemble u sip tip hs ht es et, answer_of, ip_equal_refl (v4_in_v6_prefix ++ sip))
      refl

-- The reply of the host with the target's address is recognized: behind any packets that are no ARP
-- packets of that address, it gives the hardware address that the host put into it. Hardware
-- addresses have 6 bytes, and the addresses are IPv4.
pub catch_arp_reply-assemble :
    (u : Arp) (sip tip : List ℕ) (before after : List (List ℕ))
    → u.opcode ≡ arp_op_reply
    → length u.sender_mac ≡ 6
    → length u.target_mac ≡ 6
    → to4 u.sender_ip ≡ some sip
    → to4 u.target_ip ≡ some tip
    → All (NotFrom (v4_in_v6_prefix ++ sip)) before
    → catch_arp_reply (v4_in_v6_prefix ++ sip) (before ++ (Arp.assemble u ∷ after))
      ≡ some u.sender_mac
unfolding catch_arp_reply
catch_arp_reply-assemble u sip tip [] after is_reply hs ht es et a =
    rw (catch_arp_reply, heard u sip tip hs ht es et) refl
catch_arp_reply-assemble u sip tip (b ∷ before) after is_reply hs ht es et (h, a) =
    rw (NotFrom-none (v4_in_v6_prefix ++ sip) b h, catch_arp_reply)
      (catch_arp_reply-assemble u sip tip before after is_reply hs ht es et a)

-- A ping that meets no ARP packet of the target's address gives no hardware address.
pub catch_arp_reply-NotFrom :
    (target : Ip) (packets : List (List ℕ))
    → All (NotFrom target) packets
    → catch_arp_reply target packets ≡ none
unfolding catch_arp_reply
catch_arp_reply-NotFrom target [] a = refl
catch_arp_reply-NotFrom target (b ∷ packets) (h, a) =
    rw (NotFrom-none target b h, catch_arp_reply) (catch_arp_reply-NotFrom target packets a)
