-- ===== src/Layer/Ip.antt =====
-- lib/layer/ip.go: IPv4 packets.
pub mod Layout
use psa_dhcp.Base.{
  ℕ, ◌+◌, ◌*◌, ◌/◌, ◌%◌, ◌-◌, ◌==◌, ltb, Bool, true, false, ◌||◌, not, if◌then◌else◌, List, [], ◌∷◌,
  length, take, drop, Result, ok, err,
}
use psa_dhcp.Base.Bytes.{at, be16, copy_at, u16_at, zeros}
use psa_dhcp.Net
use psa_dhcp.Net.{ipv4, copy_ip4}
use psa_dhcp.Layer.Checksum.{set_v4_checksum}

abbrev pub proto_udp : ℕ
proto_udp = 0x11

abbrev pub ipv4_hlen : ℕ
ipv4_hlen = 20

-- `payload` is the field `Data`.
pub record Ipv4 : Type 0 where
  pub identification : ℕ
  pub flags : ℕ
  pub ttl : ℕ
  pub protocol : ℕ
  pub checksum : ℕ
  pub source : Net.Ip
  pub destination : Net.Ip
  pub payload : List ℕ

-- The buffer before the checksums are set.
unfoldable pub without_checksums : Ipv4 → List ℕ
without_checksums h =
    let dlen = length h.payload in
    let b = zeros (ipv4_hlen + dlen) in
    let b = copy_at 0 (0x45 ∷ []) b in
    let b = copy_at 1 (0 ∷ []) b in
    let b = copy_at 2 (be16 (ipv4_hlen + dlen)) b in
    let b = copy_at 4 (be16 h.identification) b in
    let b = copy_at 6 (be16 h.flags) b in
    let b = copy_at 8 (h.ttl ∷ []) b in
    let b = copy_at 9 (h.protocol ∷ []) b in
    let b = copy_ip4 12 h.source b in let b = copy_ip4 16 h.destination b in copy_at 20 h.payload b

-- The error of `setV4Checksum` is dropped.
unfoldable pub assemble : Ipv4 → List ℕ
assemble h = (set_v4_checksum (without_checksums h)).0

pub data IpError : Type 0 where
  short_ipv4 invalid_packet truncated_packet : IpError

unfoldable pub decode_ipv4 : List ℕ → Result IpError Ipv4
decode_ipv4 b =
    let plen = length b in
    let version = at b 0 / 16 in
    let ihl = at b 0 % 16 * 4 in
    let tlen = u16_at b 2 in
    if ltb plen ipv4_hlen
    then err short_ipv4
    else if not (version == 4) || ltb plen ihl || ltb ihl ipv4_hlen
    then err invalid_packet
    else if not (tlen == plen)
    then err truncated_packet
    else ok (record {
      identification = u16_at b 4;
      flags = u16_at b 6;
      ttl = at b 8;
      protocol = at b 9;
      checksum = u16_at b 10;
      source = ipv4 (at b 12) (at b 13) (at b 14) (at b 15);
      destination = ipv4 (at b 16) (at b 17) (at b 18) (at b 19);
      payload = drop ihl (take tlen b);
    })
