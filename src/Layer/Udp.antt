-- ===== src/Layer/Udp.antt =====
-- lib/layer/udp.go: UDP segments.
pub mod RoundTrip
use psa_dhcp.Base.{ℕ, ◌+◌, ◌==◌, ltb, not, if◌then◌else◌, List, length, drop, Result, ok, err}
use psa_dhcp.Base.Bytes.{be16, copy_at, u16_at, zeros}

abbrev pub udp_hlen : ℕ
udp_hlen = 8

-- `payload` is the field `Data`.
pub record Udp : Type 0 where
  pub src_port : ℕ
  pub dst_port : ℕ
  pub payload : List ℕ

unfoldable pub assemble : Udp → List ℕ
assemble u =
    let dlen = length u.payload in
    let b = zeros (udp_hlen + dlen) in
    let b = copy_at 0 (be16 u.src_port) b in
    let b = copy_at 2 (be16 u.dst_port) b in
    let b = copy_at 4 (be16 (udp_hlen + dlen)) b in copy_at 8 u.payload b

pub data UdpError : Type 0 where
  short_udp truncated_udp : UdpError

unfoldable pub decode_udp : List ℕ → Result UdpError Udp
decode_udp b =
    let plen = length b in
    let tlen = u16_at b 4 in
    if ltb plen udp_hlen
    then err short_udp
    else if not (tlen == plen)
    then err truncated_udp
    else ok (record { src_port = u16_at b 0; dst_port = u16_at b 2; payload = drop udp_hlen b })
