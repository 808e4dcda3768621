-- ===== src/Layer/Arp.antt =====
-- lib/layer/arp.go: ARP packets for Ethernet and IPv4.
pub mod RoundTrip
use psa_dhcp.Base.{ℕ, ◌==◌, not, if◌then◌else◌, List, [], ◌∷◌, length, Result, ok, err}
use psa_dhcp.Base.Bytes.{at, be32, copy_at, slice, zeros}
use psa_dhcp.Net.{Ip, HardwareAddr, ipv4, copy_ip4}

abbrev pub arp_op_request : ℕ
arp_op_request = 1

pub record Arp : Type 0 where
  pub sender_mac : HardwareAddr
  pub sender_ip : Ip
  pub target_mac : HardwareAddr
  pub target_ip : Ip
  pub opcode : ℕ

unfoldable pub assemble : Arp → List ℕ
assemble u =
    let b = zeros 28 in
    let b = copy_at 0 (be32 0x0001_0800) b in
    let b = copy_at 4 (be32 0x0604_0000) b in
    let b = copy_at 7 (u.opcode ∷ []) b in
    let b = copy_at 8 u.sender_mac b in
    let b = copy_ip4 14 u.sender_ip b in
    let b = copy_at 18 u.target_mac b in copy_ip4 24 u.target_ip b

pub data ArpError : Type 0 where
  short_arp : ArpError

unfoldable pub decode_arp : List ℕ → Result ArpError Arp
decode_arp b =
    if not (length b == 28)
    then err short_arp
    else ok (record {
      opcode = at b 7;
      sender_mac = slice b 8 6;
      sender_ip = ipv4 (at b 14) (at b 15) (at b 16) (at b 17);
      target_mac = slice b 18 6;
      target_ip = ipv4 (at b 24) (at b 25) (at b 26) (at b 27);
    })
