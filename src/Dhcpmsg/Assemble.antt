-- ===== src/Dhcpmsg/Assemble.antt =====
-- lib/dhcpmsg/assemble.go: a message as bytes, and the options that are put into one.
pub mod Layout
use Prim.Native.Nat.{bit_xor}
use psa_dhcp.Base.{
  ℕ, zero, suc, ◌*◌, ◌/◌, ◌%◌, ◌^◌, ◌<◌, ◌==◌, ltb, if◌then◌else◌, none, some, List, [], ◌∷◌, ◌++◌,
  length, take,
}
use psa_dhcp.Base.Bytes.{copy_at, be16, be32, zeros}
use psa_dhcp.Net.{Ip, HardwareAddr, IpMask, to4, copy_ip4}
use psa_dhcp.Dhcpmsg.{
  DhcpOpt, Message, opt_message_type, opt_hostname, opt_domain_name, opt_server_identifier,
  opt_requested_ip, opt_router, opt_dns, opt_ntp, opt_max_message_size, opt_interface_mtu,
  opt_client_identifier, opt_parameters_list, opt_ip_address_lease_duration, opt_subnet_mask,
}

-- `setU16Int(b[k:], val)`, `setU32Int(b[k:], val)` and `setIPv4(b[k:], ip)`.
abbrev pub set_u16_int : ℕ → ℕ → List ℕ → List ℕ
set_u16_int k val b = copy_at k (be16 val) b

abbrev pub set_u32_int : ℕ → ℕ → List ℕ → List ℕ
set_u32_int k val b = copy_at k (be32 val) b

abbrev pub set_ipv4 : ℕ → Ip → List ℕ → List ℕ
set_ipv4 k ip b = copy_ip4 k ip b

-- `b[k] = v`.
abbrev pub set_byte : ℕ → ℕ → List ℕ → List ℕ
set_byte k v b = copy_at k (v ∷ []) b

-- The fixed part, of 240 bytes.
unfoldable pub header : Message → List ℕ
header msg =
    let b = zeros 240 in
    let b = set_byte 0 msg.op b in
    let b = set_byte 1 msg.htype b in
    let b = set_byte 2 (length msg.client_mac % 256) b in
    let b = set_byte 3 msg.hops b in
    let b = set_u32_int 4 msg.xid b in
    let b = set_u16_int 8 msg.secs b in
    let b = set_u16_int 10 msg.flags b in
    let b = set_ipv4 12 msg.client_ip b in
    let b = set_ipv4 16 msg.your_ip b in
    let b = set_ipv4 20 msg.next_ip b in
    let b = set_ipv4 24 msg.relay_ip b in
    let b = copy_at 28 (take 16 msg.client_mac) b in
    let b = copy_at 44 msg.server_host_name b in
    let b = copy_at 108 msg.boot_filename b in set_u32_int 236 msg.cookie b

-- The loop over the options: code, length (`uint8(len(opt.Data))`), data.
unfoldable pub append_options : List ℕ → List DhcpOpt → List ℕ
append_options buf [] = buf
append_options buf (opt ∷ opts) =
    append_options (buf ++ (opt.option ∷ (length opt.payload % 256) ∷ opt.payload)) opts

unfoldable pub assemble : Message → List ℕ
unfolding header append_options
assemble msg =
    let buf = append_options (header msg) msg.options in
    if ltb 0 (length msg.options) then buf ++ (0xff ∷ []) else buf

abbrev pub dhcp_opt : ℕ → List ℕ → DhcpOpt
dhcp_opt o b = record { option = o; payload = b }

unfoldable pub option_type : ℕ → DhcpOpt
option_type t = dhcp_opt opt_message_type (t ∷ [])

unfoldable pub option_hostname : List ℕ → DhcpOpt
option_hostname n = dhcp_opt opt_hostname n

unfoldable pub option_domain_name : List ℕ → DhcpOpt
option_domain_name n = dhcp_opt opt_domain_name n

-- The loop of `optIP`: four bytes for each address, left 0 where it is not IPv4.
abbrev pub opt_ip_bytes : List Ip → List ℕ
opt_ip_bytes [] = []
opt_ip_bytes (x ∷ ips) = elim (to4 x) [ none ↦ zeros 4 | some v4 ↦ v4 ] ++ opt_ip_bytes ips

abbrev pub opt_ip : ℕ → List Ip → DhcpOpt
opt_ip ot ips = dhcp_opt ot (opt_ip_bytes ips)

unfoldable pub option_server_identifier : Ip → DhcpOpt
option_server_identifier ip = opt_ip opt_server_identifier (ip ∷ [])

unfoldable pub option_requested_ip : Ip → DhcpOpt
option_requested_ip ip = opt_ip opt_requested_ip (ip ∷ [])

unfoldable pub option_router : Ip → DhcpOpt
option_router ip = opt_ip opt_router (ip ∷ [])

unfoldable pub option_dns : List Ip → DhcpOpt
option_dns ips = opt_ip opt_dns ips

unfoldable pub option_ntp : List Ip → DhcpOpt
option_ntp ips = opt_ip opt_ntp ips

unfoldable pub option_max_message_size : ℕ → DhcpOpt
option_max_message_size size = dhcp_opt opt_max_message_size (be16 size)

unfoldable pub option_interface_mtu : ℕ → DhcpOpt
option_interface_mtu size = dhcp_opt opt_interface_mtu (be16 size)

-- `crc32.ChecksumIEEE` of the standard library, a bit at a time.
crc32_bits : ℕ → ℕ → ℕ
crc32_bits zero crc = crc
crc32_bits (suc n) crc =
    crc32_bits n (if crc % 2 == 1 then bit_xor (crc / 2) 0xedb8_8320 else crc / 2)

crc32_bytes : List ℕ → ℕ → ℕ
crc32_bytes [] crc = crc
crc32_bytes (b ∷ bs) crc = crc32_bytes bs (crc32_bits 8 (bit_xor crc b))

unfoldable pub checksum_ieee : List ℕ → ℕ
unfolding crc32_bits crc32_bytes
checksum_ieee bs = bit_xor (crc32_bytes bs 0xffff_ffff) 0xffff_ffff

-- At most 6 bytes of the address are copied; the checksum covers all of it.
unfoldable pub option_client_identifier : HardwareAddr → DhcpOpt
unfolding checksum_ieee
option_client_identifier hwaddr =
    let id = zeros 15 in
    let id = set_u32_int 1 (checksum_ieee hwaddr) id in
    let id = copy_at 9 hwaddr id in
    let id = set_byte 0 0xff id in
    let id = set_byte 6 3 id in let id = set_byte 8 1 id in dhcp_opt opt_client_identifier id

unfoldable pub option_parameters_list : List ℕ → DhcpOpt
option_parameters_list params = dhcp_opt opt_parameters_list params

-- `uint32(d.Seconds())`, for `d` in nanoseconds.
unfoldable pub option_ip_address_lease_duration : ℕ → DhcpOpt
option_ip_address_lease_duration d =
    dhcp_opt opt_ip_address_lease_duration (be32 (d / 1_000_000_000 % 2 ^ 32))

unfoldable pub option_subnet_mask : IpMask → DhcpOpt
option_subnet_mask mask = dhcp_opt opt_subnet_mask mask
