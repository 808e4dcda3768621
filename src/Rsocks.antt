-- ===== src/Rsocks.antt =====
-- lib/rsocks: the addresses of the raw sockets. The calls of the system themselves are left out.
use psa_dhcp.Base.{ℕ, ◌+◌, ◌*◌, ◌/◌, ◌%◌, ◌^◌, ◌<◌, ◌≡◌, arith, List, [], ◌∷◌, length}
use psa_dhcp.Base.Bytes.{copy, zeros}
use psa_dhcp.Net.{HardwareAddr}

-- In `uint16`; the two parts share no bit.
unfoldable pub htons : ℕ → ℕ
htons val = val / 2 ^ 8 + val * 2 ^ 8 % 2 ^ 16

abbrev pub eth_p_ip : ℕ
eth_p_ip = 0x0800

abbrev pub eth_p_arp : ℕ
eth_p_arp = 0x0806

abbrev pub bcast_addr : HardwareAddr
bcast_addr = 0xff ∷ 0xff ∷ 0xff ∷ 0xff ∷ 0xff ∷ 0xff ∷ []

-- `syscall.SockaddrLinklayer`.
pub record Sockaddr : Type 0 where
  pub protocol : ℕ
  pub halen : ℕ
  pub addr : List ℕ
  pub ifindex : ℕ

-- Where `getSendSock` and `getRecvSock` bind their sockets; `halen` is a `uint8`.
unfoldable pub send_sockaddr : (ifindex proto : ℕ) → HardwareAddr → Sockaddr
send_sockaddr ifindex proto hwaddr = record {
  protocol = proto;
  halen = length hwaddr % 2 ^ 8;
  addr = copy (zeros 8) hwaddr;
  ifindex = ifindex;
}

unfoldable pub recv_sockaddr : (ifindex proto : ℕ) → Sockaddr
recv_sockaddr ifindex proto = record {
  protocol = proto;
  halen = 0;
  addr = zeros 8;
  ifindex = ifindex;
}

unfoldable pub ip_send_sock : (ifindex : ℕ) → Sockaddr
unfolding send_sockaddr htons
ip_send_sock ifindex = send_sockaddr ifindex (htons eth_p_ip) bcast_addr

unfoldable pub unicast_send_sock : (ifindex : ℕ) → HardwareAddr → Sockaddr
unfolding send_sockaddr htons
unicast_send_sock ifindex hwaddr = send_sockaddr ifindex (htons eth_p_ip) hwaddr

unfoldable pub arp_send_sock : (ifindex : ℕ) → Sockaddr
unfolding send_sockaddr htons
arp_send_sock ifindex = send_sockaddr ifindex (htons eth_p_arp) bcast_addr

unfoldable pub ip_recv_sock : (ifindex : ℕ) → Sockaddr
unfolding recv_sockaddr htons
ip_recv_sock ifindex = recv_sockaddr ifindex (htons eth_p_ip)

unfoldable pub arp_recv_sock : (ifindex : ℕ) → Sockaddr
unfolding recv_sockaddr htons
arp_recv_sock ifindex = recv_sockaddr ifindex (htons eth_p_arp)

-- `htons` of a 16-bit number is a 16-bit number, and twice applied it gives the number back.
pub htons-htons : (val : ℕ) → val < 2 ^ 16 → (htons val < 2 ^ 16) × (htons (htons val) ≡ val)
unfolding htons
htons-htons val h = (omega arith, omega arith)
