-- ===== src/Layer.antt =====
-- lib/layer: IPv4, UDP and ARP packets as bytes.
pub mod Checksum
pub mod Ip
pub mod Udp
pub mod Arp
pub mod Stack
