-- ===== src/Ipdb.antt =====
-- lib/server/ipdb: addresses, clients and leases. `Db` models ipdb.go, the others the packages below.
pub mod Uip
pub mod Duid
pub mod Keys
pub mod Clients
pub mod Db
pub mod Table
