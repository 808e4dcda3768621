-- ===== src/Server/State.antt =====
-- lib/server/server.go and lib/server/utils.go: the server, the options of its replies, the
-- identifiers of its clients and its check of an address by ARP.
use psa_dhcp.Base.{
  ℕ, ltb, Bool, true, false, if◌then◌else◌, Option, none, some, List, [], ◌∷◌, ◌++◌, length,
  bytes_eq, ok, err,
}
use psa_dhcp.Net.{Ip, HardwareAddr, is_nil}
use psa_dhcp.Dhcpmsg.{DhcpOpt}
use psa_dhcp.Dhcpmsg.Assemble.{
  option_ip_address_lease_duration, option_subnet_mask, option_router, option_dns, option_ntp,
  option_domain_name,
}
use psa_dhcp.Leaseopts.{LeaseOptions}
use psa_dhcp.Ipdb.Duid.{Duid, duid_string}
use psa_dhcp.Ipdb.Db.{Ipdb, lookup_client_by_duid}

-- The server, less the database, which the handlers pass on. `overrides` has the strings of
-- identifiers as its keys.
pub record Server : Type 0 where
  pub iface_addr : HardwareAddr
  pub self_ip : Ip
  pub lopts : LeaseOptions
  pub overrides : List ℕ → Option LeaseOptions

unfoldable pub duid_from_hw_addr : HardwareAddr → Duid
duid_from_hw_addr hw = (0 ∷ 3 ∷ 0 ∷ 0 ∷ []) ++ hw

unfoldable pub get_duid : ℕ → HardwareAddr → List ℕ → Ipdb → Duid × Ipdb
unfolding lookup_client_by_duid
get_duid now hwaddr cid ix =
    let sduid = duid_from_hw_addr hwaddr in
    let (found, ix') = lookup_client_by_duid now sduid ix in
    elim found [ ok ip ↦ (sduid, ix') | err e ↦ (if ltb (length cid) 4 then sduid else cid, ix') ]

-- The loop of `arpVerify`: `ping i` is what `arpping.Ping` returns the i-th time, `none` an error.
unfoldable pub arp_loop : HardwareAddr → (ping : ℕ → Option HardwareAddr) → List ℕ → Bool
arp_loop hw ping [] = true
arp_loop hw ping (i ∷ rest) =
    let later = arp_loop hw ping rest in elim (ping i) [ some v ↦ bytes_eq v hw | none ↦ later ]

unfoldable pub arp_verify : HardwareAddr → (ping : ℕ → Option HardwareAddr) → Bool
unfolding arp_loop bytes_eq
arp_verify hw ping = arp_loop hw ping (0 ∷ 1 ∷ 2 ∷ [])

-- A field of the override if the test finds it set, else that of the server's options, else none.
abbrev pub chosen {ℓ} :
    {A : Type ℓ}
    → (A → Bool)
    → (A → DhcpOpt)
    → (LeaseOptions → A)
    → Option LeaseOptions
    → LeaseOptions
    → List DhcpOpt
chosen unset opt field none lopts = if unset (field lopts) then [] else opt (field lopts) ∷ []
chosen unset opt field (some ov) lopts =
    if unset (field ov)
    then if unset (field lopts) then [] else opt (field lopts) ∷ []
    else opt (field ov) ∷ []

abbrev pub is_empty : List Ip → Bool
is_empty [] = true
is_empty (x ∷ xs) = false

unfoldable pub dhcp_options : Server → HardwareAddr → List DhcpOpt
unfolding duid_string duid_from_hw_addr
dhcp_options sx client_mac =
    let ov = sx.overrides (duid_string (duid_from_hw_addr client_mac)) in
    (option_ip_address_lease_duration sx.lopts.lease_duration
      ∷ option_subnet_mask sx.lopts.netmask
      ∷ [])
    ++ chosen is_nil option_router (λ o. o.router) ov sx.lopts
    ++ chosen is_empty option_dns (λ o. o.dns) ov sx.lopts
    ++ chosen is_empty option_ntp (λ o. o.ntp) ov sx.lopts
    ++ chosen is_nil option_domain_name (λ o. o.domain) ov sx.lopts
