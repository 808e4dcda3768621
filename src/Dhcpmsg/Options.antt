-- ===== src/Dhcpmsg/Options.antt =====
-- lib/dhcpmsg/optshelper.go: the options of a message by name.
use psa_dhcp.Base.{ℕ, ◌*◌, ◌%◌, ◌&&◌, ◌==◌, leb, if◌then◌else◌, List, [], ◌∷◌, length}
use psa_dhcp.Base.Bytes.{u16, u32}
use psa_dhcp.Net.{Ip, IpMask, ipv4}
use psa_dhcp.Dhcpmsg.{
  DhcpOpt, DecodedOptions, opt_subnet_mask, opt_router, opt_dns, opt_domain_name, opt_interface_mtu,
  opt_broadcast_address, opt_requested_ip, opt_ip_address_lease_duration, opt_message_type,
  opt_server_identifier, opt_parameters_list, opt_message, opt_max_message_size,
  opt_renewal_duration, opt_rebind_duration, opt_client_identifier,
}

unfoldable pub to_uint8 : List ℕ → ℕ
to_uint8 (x ∷ []) = x
to_uint8 _ = 0

unfoldable pub to_uint16 : List ℕ → ℕ
to_uint16 (a ∷ b ∷ []) = u16 a b
to_uint16 _ = 0

abbrev pub second : ℕ
second = 1_000_000_000

unfoldable pub to_duration : List ℕ → ℕ
to_duration (a ∷ b ∷ c ∷ d ∷ []) = second * u32 a b c d
to_duration _ = 0

unfoldable pub to_netmask : List ℕ → IpMask
to_netmask (a ∷ b ∷ c ∷ d ∷ []) = a ∷ b ∷ c ∷ d ∷ []
to_netmask _ = []

-- The loop of `toV4A`: an address for each four bytes.
abbrev pub v4a_loop : List ℕ → List Ip
v4a_loop (a ∷ b ∷ c ∷ d ∷ rest) = ipv4 a b c d ∷ v4a_loop rest
v4a_loop _ = []

unfoldable pub to_v4a : List ℕ → List Ip
to_v4a x = if leb 4 (length x) && (length x % 4 == 0) then v4a_loop x else []

-- The address, if there is exactly one.
abbrev pub only : List Ip → Ip
only (ip ∷ []) = ip
only _ = []

unfoldable pub to_v4 : List ℕ → Ip
unfolding to_v4a
to_v4 x = only (to_v4a x)

abbrev pub no_options : DecodedOptions
no_options = record {
  message_type = 0;
  max_message_size = 0;
  interface_mtu = 0;
  requested_ip = [];
  server_identifier = [];
  broadcast_address = [];
  subnet_mask = [];
  routers = [];
  dns = [];
  ip_address_lease_duration = 0;
  renewal_duration = 0;
  rebind_duration = 0;
  domain_name = [];
  client_identifier = [];
  message = [];
  parameters_list = [];
}

-- The `switch` on the code of one option.
unfoldable pub decode_option : DecodedOptions → ℕ → List ℕ → DecodedOptions
unfolding to_uint8 to_uint16 to_duration to_netmask to_v4a to_v4
decode_option d code x =
    if code == opt_subnet_mask
    then record d { subnet_mask = to_netmask x }
    else if code == opt_router
    then record d { routers = to_v4a x }
    else if code == opt_dns
    then record d { dns = to_v4a x }
    else if code == opt_domain_name
    then record d { domain_name = x }
    else if code == opt_broadcast_address
    then record d { broadcast_address = to_v4 x }
    else if code == opt_requested_ip
    then record d { requested_ip = to_v4 x }
    else if code == opt_ip_address_lease_duration
    then record d { ip_address_lease_duration = to_duration x }
    else if code == opt_message_type
    then record d { message_type = to_uint8 x }
    else if code == opt_max_message_size
    then record d { max_message_size = to_uint16 x }
    else if code == opt_interface_mtu
    then record d { interface_mtu = to_uint16 x }
    else if code == opt_server_identifier
    then record d { server_identifier = to_v4 x }
    else if code == opt_message
    then record d { message = x }
    else if code == opt_renewal_duration
    then record d { renewal_duration = to_duration x }
    else if code == opt_rebind_duration
    then record d { rebind_duration = to_duration x }
    else if code == opt_client_identifier
    then record d { client_identifier = x }
    else if code == opt_parameters_list
    then record d { parameters_list = x }
    else d

-- The loop over the options: of two with one code, the later one counts.
unfoldable pub decode_from : DecodedOptions → List DhcpOpt → DecodedOptions
unfolding decode_option
decode_from d [] = d
decode_from d (o ∷ opts) = decode_from (decode_option d o.option o.payload) opts

unfoldable pub decode_options : List DhcpOpt → DecodedOptions
unfolding decode_from
decode_options opts = decode_from no_options opts
