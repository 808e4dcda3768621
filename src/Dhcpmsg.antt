-- ===== src/Dhcpmsg.antt =====
-- lib/dhcpmsg: the wire format of DHCP. Here the constants (constants.go) and the types; `Assemble`
-- models assemble.go, `Parse` parse.go and `Options` optshelper.go.
pub mod Assemble
pub mod Parse
pub mod Options
pub mod RoundTrip
pub mod Grammar
use psa_dhcp.Base.{ℕ, List}
use psa_dhcp.Net.{Ip, HardwareAddr, IpMask}

abbrev pub op_request : ℕ
op_request = 1

abbrev pub op_reply : ℕ
op_reply = 2

abbrev pub htype_ether : ℕ
htype_ether = 1

abbrev pub flag_broadcast : ℕ
flag_broadcast = 0x8000

abbrev pub dhcp_cookie : ℕ
dhcp_cookie = 0x63825363

-- Message types.
abbrev pub msg_type_discover : ℕ
msg_type_discover = 1

abbrev pub msg_type_offer : ℕ
msg_type_offer = 2

abbrev pub msg_type_request : ℕ
msg_type_request = 3

abbrev pub msg_type_ack : ℕ
msg_type_ack = 5

abbrev pub msg_type_nack : ℕ
msg_type_nack = 6

-- Option codes.
abbrev pub opt_padding : ℕ
opt_padding = 0

abbrev pub opt_subnet_mask : ℕ
opt_subnet_mask = 1

abbrev pub opt_router : ℕ
opt_router = 3

abbrev pub opt_dns : ℕ
opt_dns = 6

abbrev pub opt_hostname : ℕ
opt_hostname = 12

abbrev pub opt_domain_name : ℕ
opt_domain_name = 15

abbrev pub opt_interface_mtu : ℕ
opt_interface_mtu = 26

abbrev pub opt_broadcast_address : ℕ
opt_broadcast_address = 28

abbrev pub opt_ntp : ℕ
opt_ntp = 42

abbrev pub opt_requested_ip : ℕ
opt_requested_ip = 50

abbrev pub opt_ip_address_lease_duration : ℕ
opt_ip_address_lease_duration = 51

abbrev pub opt_message_type : ℕ
opt_message_type = 53

abbrev pub opt_server_identifier : ℕ
opt_server_identifier = 54

abbrev pub opt_parameters_list : ℕ
opt_parameters_list = 55

abbrev pub opt_message : ℕ
opt_message = 56

abbrev pub opt_max_message_size : ℕ
opt_max_message_size = 57

abbrev pub opt_renewal_duration : ℕ
opt_renewal_duration = 58

abbrev pub opt_rebind_duration : ℕ
opt_rebind_duration = 59

abbrev pub opt_client_identifier : ℕ
opt_client_identifier = 61

abbrev pub opt_end : ℕ
opt_end = 255

-- `payload` is the field `Data`.
pub record DhcpOpt : Type 0 where
  pub option : ℕ
  pub payload : List ℕ

-- `server_host_name` and `boot_filename` are arrays of 64 and 128 bytes.
pub record Message : Type 0 where
  pub op : ℕ
  pub htype : ℕ
  pub hops : ℕ
  pub xid : ℕ
  pub secs : ℕ
  pub flags : ℕ
  pub client_ip : Ip
  pub your_ip : Ip
  pub next_ip : Ip
  pub relay_ip : Ip
  pub client_mac : HardwareAddr
  pub server_host_name : List ℕ
  pub boot_filename : List ℕ
  pub cookie : ℕ
  pub options : List DhcpOpt

-- Durations are counted in nanoseconds.
pub record DecodedOptions : Type 0 where
  pub message_type : ℕ
  pub max_message_size : ℕ
  pub interface_mtu : ℕ
  pub requested_ip : Ip
  pub server_identifier : Ip
  pub broadcast_address : Ip
  pub subnet_mask : IpMask
  pub routers : List Ip
  pub dns : List Ip
  pub ip_address_lease_duration : ℕ
  pub renewal_duration : ℕ
  pub rebind_duration : ℕ
  pub domain_name : List ℕ
  pub client_identifier : List ℕ
  pub message : List ℕ
  pub parameters_list : List ℕ
