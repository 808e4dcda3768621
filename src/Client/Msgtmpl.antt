-- ===== src/Client/Msgtmpl.antt =====
-- lib/client/msgtmpl: the client's messages. Random numbers are arguments: `xid` is made once for a
-- template, `identification` for each packet.
use psa_dhcp.Base.{ℕ, if◌then◌else◌, List, [], ◌∷◌, ◌++◌}
use psa_dhcp.Base.Bytes.{zeros}
use psa_dhcp.Net.{Ip, HardwareAddr, is_nil, ipv4_zero, ipv4_bcast}
use psa_dhcp.Dhcpmsg.{
  DhcpOpt, Message, op_request, htype_ether, dhcp_cookie, msg_type_discover, msg_type_request,
  opt_subnet_mask, opt_router, opt_ip_address_lease_duration, opt_server_identifier, opt_dns,
  opt_domain_name, opt_interface_mtu, opt_renewal_duration, opt_rebind_duration,
}
use psa_dhcp.Dhcpmsg.Assemble
use psa_dhcp.Dhcpmsg.Assemble.{
  option_type, option_client_identifier, option_max_message_size, option_parameters_list,
  option_requested_ip, option_server_identifier,
}
use psa_dhcp.Layer.Ip
use psa_dhcp.Layer.Udp

pub record Tmpl : Type 0 where
  pub xid : ℕ
  pub hwaddr : HardwareAddr

abbrev pub max_msg_size : ℕ
max_msg_size = 1500

abbrev pub parameters : List ℕ
parameters =
    opt_subnet_mask ∷ opt_router ∷ opt_ip_address_lease_duration ∷ opt_server_identifier ∷ opt_dns
    ∷ opt_domain_name ∷ opt_interface_mtu ∷ opt_renewal_duration ∷ opt_rebind_duration ∷ []

abbrev pub optional : (Ip → DhcpOpt) → Ip → List DhcpOpt
optional opt ip = if is_nil ip then [] else opt ip ∷ []

abbrev pub request_message :
    Tmpl → (msgtype : ℕ) → (source_ip requested_ip server_identifier : Ip) → Message
request_message rx msgtype source_ip requested_ip server_identifier = record {
  op = op_request;
  htype = htype_ether;
  hops = 0;
  xid = rx.xid;
  secs = 0;
  flags = 0;
  client_ip = source_ip;
  your_ip = [];
  next_ip = [];
  relay_ip = [];
  client_mac = rx.hwaddr;
  server_host_name = zeros 64;
  boot_filename = zeros 128;
  cookie = dhcp_cookie;
  options =
      (option_type msgtype
        ∷ option_client_identifier rx.hwaddr
        ∷ option_max_message_size max_msg_size
        ∷ option_parameters_list parameters
        ∷ [])
      ++ optional option_requested_ip requested_ip
      ++ optional option_server_identifier server_identifier;
}

unfoldable pub request :
    Tmpl
    → (identification msgtype : ℕ) → (source_ip destination_ip requested_ip server_identifier : Ip)
    → List ℕ
unfolding Ip.assemble Udp.assemble Assemble.assemble
request rx identification msgtype source_ip destination_ip requested_ip server_identifier =
    Ip.assemble (record {
      identification = identification;
      flags = 0;
      ttl = 64;
      protocol = Ip.proto_udp;
      checksum = 0;
      source = source_ip;
      destination = destination_ip;
      payload = Udp.assemble (record {
        src_port = 68;
        dst_port = 67;
        payload =
            Assemble.assemble (request_message rx msgtype source_ip requested_ip server_identifier);
      });
    })

-- What a sender function returns: the packet, and the two addresses of a unicast, or none.
pub record Sending : Type 0 where
  pub packet : List ℕ
  pub src : Ip
  pub dst : Ip

unfoldable pub discover : Tmpl → ℕ → Sending
unfolding request
discover t identification = record {
  packet = request t identification msg_type_discover ipv4_zero ipv4_bcast [] [];
  src = [];
  dst = [];
}

unfoldable pub request_selecting : Tmpl → (requested_ip server_identifier : Ip) → ℕ → Sending
unfolding request
request_selecting t requested_ip server_identifier identification = record {
  packet =
      request t identification msg_type_request ipv4_zero ipv4_bcast requested_ip server_identifier;
  src = [];
  dst = [];
}

unfoldable pub request_renewing : Tmpl → (requested_ip server_identifier : Ip) → ℕ → Sending
unfolding request
request_renewing t requested_ip server_identifier identification = record {
  packet = request t identification msg_type_request requested_ip server_identifier [] [];
  src = requested_ip;
  dst = server_identifier;
}

unfoldable pub request_rebinding : Tmpl → (requested_ip : Ip) → ℕ → Sending
unfolding request
request_rebinding t requested_ip identification = record {
  packet = request t identification msg_type_request requested_ip ipv4_bcast [] [];
  src = [];
  dst = [];
}
