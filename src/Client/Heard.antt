-- ===== src/Client/Heard.antt =====
-- What the server of lib/server makes of the requests of lib/client/msgtmpl.
use psa_dhcp.Base.{
  ℕ, ◌≡◌, ◌≢◌, refl, Bool, true, false, not, ◌&&◌, Bool-cases, inl, inr, some, List, [], ◌∷◌, ◌++◌,
  bytes_eq_refl,
}
use psa_dhcp.Net.{Ip, is_nil, ip_equal, ipv4_bcast, ipv4_zero}
use psa_dhcp.Dhcpmsg.{DecodedOptions, msg_type_request}
use psa_dhcp.Dhcpmsg.Assemble
use psa_dhcp.Dhcpmsg.Assemble.{
  option_requested_ip, option_server_identifier, option_type, option_client_identifier,
  option_max_message_size, option_parameters_list,
}
use psa_dhcp.Dhcpmsg.Options.{decode_option, decode_from, decode_options, to_v4}
use psa_dhcp.Dhcpmsg.RoundTrip.{as_read}
use psa_dhcp.Layer.Udp
use psa_dhcp.Layer.Udp.{Udp}
use psa_dhcp.Client.Msgtmpl.{Tmpl, request_message}
use psa_dhcp.Client.Announced.{to_v4a-ip4}
use psa_dhcp.Ipdb.Db.{Ipdb}
use psa_dhcp.Server.State.{Server}
use psa_dhcp.Server.Handlers.{desired_ip}

is_bcast : ip_equal (as_read ipv4_bcast) ipv4_bcast ≡ true
unfolding ip_equal psa_dhcp.Net.to4 psa_dhcp.Base.bytes_eq
is_bcast = refl

-- The options of a request that names an address and a server, and of one that names none.
named :
    (rx : Tmpl) (type : ℕ) (src requested server : Ip)
    → is_nil requested ≡ false
    → is_nil server ≡ false
    → ((decode_options (request_message rx type src requested server).options).requested_ip
        ≡ as_read requested)
      × ((decode_options (request_message rx type src requested server).options).server_identifier
          ≡ as_read server)
unfolding decode_options decode_from decode_option option_requested_ip option_server_identifier
    option_type option_client_identifier option_max_message_size option_parameters_list to_v4
named rx type src requested server r s =
    (rw (r, s, to_v4a-ip4 requested) refl, rw (r, s, to_v4a-ip4 server) refl)

unnamed :
    (rx : Tmpl) (type : ℕ) (src : Ip)
    → ((decode_options (request_message rx type src [] []).options).requested_ip ≡ [])
      × ((decode_options (request_message rx type src [] []).options).server_identifier ≡ [])
unfolding decode_options decode_from decode_option option_type option_client_identifier
    option_max_message_size option_parameters_list
unnamed rx type src = (refl, refl)

-- A request that names nothing is about its source.
module _ (sx : Server) (src dst : Ip) (opts : DecodedOptions) (r : opts.requested_ip ≡ [])
    (s : opts.server_identifier ≡ []) where
  desired_ip-to_self : ip_equal dst sx.self_ip ≡ true → desired_ip sx src dst opts ≡ some src
  unfolding desired_ip
  desired_ip-to_self self = elim (Bool-cases (ip_equal dst ipv4_bcast)) [
    | inl e ↦ elim (Bool-cases (ip_equal [] sx.self_ip)) [
      | inl e' ↦ rw (desired_ip, r, s, self, e, e') refl
      | inr e' ↦ rw (desired_ip, r, s, self, e, e') refl
    ]
    | inr e ↦ rw (desired_ip, r, s, self, e) refl
  ]

  desired_ip-to_all : ip_equal dst ipv4_bcast ≡ true → desired_ip sx src dst opts ≡ some src
  unfolding desired_ip
  desired_ip-to_all e = elim (Bool-cases (ip_equal dst sx.self_ip)) [
    | inl self ↦ desired_ip-to_self self
    | inr self ↦ elim (Bool-cases (ip_equal [] sx.self_ip)) [
      | inl e' ↦ rw (desired_ip, r, s, self, e, e') refl
      | inr e' ↦ rw (desired_ip, r, s, self, e, e') refl
    ]
  ]

-- A server reads of each request of a client, in selecting, renewing and rebinding, that it is about
-- the address that the client asks for, if that address and the client's server are not nil and the
-- client's server is this one.
pub desired_ip-request :
    (sx : Server) (rx : Tmpl) (ip server : Ip)
    → is_nil ip ≡ false
    → is_nil server ≡ false
    → ip_equal (as_read server) sx.self_ip ≡ true
    → (desired_ip sx
          (as_read ipv4_zero)
          (as_read ipv4_bcast)
          (decode_options (request_message rx msg_type_request ipv4_zero ip server).options)
        ≡ some (as_read ip))
      × (desired_ip sx
            (as_read ip)
            (as_read server)
            (decode_options (request_message rx msg_type_request ip [] []).options)
          ≡ some (as_read ip))
      × (desired_ip sx
            (as_read ip)
            (as_read ipv4_bcast)
            (decode_options (request_message rx msg_type_request ip [] []).options)
          ≡ some (as_read ip))
unfolding desired_ip
desired_ip-request sx rx ip server given given' self =
    let (r, s) = named rx msg_type_request ipv4_zero ip server given given' in
    let (r', s') = unnamed rx msg_type_request ip in
    let opts = decode_options (request_message rx msg_type_request ip [] []).options in
    (
      rw (desired_ip, s, r, is_bcast, self) refl,
      desired_ip-to_self sx (as_read ip) (as_read server) opts r' s' self,
      desired_ip-to_all sx (as_read ip) (as_read ipv4_bcast) opts r' s' is_bcast,
    )
