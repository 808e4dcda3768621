-- ===== src/Server/Handlers.antt =====
-- lib/server/netio.go and lib/server/run.go: what the server does with a message. A handler takes the
-- database and returns it with the frames that it sends. `World` is what it meets: the readings of
-- the clock, what other handlers do to the database between its calls, the answers to ARP, the
-- random order of the search.
use psa_dhcp.Base.{
  ℕ, ◌*◌, ◌==◌, ◌&&◌, not, Bool, if◌then◌else◌, Option, none, some, List, [], ◌∷◌, bytes_eq, ok,
  err,
}
use psa_dhcp.Net.{Ip, HardwareAddr, is_nil, ip_equal, ipv4_bcast}
use psa_dhcp.Dhcpmsg.{
  DhcpOpt, Message, DecodedOptions, op_request, msg_type_discover, msg_type_request,
}
use psa_dhcp.Dhcpmsg.Parse.{decode}
use psa_dhcp.Dhcpmsg.Options.{decode_options, second}
use psa_dhcp.Layer.Ip.{decode_ipv4}
use psa_dhcp.Layer.Udp.{decode_udp}
use psa_dhcp.Ipdb.Duid.{Duid}
use psa_dhcp.Ipdb.Db.{Ipdb, Round, in_managed_range, lookup_client_by_duid, update_client, find_ip}
use psa_dhcp.Server.Replies.{is_broadcast, assemble_ack, assemble_offer, assemble_nack}
use psa_dhcp.Server.State.{Server, get_duid, arp_verify, dhcp_options}

pub record World : Type 0 where
  pub clock : ℕ → ℕ
  pub meanwhile : ℕ → Ipdb → Ipdb
  pub round_clock : ℕ → ℕ
  pub cancelled : ℕ → Bool
  pub ping : (round : ℕ) → Ip → (attempt : ℕ) → Option HardwareAddr
  pub perm : ℕ → List ℕ

-- What goes out: the hardware address of the receiver and the packet.
pub record Frame : Type 0 where
  pub to : HardwareAddr
  pub packet : List ℕ

-- What a handler ends with.
pub data Outcome : Type 0 where
  panic : Outcome
  sent : List Frame → Outcome

abbrev pub ether_bcast : HardwareAddr
ether_bcast = 0xff ∷ 0xff ∷ 0xff ∷ 0xff ∷ 0xff ∷ 0xff ∷ []

unfoldable pub send_nack : Server → ℕ → HardwareAddr → Frame
unfolding assemble_nack
send_nack sx xid mac = record { to = mac; packet = assemble_nack xid sx.self_ip mac }

unfoldable pub send_msg :
    Server → Message → Ip → (ℕ → ℕ → Ip → Ip → HardwareAddr → List DhcpOpt → List ℕ) → Frame
unfolding dhcp_options
send_msg sx msg ip f = record {
  to = if is_broadcast msg.flags then ether_bcast else msg.client_mac;
  packet = f msg.xid msg.flags sx.self_ip ip msg.client_mac (dhcp_options sx msg.client_mac);
}

-- What the rounds of the search meet.
abbrev pub rounds : World → HardwareAddr → ℕ → Round
rounds w hw i = record {
  now = w.round_clock i;
  cancelled = w.cancelled i;
  is_free = λ ip. arp_verify hw (w.ping i ip);
}

unfoldable pub handle_discover :
    Server → World → (dst : Ip) → Duid → Message → DecodedOptions → Ipdb → Outcome × Ipdb
unfolding ip_equal find_ip update_client send_msg assemble_offer
handle_discover sx w dst duid msg opts ix =
    if not (ip_equal dst ipv4_bcast)
    then (sent [], ix)
    else if not (is_nil opts.server_identifier)
    then (sent [], ix)
    else let (found, ix1) =
        find_ip (w.clock 1) (rounds w msg.client_mac) w.perm opts.requested_ip duid
          (w.meanwhile 1 ix) in
      elim found [
        | err e ↦ (sent [], ix1)
        | ok offer ↦
            let (failed, ix2) =
              update_client (w.clock 2) offer duid (15 * second) (w.meanwhile 2 ix1) in
            elim failed [
              | some e ↦ (sent [], ix2)
              | none ↦ (sent (send_msg sx msg offer assemble_offer ∷ []), ix2)
            ]
      ]

-- The address that a request is about, if it is one of the four that the table allows.
unfoldable pub desired_ip : Server → (src dst : Ip) → DecodedOptions → Option Ip
unfolding ip_equal
desired_ip sx src dst opts =
    if ip_equal dst ipv4_bcast && is_nil opts.server_identifier && not (is_nil opts.requested_ip)
    then some opts.requested_ip
    else if ip_equal dst ipv4_bcast
        && ip_equal opts.server_identifier sx.self_ip
        && not (is_nil opts.requested_ip)
    then some opts.requested_ip
    else if ip_equal dst sx.self_ip && is_nil opts.server_identifier && is_nil opts.requested_ip
    then some src
    else if ip_equal dst ipv4_bcast && is_nil opts.server_identifier && is_nil opts.requested_ip
    then some src
    else none

-- The rest of `handleRequest`, from the call of `LookupClientByDuid` on.
unfoldable pub confirm : Server → World → (desired : Ip) → Duid → Message → Ipdb → Outcome × Ipdb
unfolding ip_equal lookup_client_by_duid arp_verify update_client send_msg send_nack assemble_ack
confirm sx w desired duid msg ix =
    let refuse = sent (send_nack sx msg.xid msg.client_mac ∷ []) in
    let (found, ix1) = lookup_client_by_duid (w.clock 1) duid (w.meanwhile 1 ix) in
    elim found [
      | err e ↦ (refuse, ix1)
      | ok lease ↦
          let (failed, ix2) =
            update_client (w.clock 2) lease duid sx.lopts.lease_duration (w.meanwhile 2 ix1) in
          if not (ip_equal desired lease)
          then (refuse, ix1)
          else if not (arp_verify msg.client_mac (w.ping 0 lease))
          then (refuse, ix1)
          else elim failed [
            | some e ↦ (sent [], ix2)
            | none ↦ (sent (send_msg sx msg lease assemble_ack ∷ []), ix2)
          ]
    ]

unfoldable pub handle_request :
    Server → World → (src dst : Ip) → Duid → Message → DecodedOptions → Ipdb → Outcome × Ipdb
unfolding desired_ip confirm in_managed_range
handle_request sx w src dst duid msg opts ix = elim (desired_ip sx src dst opts) [
  | none ↦ (sent [], ix)
  | some desired ↦
      if is_nil desired
      then (panic, ix)
      else if not (in_managed_range (w.meanwhile 0 ix) desired)
      then (sent [], w.meanwhile 0 ix)
      else confirm sx w desired duid msg (w.meanwhile 0 ix)
]

unfoldable pub handle_msg : Server → World → (src dst : Ip) → Message → Ipdb → Outcome × Ipdb
unfolding decode_options get_duid handle_discover handle_request bytes_eq ip_equal
handle_msg sx w src dst msg ix =
    let opts = decode_options msg.options in
    let (duid, ix1) = get_duid (w.clock 0) msg.client_mac opts.client_identifier ix in
    if bytes_eq sx.iface_addr msg.client_mac
    then (sent [], ix1)
    else if ip_equal sx.self_ip opts.requested_ip
    then (sent [], ix1)
    else if opts.message_type == msg_type_discover
    then handle_discover sx w dst duid msg opts ix1
    else if opts.message_type == msg_type_request
    then handle_request sx w src dst duid msg opts ix1
    else (sent [], ix1)

-- One round of the loop of `Run`: what a packet that was read leads to.
unfoldable pub receive : Server → World → List ℕ → Ipdb → Outcome × Ipdb
unfolding decode_ipv4 decode_udp decode handle_msg
receive sx w buf ix = elim (decode_ipv4 buf) [
  | err e ↦ (sent [], ix)
  | ok v4 ↦ elim (decode_udp v4.payload) [
    | err e ↦ (sent [], ix)
    | ok udp ↦ elim (decode udp.payload) [
      | err e ↦ (sent [], ix)
      | ok dhcp ↦
          if not (dhcp.op == op_request)
          then (sent [], ix)
          else handle_msg sx w v4.source v4.destination dhcp ix
    ]
  ]
]
