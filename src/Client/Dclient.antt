-- ===== src/Client/Dclient.antt =====
-- lib/client/dclient and lib/client/filter.go: the client's state machine. A state's run takes what
-- it meets (`Event`) and ends in the next client, or in a panic (`none`). The texts of the log and
-- the interface itself are left out; `did` records the calls that configure it.
pub mod Safe
pub mod Rounds
pub mod Leases
use psa_dhcp.Base.{
  ℕ, ◌+◌, ◌*◌, ◌/◌, ◌==◌, ltb, ◌&&◌, not, Bool, true, false, if◌then◌else◌, Option, none, some,
  List, [], ◌∷◌, ◌++◌, bytes_eq, Result, ok, err,
}
use psa_dhcp.Net.{Ip, HardwareAddr, IpMask}
use psa_dhcp.Dhcpmsg.{Message, DecodedOptions}
use psa_dhcp.Dhcpmsg.Parse.{decode}
use psa_dhcp.Dhcpmsg.Options.{decode_options}
use psa_dhcp.Layer.Ip.{Ipv4, decode_ipv4}
use psa_dhcp.Layer.Udp.{Udp, decode_udp}
use psa_dhcp.Client.Verify.{
  Verdict, failed, passed, is_nack, verify_offer, verify_selecting_ack, verify_renewing_ack,
  verify_rebinding_ack,
}

pub data Phase : Type 0 where
  invalid purge_interface discovering selecting arp_check ifconfig bound renewing rebinding : Phase

-- Times and durations in nanoseconds.
pub record BoundDeadlines : Type 0 where
  pub t1 : ℕ
  pub t2 : ℕ
  pub tx : ℕ

pub record Ifconfig : Type 0 where
  pub router : Ip
  pub ip : Ip
  pub mtu : ℕ
  pub dns : List Ip
  pub domain_name : List ℕ
  pub netmask : IpMask
  pub lease_duration : ℕ

-- The calls of callbacks and of lib/libif; `nil` is `none`.
pub data Call : Type 0 where
  pre_callback post_callback : Option Ifconfig → Call
  unconfigure up : Call
  set_iface : Ifconfig → Call

pub record Dclient : Type 0 where
  pub iface_addr : HardwareAddr
  pub state : Phase
  pub last_msg : Message
  pub last_opts : DecodedOptions
  pub deadlines : BoundDeadlines
  pub did : List Call

-- What the run of a state meets: the clock, the transaction id of its request, the packets that are
-- read until the socket fails or the deadline passes, the answer to an ARP ping, whether `SetIface`
-- succeeds, and what `Allow` of the rate limiter answers after the run.
pub record Event : Type 0 where
  pub now : ℕ
  pub xid : ℕ
  pub packets : List (List ℕ)
  pub ping : Option HardwareAddr
  pub configured : Bool
  pub allowed : Bool

-- The parts of package `net` and of the caller: the mask of an address by its class, the bits of a
-- mask (0 for a mask that is none), and what the pre-configuration callback makes of a configuration.
pub record Env : Type 0 where
  pub default_mask : Ip → IpMask
  pub mask_bits : IpMask → ℕ
  pub pre : Ifconfig → Ifconfig

pub data Caught : Type 0 where
  reply nack : Message → DecodedOptions → Caught
  nothing : Caught

-- The message of a packet, if it is one for this client.
unfoldable pub message_of : HardwareAddr → List ℕ → Option Message
unfolding decode_ipv4 decode_udp decode bytes_eq
message_of hwaddr b = elim (decode_ipv4 b) [
  | err e ↦ none
  | ok v4 ↦ if not (v4.protocol == 0x11) then none else elim (decode_udp v4.payload) [
    | err e ↦ none
    | ok udp ↦ if not (udp.dst_port == 68) then none else elim (decode udp.payload) [
      | err e ↦ none
      | ok msg ↦ if bytes_eq msg.client_mac hwaddr then some msg else none
    ]
  ]
]

-- The loop of `catchReply`, over the packets that are read.
unfoldable pub catch_reply :
    HardwareAddr → (Message → DecodedOptions → Verdict) → List (List ℕ) → Caught
unfolding message_of decode_options
catch_reply hwaddr vrfy [] = nothing
catch_reply hwaddr vrfy (b ∷ packets) =
    let rest = catch_reply hwaddr vrfy packets in
    elim (message_of hwaddr b) [
      | none ↦ rest
      | some msg ↦ elim (vrfy msg (decode_options msg.options)) [
        | passed ↦ reply msg (decode_options msg.options)
        | is_nack ↦ nack msg (decode_options msg.options)
        | failed ↦ rest
      ]
    ]

abbrev pub goto : Phase → Dclient → Dclient
goto s dx = record dx { state = s }

abbrev pub accept : Phase → Message → DecodedOptions → Dclient → Dclient
accept s msg opts dx = record dx { state = s; last_msg = msg; last_opts = opts }

abbrev pub record_calls : List Call → Dclient → Dclient
record_calls calls dx = record dx { did = dx.did ++ calls }

unfoldable pub run_state_discovering : Event → (next_state : Phase) → Dclient → Dclient
unfolding catch_reply verify_offer
run_state_discovering e next_state dx =
    elim (catch_reply dx.iface_addr (verify_offer e.xid) e.packets) [
      | reply msg opts ↦ accept next_state msg opts dx
      | nack msg opts ↦ dx
      | nothing ↦ dx
    ]

unfoldable pub run_state_selecting : Event → (next_state fail_state : Phase) → Dclient → Dclient
unfolding catch_reply verify_selecting_ack
run_state_selecting e next_state fail_state dx =
    elim (catch_reply dx.iface_addr (verify_selecting_ack dx.last_msg dx.last_opts e.xid)
      e.packets) [
        | reply msg opts ↦ accept next_state msg opts dx
        | nack msg opts ↦ goto fail_state dx
        | nothing ↦ goto fail_state dx
      ]

abbrev pub minute : ℕ
minute = 60_000_000_000

-- The floating-point products by 0.5 and 0.875 are exact for leases below 2 ^ 29 seconds.
unfoldable pub bound_deadlines : (now : ℕ) → DecodedOptions → BoundDeadlines
bound_deadlines now opts =
    let d = opts.ip_address_lease_duration in
    if ltb minute opts.renewal_duration
      && ltb opts.renewal_duration opts.rebind_duration
      && ltb opts.rebind_duration d
    then record { t1 = now + opts.renewal_duration; t2 = now + opts.rebind_duration; tx = now + d }
    else record { t1 = now + d / 2; t2 = now + d * 7 / 8; tx = now + d }

unfoldable pub run_state_bound : Event → (next_state : Phase) → Dclient → Dclient
unfolding bound_deadlines
run_state_bound e next_state dx = record dx {
  state = next_state;
  deadlines = bound_deadlines e.now dx.last_opts;
}

unfoldable pub run_state_renewing : Event → (next_state fail_state : Phase) → Dclient → Dclient
unfolding catch_reply verify_renewing_ack
run_state_renewing e next_state fail_state dx =
    elim (catch_reply dx.iface_addr (verify_renewing_ack dx.last_msg dx.last_opts e.xid)
      e.packets) [
        | reply msg opts ↦ accept next_state msg opts dx
        | nack msg opts ↦ goto purge_interface dx
        | nothing ↦ goto fail_state dx
      ]

unfoldable pub run_state_rebinding : Event → (next_state fail_state : Phase) → Dclient → Dclient
unfolding catch_reply verify_rebinding_ack
run_state_rebinding e next_state fail_state dx =
    elim (catch_reply dx.iface_addr (verify_rebinding_ack dx.last_msg dx.last_opts e.xid)
      e.packets) [
        | reply msg opts ↦ accept next_state msg opts dx
        | nack msg opts ↦ goto purge_interface dx
        | nothing ↦ goto fail_state dx
      ]

unfoldable pub run_state_purge_interface : (next_state : Phase) → Dclient → Dclient
run_state_purge_interface next_state dx =
    goto next_state
      (record_calls (pre_callback none ∷ unconfigure ∷ up ∷ post_callback none ∷ []) dx)

unfoldable pub panic_reset : Dclient → Dclient
panic_reset dx = goto purge_interface (record_calls (unconfigure ∷ []) dx)

unfoldable pub run_state_arp_check : Event → (next_state : Phase) → Dclient → Dclient
unfolding bytes_eq panic_reset
run_state_arp_check e next_state dx = elim e.ping [
  | none ↦ goto next_state dx
  | some mac ↦ if bytes_eq mac dx.iface_addr then goto next_state dx else panic_reset dx
]

-- `none` where the first router is taken of an empty list.
unfoldable pub build_netconfig : Env → Dclient → Option Ifconfig
build_netconfig env dx = elim dx.last_opts.routers [
  | [] ↦ none
  | router ∷ more ↦ some (record {
    router = router;
    ip = dx.last_msg.your_ip;
    mtu = dx.last_opts.interface_mtu;
    dns = dx.last_opts.dns;
    domain_name = dx.last_opts.domain_name;
    netmask =
        if env.mask_bits dx.last_opts.subnet_mask == 0
        then env.default_mask dx.last_msg.your_ip
        else dx.last_opts.subnet_mask;
    lease_duration = dx.last_opts.ip_address_lease_duration;
  })
]

-- `filterNetconfig` of lib/client/filter.go, on a configuration that is not nil.
unfoldable pub filter_netconfig : (configure_route : Bool) → Ifconfig → Ifconfig
filter_netconfig configure_route conf =
    if configure_route then conf else record conf { router = [] }

unfoldable pub run_state_ifconfig : Env → Event → (next_state : Phase) → Dclient → Option Dclient
unfolding build_netconfig panic_reset
run_state_ifconfig env e next_state dx = elim (build_netconfig env dx) [
  | none ↦ none
  | some nc ↦
      let nc' = env.pre nc in
      let dx' = record_calls (pre_callback (some nc) ∷ set_iface nc' ∷ []) dx in
      if e.configured
      then some (goto next_state (record_calls (post_callback (some nc') ∷ []) dx'))
      else some (panic_reset dx')
]

-- The `switch` of `Run`: the run of one state; `none` is a panic.
unfoldable pub run : Env → Event → Dclient → Option Dclient
unfolding run_state_purge_interface run_state_discovering run_state_selecting run_state_arp_check
    run_state_ifconfig run_state_bound run_state_renewing run_state_rebinding
run env e dx = elim dx.state [
  | invalid ↦ none
  | purge_interface ↦ some (run_state_purge_interface discovering dx)
  | discovering ↦ some (run_state_discovering e selecting dx)
  | selecting ↦ some (run_state_selecting e arp_check discovering dx)
  | arp_check ↦ some (run_state_arp_check e ifconfig dx)
  | ifconfig ↦ run_state_ifconfig env e bound dx
  | bound ↦ some (run_state_bound e renewing dx)
  | renewing ↦ some (run_state_renewing e arp_check rebinding dx)
  | rebinding ↦ some (run_state_rebinding e arp_check purge_interface dx)
]

-- One round of the loop of `Run`: the `switch`, and then a panic where the limiter has no token left.
unfoldable pub round : Env → Event → Dclient → Option Dclient
unfolding run
round env e dx = elim (run env e dx) [
  | none ↦ none
  | some dx' ↦ if not e.allowed then none else some dx'
]

abbrev pub five_seconds : ℕ
five_seconds = 5_000_000_000

abbrev pub revalidate : (now : ℕ) → Dclient → Dclient
revalidate now dx =
    let sd = now + five_seconds in
    record dx { deadlines = record { t1 = sd; t2 = sd; tx = sd }; state = rebinding }

unfoldable pub resume_client : (now : ℕ) → Dclient → Dclient
resume_client now dx = elim dx.state [
  | bound ↦ revalidate now dx
  | renewing ↦ revalidate now dx
  | rebinding ↦ revalidate now dx
  | _ ↦ goto purge_interface dx
]
