-- ===== src/Libif.antt =====
-- lib/libif/libif.go: the configuration of the interface by netlink. What netlink answers is an
-- argument of each function; the result holds the calls that change the kernel's state, in order.
pub mod Routes
pub mod Purge
use psa_dhcp.Base.{
  ℕ, ◌/◌, ltb, ◌&&◌, not, Bool, true, false, if◌then◌else◌, Option, none, some, List, [], ◌∷◌, ◌++◌,
  map, bytes_eq, Result, ok, err,
}
use psa_dhcp.Net.{Ip, IpMask, is_nil, ip_equal}
use psa_dhcp.Dhcpmsg.Options.{second}
use psa_dhcp.Client.Dclient.{Ifconfig}

-- The fields of `netlink.Addr` and `netlink.Route` that are used. The default route's gateway was
-- listed, or is one to add through the interface `link_index`.
pub record Addr : Type 0 where
  pub label : List ℕ
  pub ip : Ip
  pub mask : IpMask
  pub prefered_lft : ℕ
  pub valid_lft : ℕ

pub record Route : Type 0 where
  pub link_index : ℕ
  pub src : Ip
  pub dst : Option (Ip × IpMask)
  pub gw : Ip

pub record Interface : Type 0 where
  pub index : ℕ
  pub name : List ℕ

pub data Change : Type 0 where
  link_set_up link_set_down : Change
  addr_del addr_replace : Addr → Change
  route_del route_add : Route → Change
  link_set_mtu : ℕ → Change

-- An error of netlink, by its text.
abbrev pub NetError : Type 0
NetError = List ℕ

-- The answers of netlink: whether the interface is found, the addresses and the routes, and the
-- error of each change.
pub record Answers : Type 0 where
  pub link : Option NetError
  pub addrs : Result NetError (List Addr)
  pub route_link : Option NetError
  pub routes : Result NetError (List Route)
  pub changed : Change → Option NetError

abbrev pub Effect : Type 0
Effect = Option NetError × List Change

-- A change, and what follows it if it succeeds.
unfoldable pub then_change : Answers → Change → Effect → Effect
then_change a c rest = elim (a.changed c) [
  | some e ↦ (some e, c ∷ [])
  | none ↦ (rest.0, c ∷ rest.1)
]

unfoldable pub down : Answers → Effect
unfolding then_change
down a = elim a.link [ some e ↦ (some e, []) | none ↦ then_change a link_set_down (none, []) ]

unfoldable pub up : Answers → Effect
unfolding then_change
up a = elim a.link [ some e ↦ (some e, []) | none ↦ then_change a link_set_up (none, []) ]

abbrev pub is_default : Route → Bool
is_default r = is_nil r.src && (no_dst r.dst && not (is_nil r.gw))
  where
    no_dst : Option (Ip × IpMask) → Bool
    no_dst none = true
    no_dst (some d) = false

unfoldable pub first_default : List Route → Option Route
first_default [] = none
first_default (r ∷ rs) = let rest = first_default rs in if is_default r then some r else rest

unfoldable pub default_route : Answers → Result NetError (Option Route)
unfolding first_default
default_route a = elim a.route_link [
  | some e ↦ err e
  | none ↦ elim a.routes [ err e ↦ err e | ok rs ↦ ok (first_default rs) ]
]

-- The addresses of the main interface, without those of its aliases.
unfoldable pub labelled : List ℕ → List Addr → List Addr
labelled name [] = []
labelled name (x ∷ xs) =
    let rest = labelled name xs in if bytes_eq x.label name then x ∷ rest else rest

-- The errors of the deletions of addresses are ignored.
unfoldable pub unconfigure : Answers → Interface → Effect
unfolding default_route labelled
unconfigure a iface = elim a.link [
  | some e ↦ (some e, [])
  | none ↦ elim a.addrs [
    | err e ↦ (some e, [])
    | ok addrs ↦
        let dels = map addr_del (labelled iface.name addrs) in
        elim (default_route a) [
          | err e ↦ (some e, dels)
          | ok none ↦ (none, dels)
          | ok (some r) ↦ (a.changed (route_del r), dels ++ (route_del r ∷ []))
        ]
  ]
]

abbrev pub no_ipv4_addr : NetError
no_ipv4_addr = []

unfoldable pub first_address : List Addr → Result NetError Ip
first_address [] = err no_ipv4_addr
first_address (x ∷ xs) = ok x.ip

-- The first address with the label of the interface.
unfoldable pub interface_addr : Answers → Interface → Result NetError Ip
unfolding labelled first_address
interface_addr a iface = elim a.link [
  | some e ↦ err e
  | none ↦ elim a.addrs [ err e ↦ err e | ok addrs ↦ first_address (labelled iface.name addrs) ]
]

abbrev pub address_to_set : Ifconfig → Addr
address_to_set c = record {
  label = [];
  ip = c.ip;
  mask = c.netmask;
  prefered_lft = c.lease_duration / second;
  valid_lft = c.lease_duration / second;
}

abbrev pub new_route : Interface → Ip → Route
new_route iface router = record { link_index = iface.index; src = []; dst = none; gw = router }

-- The last part of `SetIface`.
unfoldable pub set_mtu : Answers → ℕ → Effect
unfolding then_change
set_mtu a mtu = if ltb 0 mtu then then_change a (link_set_mtu mtu) (none, []) else (none, [])

-- The part that is about the router, and what follows it.
unfoldable pub set_router : Answers → Interface → (router : Ip) → Option Route → Effect → Effect
unfolding then_change ip_equal
set_router a iface router old rest =
    let add = then_change a (route_add (new_route iface router)) rest in
    if is_nil router then rest else elim old [
      | none ↦ add
      | some r ↦ if ip_equal r.gw router then rest else then_change a (route_del r) add
    ]

unfoldable pub set_iface : Answers → Interface → Ifconfig → Effect
unfolding then_change default_route set_router set_mtu
set_iface a iface c = elim a.link [
  | some e ↦ (some e, [])
  | none ↦ then_change a (addr_replace (address_to_set c)) (elim (default_route a) [
    | err e ↦ (some e, [])
    | ok old ↦ set_router a iface c.router old (set_mtu a c.mtu)
  ])
]
