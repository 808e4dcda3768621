-- ===== src/Server/Config.antt =====
-- lib/server/server.go: how a server is made from its configuration. The address of the interface
-- and `net.ParseMAC` are parameters; the sections of the clients come in the order in which Go's map
-- gives them.
use psa_dhcp.Base.{
  ℕ, ◌==◌, Bool, if◌then◌else◌, Option, none, some, List, [], ◌∷◌, bytes_eq, Result, ok, err,
}
use psa_dhcp.Net.{Ip, HardwareAddr, is_nil}
use psa_dhcp.Leaseopts.{
  LeaseOptions, ServerConfig, ClientConfig, ConfigError, Parsers, parse_config,
  set_client_overrides,
}
use psa_dhcp.Ipdb.Duid.{duid_string}
use psa_dhcp.Ipdb.Db.{
  Ipdb, IpdbError, new_ipdb, set_dynamic_range, disable_dynamic, add_permanent_client,
}
use psa_dhcp.Server.State.{Server, duid_from_hw_addr}

-- The parts of the configuration that are not read by `ParseConfig`.
pub record Config : Type 0 where
  pub lease : ServerConfig
  pub dynamic_range : List ℕ
  pub static_only : Bool
  pub sections : List (List ℕ × ClientConfig)

-- What of the system and of the standard library is read: the interface's addresses, the parsers,
-- the form in which a hardware address is printed, and the clock.
pub record Host : Type 0 where
  pub iface_addr : HardwareAddr
  pub interface_ip : Option Ip
  pub parsers : Parsers
  pub parse_mac : List ℕ → Option HardwareAddr
  pub mac_string : HardwareAddr → List ℕ
  pub now : ℕ

pub data NewError : Type 0 where
  no_interface_ip bad_range bad_range_ip bad_mac duplicate_override : NewError
  config_error : ConfigError → NewError
  ipdb_error : IpdbError → NewError

-- `strings.Split(s, "-")`; the code of the separator is 45.
unfoldable pub split_at_dash : List ℕ → List (List ℕ)
split_at_dash [] = [] ∷ []
split_at_dash (c ∷ s) =
    let rest = split_at_dash s in
    if c == 45 then [] ∷ rest else elim rest [ [] ↦ (c ∷ []) ∷ [] | w ∷ ws ↦ (c ∷ w) ∷ ws ]

abbrev pub lift_ipdb : Result IpdbError Ipdb → Result NewError Ipdb
lift_ipdb (ok db) = ok db
lift_ipdb (err e) = err (ipdb_error e)

-- The words of the range; two of them are its ends.
unfoldable pub range_of_words : Host → List (List ℕ) → Ipdb → Result NewError Ipdb
unfolding set_dynamic_range
range_of_words host (start ∷ end ∷ []) db = elim (host.parsers.parse_ip start) [
  | none ↦ err bad_range_ip
  | some ipa ↦ elim (host.parsers.parse_ip end) [
    | none ↦ err bad_range_ip
    | some ipb ↦ lift_ipdb (set_dynamic_range ipa ipb db)
  ]
]
range_of_words host ws db = err bad_range

unfoldable pub with_dynamic_range : Host → List ℕ → Ipdb → Result NewError Ipdb
unfolding split_at_dash range_of_words
with_dynamic_range host dr db =
    if is_nil dr then ok db else range_of_words host (split_at_dash dr) db

-- The error of `SetClientOverrides` is dropped: the options are then those of the server.
abbrev pub overridden : Host → LeaseOptions → ClientConfig → LeaseOptions
overridden host lopts section = elim (set_client_overrides host.parsers lopts section) [
  | ok oopts ↦ oopts
  | err e ↦ lopts
]

abbrev pub Overrides : Type 0
Overrides = List ℕ → Option LeaseOptions

abbrev pub set_override : List ℕ → LeaseOptions → Overrides → Overrides
set_override k o overrides j = if bytes_eq k j then some o else overrides j

-- The permanent client of a section, if it has an address.
unfoldable pub section_client : Host → HardwareAddr → Ip → Ipdb → Option IpdbError × Ipdb
unfolding add_permanent_client duid_from_hw_addr
section_client host hwaddr ip db =
    if is_nil ip then (none, db) else add_permanent_client host.now ip (duid_from_hw_addr hwaddr) db

-- The override of a section, if its client was added.
unfoldable pub section_override :
    Host
    → HardwareAddr
    → LeaseOptions
    → Overrides
    → Option IpdbError × Ipdb
    → Result NewError (Ipdb × Overrides)
unfolding duid_from_hw_addr duid_string bytes_eq
section_override host hwaddr oopts overrides (some e, db) = err (ipdb_error e)
section_override host hwaddr oopts overrides (none, db) =
    elim (overrides (host.mac_string hwaddr)) [
      | some o ↦ err duplicate_override
      | none ↦ ok (db, set_override (duid_string (duid_from_hw_addr hwaddr)) oopts overrides)
    ]

-- One section.
unfoldable pub add_section :
    Host
    → LeaseOptions
    → List ℕ
    → ClientConfig
    → Ipdb × Overrides
    → Result NewError (Ipdb × Overrides)
unfolding set_client_overrides section_client section_override
add_section host lopts k section (db, overrides) = elim (host.parse_mac k) [
  | none ↦ err bad_mac
  | some hwaddr ↦
      let oopts = overridden host lopts section in
      section_override host hwaddr oopts overrides (section_client host hwaddr oopts.ip db)
]

unfoldable pub add_sections :
    Host
    → LeaseOptions
    → List (List ℕ × ClientConfig)
    → Ipdb × Overrides
    → Result NewError (Ipdb × Overrides)
unfolding add_section
add_sections host lopts [] made = ok made
add_sections host lopts ((k, section) ∷ sections) made =
    elim (add_section host lopts k section made) [
      | err e ↦ err e
      | ok made' ↦ add_sections host lopts sections made'
    ]

-- The last step of `New`: the server's own address.
unfoldable pub own_client :
    Host → Ip → LeaseOptions → Ipdb × Overrides → Result NewError (Server × Ipdb)
unfolding add_permanent_client duid_from_hw_addr
own_client host self_ip lopts (db, overrides) =
    let (failed, db') =
      add_permanent_client host.now self_ip (duid_from_hw_addr host.iface_addr) db in
    elim failed [
      | some e ↦ err (ipdb_error e)
      | none ↦ ok (
        record {
          iface_addr = host.iface_addr;
          self_ip = self_ip;
          lopts = lopts;
          overrides = overrides;
        },
        db',
      )
    ]

unfoldable pub new_server : Host → Config → Result NewError (Server × Ipdb)
unfolding parse_config new_ipdb with_dynamic_range disable_dynamic add_sections own_client
new_server host conf = elim host.interface_ip [
  | none ↦ err no_interface_ip
  | some self_ip ↦ elim (parse_config host.parsers conf.lease) [
    | err e ↦ err (config_error e)
    | ok (lopts, net, mask) ↦ elim (new_ipdb net mask) [
      | err e ↦ err (ipdb_error e)
      | ok db ↦ elim (with_dynamic_range host conf.dynamic_range db) [
        | err e ↦ err e
        | ok db ↦
            let db = if conf.static_only then disable_dynamic db else db in
            elim (add_sections host lopts conf.sections (db, λ k. none)) [
              | err e ↦ err e
              | ok made ↦ own_client host self_ip lopts made
            ]
      ]
    ]
  ]
]
