-- ===== src/Leaseopts.antt =====
-- lib/server/leaseopts/leaseopts.go: what is announced with a lease. `net.ParseIP`, `net.ParseCIDR`
-- and `time.ParseDuration` are parameters; the configuration's getters are the fields of a record.
use psa_dhcp.Base.{ℕ, ltb, if◌then◌else◌, Option, none, some, List, [], ◌∷◌, Result, ok, err, ◌>>=◌}
use psa_dhcp.Net.{Ip, IpMask, is_nil, to4}

pub record LeaseOptions : Type 0 where
  pub ip : Ip
  pub domain : List ℕ
  pub hostname : List ℕ
  pub netmask : IpMask
  pub router : Ip
  pub dns : List Ip
  pub ntp : List Ip
  pub lease_duration : ℕ

-- The parts of `pb.ServerConfig` and `pb.ClientConfig` that are read here; strings are their bytes.
pub record ServerConfig : Type 0 where
  pub network : List ℕ
  pub lease_duration : List ℕ
  pub domain : List ℕ
  pub router : List ℕ
  pub dns : List (List ℕ)
  pub ntp : List (List ℕ)

pub record ClientConfig : Type 0 where
  pub ip : List ℕ
  pub hostname : List ℕ
  pub router : List ℕ
  pub dns : List (List ℕ)
  pub ntp : List (List ℕ)

pub data ConfigError : Type 0 where
  bad_network bad_duration duration_too_short bad_ipv4 : ConfigError

-- The parsers of the standard library: the address of a string, the network and the mask of a
-- string, the nanoseconds of a string (0 for a negative duration, which is too short as well).
pub record Parsers : Type 0 where
  pub parse_ip : List ℕ → Option Ip
  pub parse_cidr : List ℕ → Option (Ip × IpMask)
  pub parse_duration : List ℕ → Option ℕ

abbrev pub minute : ℕ
minute = 60_000_000_000

-- The loop of `ipv4`.
unfoldable pub ipv4_list : Parsers → List (List ℕ) → Result ConfigError (List Ip)
ipv4_list parsers [] = ok []
ipv4_list parsers (s ∷ ss) =
    let rest = ipv4_list parsers ss in
    elim (parsers.parse_ip s) [
      | none ↦ err bad_ipv4
      | some x ↦ elim (to4 x) [ none ↦ err bad_ipv4 | some v4 ↦ rest >>= λ res. ok (v4 ∷ res) ]
    ]

-- One empty string stands for no address.
unfoldable pub ipv4_of : Parsers → List (List ℕ) → Result ConfigError (List Ip)
unfolding ipv4_list
ipv4_of parsers ([] ∷ []) = ok []
ipv4_of parsers list = ipv4_list parsers list

-- `if len(ips) == 1 { field = ips[0] }`.
abbrev pub if_one : List Ip → Ip → Ip
if_one (x ∷ []) old = x
if_one list old = old

-- `if len(ips) > 0 { field = ips }`.
abbrev pub if_any : List Ip → List Ip → List Ip
if_any [] old = old
if_any (x ∷ xs) old = x ∷ xs

unfoldable pub parse_config :
    Parsers → ServerConfig → Result ConfigError (LeaseOptions × Ip × IpMask)
unfolding ipv4_of
parse_config parsers conf = elim (parsers.parse_cidr conf.network) [
  | none ↦ err bad_network
  | some (net, mask) ↦ elim (parsers.parse_duration conf.lease_duration) [
    | none ↦ err bad_duration
    | some ld ↦ if ltb ld minute then err duration_too_short else do
      router ← ipv4_of parsers (conf.router ∷ [])
      dns ← ipv4_of parsers conf.dns
      ntp ← ipv4_of parsers conf.ntp
      ok (
        record {
          ip = [];
          domain = conf.domain;
          hostname = [];
          netmask = mask;
          router = if_one router [];
          dns = dns;
          ntp = ntp;
          lease_duration = ld;
        },
        net,
        mask,
      )
  ]
]

-- On an error `original` is left as it was.
unfoldable pub set_client_overrides :
    Parsers → LeaseOptions → ClientConfig → Result ConfigError LeaseOptions
unfolding ipv4_of
set_client_overrides parsers original client = do
  ip ← ipv4_of parsers (client.ip ∷ [])
  router ← ipv4_of parsers (client.router ∷ [])
  dns ← ipv4_of parsers client.dns
  ntp ← ipv4_of parsers client.ntp
  ok (record original {
    ip = if_one ip original.ip;
    router = if_one router original.router;
    dns = if_any dns original.dns;
    ntp = if_any ntp original.ntp;
    hostname = if is_nil client.hostname then original.hostname else client.hostname;
  })
