-- ===== src/Client/Callback.antt =====
-- lib/client/callback/callback.go: the script that is told of a configuration. The reader of
-- `encoding/csv` is a parameter; the run of the command is its arguments and its environment.
pub mod Clean
use psa_dhcp.Base.{
  ℕ, zero, suc, ◌+◌, ◌-◌, ◌/◌, ◌==◌, ltb, leb, ◌&&◌, ◌||◌, not, Bool, true, false, if◌then◌else◌,
  Option, none, some, List, [], ◌∷◌, ◌++◌, map, get_or, Result, ok, err,
}
use psa_dhcp.Base.Text.{codes, decimal, is_alnum, join}
use psa_dhcp.Net.{Ip, is_nil}
use psa_dhcp.Net.Print.{ip_string, mask_string}
use psa_dhcp.Dhcpmsg.Options.{second}
use psa_dhcp.Client.Dclient.{Ifconfig}

-- The characters that `reBadChars` does not match.
abbrev pub is_good : ℕ → Bool
is_good c = is_alnum c || c == b',' || c == b'.' || c == b'-'

abbrev pub within : ℕ → ℕ → ℕ → Bool
within lo hi c = leb lo c && leb c hi

-- The number of bytes behind the first that belong to the same character of UTF-8, as package
-- `utf8` reads it: a byte that starts no character stands for itself.
unfoldable pub more_bytes : List ℕ → ℕ
more_bytes s =
    let a = get_or s 0 0 in
    let b = get_or s 1 0 in
    let c = get_or s 2 0 in
    let d = get_or s 3 0 in
    let second_of_3 =
      a == 0xe0 && within 0xa0 0xbf b
      || a == 0xed && within 0x80 0x9f b
      || (within 0xe1 0xec a || within 0xee 0xef a) && within 0x80 0xbf b in
    let second_of_4 =
      a == 0xf0 && within 0x90 0xbf b
      || within 0xf1 0xf3 a && within 0x80 0xbf b
      || a == 0xf4 && within 0x80 0x8f b in
    if within 0xc2 0xdf a && within 0x80 0xbf b
    then 1
    else if second_of_3 && within 0x80 0xbf c
    then 2
    else if second_of_4 && within 0x80 0xbf c && within 0x80 0xbf d
    then 3
    else 0

-- `reBadChars.ReplaceAllString(val, "_")`: one `_` for each bad character. The number counts the
-- bytes that still belong to a character that was replaced.
unfoldable pub replace_bad : ℕ → List ℕ → List ℕ
unfolding more_bytes
replace_bad skip [] = []
replace_bad (suc skip) (c ∷ s) = replace_bad skip s
replace_bad zero (c ∷ s) = elim (is_good c) [
  | true ↦ c ∷ replace_bad zero s
  | false ↦ b'_' ∷ replace_bad (more_bytes (c ∷ s)) s
]

unfoldable pub env_entry : (key val : List ℕ) → List ℕ
unfolding replace_bad
env_entry key val = codes "PSA_DHCPC_" ++ key ++ (b'=' ∷ replace_bad 0 val)

-- `v6` prints the addresses that are not IPv4.
unfoldable pub dump_script_conf : (v6 : Ip → List ℕ) → Ifconfig → List (List ℕ)
unfolding env_entry ip_string mask_string decimal join
dump_script_conf v6 c =
    env_entry (codes "IPV4_ROUTER") (ip_string v6 c.router)
    ∷ env_entry (codes "IPV4_ADDRESS") (ip_string v6 c.ip)
    ∷ env_entry (codes "NETMASK") (mask_string c.netmask)
    ∷ env_entry (codes "DOMAIN_NAME") c.domain_name
    ∷ env_entry (codes "DNS_LIST") (join b',' (map (ip_string v6) c.dns))
    ∷ env_entry (codes "MTU") (decimal c.mtu)
    ∷ env_entry (codes "LEASE_SEC") (decimal (c.lease_duration / second))
    ∷ []

-- `read_csv` is the reader's `Read` for fields that are separated by spaces.
unfoldable pub parse_script_args :
    (read_csv : List ℕ → Option (List (List ℕ))) → List ℕ → Option (List (List ℕ))
parse_script_args read_csv cmdline = if is_nil cmdline then some [] else read_csv cmdline

-- A command with its arguments and the environment that it gets.
pub record Command : Type 0 where
  pub args : List (List ℕ)
  pub env : List (List ℕ)

-- The command that a call of the handler runs, for the interface `name` and the process's own
-- environment; `none` where it runs none.
unfoldable pub cb_handler :
    (read_csv : List ℕ → Option (List (List ℕ)))
    → (v6 : Ip → List ℕ) → (script name : List ℕ) → (environ : List (List ℕ)) → Option Ifconfig
    → Option Command
unfolding parse_script_args env_entry dump_script_conf
cb_handler read_csv v6 script name environ c = elim (parse_script_args read_csv script) [
  | none ↦ none
  | some cargs ↦ elim cargs [
    | [] ↦ none
    | arg ∷ more ↦
        let base = environ ++ (env_entry (codes "INTERFACE") name ∷ []) in
        some (record {
          args = arg ∷ more;
          env = elim c [ none ↦ base | some conf ↦ base ++ dump_script_conf v6 conf ];
        })
  ]
]
