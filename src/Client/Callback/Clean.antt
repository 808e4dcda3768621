-- ===== src/Client/Callback/Clean.antt =====
-- What the script finds in its environment.
use psa_dhcp.Base.{
  ℕ, zero, suc, ◌≡◌, refl, ap, true, ◌||◌, ◌==◌, List, [], ◌∷◌, ◌++◌, ◌/◌, map, All, Bool-cases,
  inl, inr,
}
use psa_dhcp.Base.Text.{codes, decimal, join}
use psa_dhcp.Net.{Ip}
use psa_dhcp.Net.Print.{ip_string, mask_string}
use psa_dhcp.Dhcpmsg.Options.{second}
use psa_dhcp.Client.Dclient.{Ifconfig}
use psa_dhcp.Client.Callback.{is_good, more_bytes, replace_bad, env_entry, dump_script_conf}

abbrev pub IsGood : ℕ → Type 0
IsGood c = is_good c ≡ true

-- A letter, a digit, a comma, a dot, a dash or an underscore.
abbrev pub IsClean : ℕ → Type 0
IsClean c = (is_good c || c == b'_') ≡ true

pub replace_bad-IsClean : (skip : ℕ) (s : List ℕ) → All IsClean (replace_bad skip s)
unfolding replace_bad
replace_bad-IsClean skip [] = tt
replace_bad-IsClean (suc skip) (c ∷ s) = replace_bad-IsClean skip s
replace_bad-IsClean zero (c ∷ s) = elim (Bool-cases (is_good c)) [
  | inl good ↦ rw (good, replace_bad) (rw good refl, replace_bad-IsClean zero s)
  | inr bad ↦ rw (bad, replace_bad) (refl, replace_bad-IsClean (more_bytes (c ∷ s)) s)
]

pub replace_bad-good : (s : List ℕ) → All IsGood s → replace_bad 0 s ≡ s
unfolding replace_bad
replace_bad-good [] h = refl
replace_bad-good (c ∷ s) (hc, h) = rw (hc, replace_bad) (ap (λ l. c ∷ l) (replace_bad-good s h))

-- An entry whose value is clean.
pub record IsCleanEntry (e : List ℕ) : Type 0 where
  pub key : List ℕ
  pub value : List ℕ
  pub entry : e ≡ codes "PSA_DHCPC_" ++ key ++ (b'=' ∷ value)
  pub clean : All IsClean value

env_entry-IsCleanEntry : (key val : List ℕ) → IsCleanEntry (env_entry key val)
unfolding env_entry
env_entry-IsCleanEntry key val = record {
  key = key;
  value = replace_bad 0 val;
  entry = refl;
  clean = replace_bad-IsClean 0 val;
}

-- Whatever the server sent, the value of every entry that the script gets for a configuration is
-- made of letters, digits, commas, dots, dashes and underscores alone.
pub dump_script_conf-IsCleanEntry :
    (v6 : Ip → List ℕ) (c : Ifconfig) → All IsCleanEntry (dump_script_conf v6 c)
unfolding dump_script_conf
dump_script_conf-IsCleanEntry v6 c =
    let e = env_entry-IsCleanEntry in
    (
      e (codes "IPV4_ROUTER") (ip_string v6 c.router),
      (
        e (codes "IPV4_ADDRESS") (ip_string v6 c.ip),
        (
          e (codes "NETMASK") (mask_string c.netmask),
          (
            e (codes "DOMAIN_NAME") c.domain_name,
            (
              e (codes "DNS_LIST") (join b',' (map (ip_string v6) c.dns)),
              (
                e (codes "MTU") (decimal c.mtu),
                (e (codes "LEASE_SEC") (decimal (c.lease_duration / second)), tt),
              ),
            ),
          ),
        ),
      ),
    )
