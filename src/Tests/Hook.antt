-- ===== src/Tests/Hook.antt =====
-- A configuration and the hook's file.
use psa_dhcp.Base.{◌≡◌, ◌≢◌, refl, ℕ, List, [], ◌∷◌, ◌++◌, some, true, All, Option}
use psa_dhcp.Base.Text.{codes, decimal}
use psa_dhcp.Net.{Ip, to4}
use psa_dhcp.Net.Print.{ip_string, mask_string}
use psa_dhcp.Ipdb.Uip.{hex_digit}
use psa_dhcp.Client.Dclient.{Ifconfig}
use psa_dhcp.Client.Callback.{replace_bad, dump_script_conf, Command, cb_handler}
use psa_dhcp.Client.Callback.Clean.{IsCleanEntry, dump_script_conf-IsCleanEntry}
use psa_dhcp.Client.Hook.{IsIpv4, run_environ-cb_handler}
use psa_dhcp.Resolvconf.{note_all, Found, contents, run_environ, Answers, update}
use psa_dhcp.Resolvconf.Lines.{IsClean, run_environ-IsClean, Ends, update-Ends}

abbrev pub no_v6 : Ip → List ℕ
no_v6 ip = codes "?"

-- The domain name holds a line break and a shell's `;`.
abbrev hostile : Ifconfig
hostile = record {
  router = 10 ∷ 0 ∷ 0 ∷ 1 ∷ [];
  ip = 10 ∷ 0 ∷ 0 ∷ 7 ∷ [];
  mtu = 1500;
  dns = (10 ∷ 0 ∷ 0 ∷ 1 ∷ []) ∷ (10 ∷ 0 ∷ 0 ∷ 2 ∷ []) ∷ [];
  domain_name = codes "a;b" ++ (10 ∷ []);
  netmask = 255 ∷ 255 ∷ 255 ∷ 0 ∷ [];
  lease_duration = 3600000000000;
}

dump_script_conf-IsCleanEntry_example : All IsCleanEntry (dump_script_conf no_v6 hostile)
dump_script_conf-IsCleanEntry_example = dump_script_conf-IsCleanEntry no_v6 hostile

abbrev pub lan : Ifconfig
lan = record hostile { domain_name = codes "lan.example" }

abbrev one_word : List ℕ → Option (List (List ℕ))
one_word s = some (s ∷ [])

abbrev command : Command
command = record {
  args = codes "resolvconf" ∷ [];
  env =
      codes "PATH=/bin"
      ∷ codes "PSA_DHCPC_INTERFACE=eth0"
      ∷ codes "PSA_DHCPC_IPV4_ROUTER=10.0.0.1"
      ∷ codes "PSA_DHCPC_IPV4_ADDRESS=10.0.0.7"
      ∷ codes "PSA_DHCPC_NETMASK=ffffff00"
      ∷ codes "PSA_DHCPC_DOMAIN_NAME=lan.example"
      ∷ codes "PSA_DHCPC_DNS_LIST=10.0.0.1,10.0.0.2"
      ∷ codes "PSA_DHCPC_MTU=1500"
      ∷ codes "PSA_DHCPC_LEASE_SEC=3600"
      ∷ [];
}

abbrev file : Found
file = record {
  search_domain = codes "lan.example";
  nameservers = codes "10.0.0.1" ∷ codes "10.0.0.2" ∷ [];
}

router_v4 : IsIpv4 (10 ∷ 0 ∷ 0 ∷ 1 ∷ [])
unfolding to4
router_v4 = record { not_nil = refl; first = 10; others = 0 ∷ 0 ∷ 1 ∷ []; bytes = refl }

second_v4 : IsIpv4 (10 ∷ 0 ∷ 0 ∷ 2 ∷ [])
unfolding to4
second_v4 = record { not_nil = refl; first = 10; others = 0 ∷ 0 ∷ 2 ∷ []; bytes = refl }

ran :
    cb_handler one_word no_v6
      (codes "resolvconf")
      (codes "eth0")
      (codes "PATH=/bin" ∷ [])
      (some lan)
    ≡ some command
unfolding cb_handler to4 mask_string replace_bad hex_digit
ran = refl

run_environ-cb_handler_example : run_environ command.env ≡ some (contents file)
unfolding note_all ip_string to4 decimal
run_environ-cb_handler_example =
    run_environ-cb_handler no_v6 one_word (codes "resolvconf") (codes "eth0")
      (codes "PATH=/bin" ∷ []) lan (10 ∷ 0 ∷ 0 ∷ 1 ∷ []) ((10 ∷ 0 ∷ 0 ∷ 2 ∷ []) ∷ []) ran refl
      (router_v4, (second_v4, tt)) refl refl

wrote : run_environ command.env ≡ some (contents file)
unfolding run_environ
wrote = refl

run_environ-IsClean_example :
    (f : Found) × (contents file ≡ contents f) × IsClean f × (f.nameservers ≢ [])
run_environ-IsClean_example = run_environ-IsClean command.env wrote

abbrev short : Answers
short = record {
  temp_name = some (codes "/etc/.resolvconf.psa.1");
  written = 3;
  write_ok = true;
  close_ok = true;
  chmod_ok = true;
  rename_ok = true;
}

update-Ends_example : Ends short (codes "# written") (update short (codes "# written"))
update-Ends_example = update-Ends short (codes "# written")
