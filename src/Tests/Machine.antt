-- ===== src/Tests/Machine.antt =====
-- A client that has just started.
use psa_dhcp.Base.{◌≡◌, ◌↔◌, refl, false, [], ◌∷◌, none, true}
use psa_dhcp.Dhcpmsg.{DecodedOptions}
use psa_dhcp.Dhcpmsg.Options.{no_options}
use psa_dhcp.Client.Dclient.{Dclient, Event, Env, purge_interface, round}
use psa_dhcp.Client.Dclient.Rounds.{started, round-panics_iff}
use psa_dhcp.Tests.Handlers.{hello, mac}

abbrev pub env : Env
env = record { default_mask = λ ip. 255 ∷ 255 ∷ 255 ∷ 0 ∷ []; mask_bits = λ m. 32; pre = λ c. c }

abbrev pub fresh : Dclient
fresh = record {
  iface_addr = mac;
  state = purge_interface;
  last_msg = hello;
  last_opts = no_options;
  deadlines = record { t1 = 0; t2 = 0; tx = 0 };
  did = [];
}

abbrev pub silence : Event
silence = record {
  now = 100;
  xid = 77;
  packets = [];
  ping = none;
  configured = true;
  allowed = true;
}

abbrev pub refusal : Event
refusal = record silence { allowed = false }

round-panics_iff_example : (round env refusal fresh ≡ none) ↔ (refusal.allowed ≡ false)
round-panics_iff_example = round-panics_iff env refusal fresh (started fresh refl)

abbrev hour : DecodedOptions
hour = record no_options { ip_address_lease_duration = 3600 }
