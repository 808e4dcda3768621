-- ===== src/Tests/Session.antt =====
-- A client and a server that agree on a lease.
use psa_dhcp.Base.{ℕ, ◌*◌, ◌<◌, ◌≤◌, ◌≡◌, refl, arith, true, List, [], ◌∷◌, ◌++◌, length, some, All}
use psa_dhcp.Net.{ip_equal, ipv4_zero, ipv4_bcast}
use psa_dhcp.Dhcpmsg.Assemble
use psa_dhcp.Dhcpmsg.Assemble.{
  option_type, option_server_identifier, option_ip_address_lease_duration, option_subnet_mask,
  option_router,
}
use psa_dhcp.Dhcpmsg.Options.{second, no_options, decode_options}
use psa_dhcp.Dhcpmsg.RoundTrip.{IsOption, as_read}
use psa_dhcp.Server.Replies.{reply, assemble_ack, assemble_offer}
use psa_dhcp.Server.State.{dhcp_options}
use psa_dhcp.Client.Verify.Sound.{IsHost}
use psa_dhcp.Client.Accepted.{CanLease, Fits}
use psa_dhcp.Client.Dclient.{Dclient, Event, run, discovering, renewing, arp_check}
use psa_dhcp.Client.Dclient.Leases.{HasLease, in_renewing, run-acquires, run-leases}
use psa_dhcp.Client.Msgtmpl.{Tmpl, request_message}
use psa_dhcp.Client.Heard.{desired_ip-request}
use psa_dhcp.Server.Handlers.{desired_ip}
use psa_dhcp.Tests.Handlers.{mac, server, gateway, hello}
use psa_dhcp.Tests.Leases.{home}
use psa_dhcp.Tests.Machine.{env, fresh, silence}

server-CanLease : CanLease server
unfolding psa_dhcp.Net.to4 psa_dhcp.Net.ip_equal
server-CanLease = record {
  router = refl;
  host = record { given = refl; not_zero = refl; not_bcast = refl };
  long = omega arith;
  fits = omega arith;
}

gateway_is_self : ip_equal (as_read gateway) gateway ≡ true
unfolding psa_dhcp.Net.to4 psa_dhcp.Net.ip_equal psa_dhcp.Base.bytes_eq
gateway_is_self = refl

home-IsHost : IsHost (as_read home)
unfolding psa_dhcp.Net.to4 psa_dhcp.Net.ip_equal
home-IsHost = record { given = refl; not_zero = refl; not_bcast = refl }

option-IsOption :
    (code : ℕ) (payload : List ℕ)
    → 0 < code
    → code < 255
    → length payload ≤ 255
    → IsOption (record { option = code; payload = payload })
option-IsOption code payload a b s = record {
  not_padding = λ e. omega arith;
  not_end = λ e. omega arith;
  short = s;
}

-- A reply of the five options that the server sends.
reply-Fits :
    (type : ℕ)
    → Fits (
        reply 77 0 home mac
          ((option_type type ∷ option_server_identifier gateway ∷ []) ++ dhcp_options server mac))
unfolding dhcp_options option_type option_server_identifier option_ip_address_lease_duration
    option_subnet_mask option_router psa_dhcp.Net.to4 Assemble.assemble Assemble.header
    Assemble.append_options psa_dhcp.Base.bytes_eq
reply-Fits type = record {
  wire = record {
    shaped = record { host_name = refl; filename = refl };
    xid = omega arith;
    secs = omega arith;
    flags = omega arith;
    cookie = omega arith;
    mac = omega arith;
    opts = (
      option-IsOption _ _ (omega arith) (omega arith) (omega arith),
      (
        option-IsOption _ _ (omega arith) (omega arith) (omega arith),
        (
          option-IsOption _ _ (omega arith) (omega arith) (omega arith),
          (
            option-IsOption _ _ (omega arith) (omega arith) (omega arith),
            (option-IsOption _ _ (omega arith) (omega arith) (omega arith), tt),
          ),
        ),
      ),
    );
  };
  size = omega arith;
}

abbrev offer_read : Event
offer_read = record silence {
  packets = assemble_offer 77 0 gateway home mac (dhcp_options server mac) ∷ [];
}

abbrev ack_read : Event
ack_read = record silence {
  packets = assemble_ack 77 0 gateway home mac (dhcp_options server mac) ∷ [];
}

abbrev searching : Dclient
searching = record fresh { state = discovering }

run-leases_example :
    (dx1 dx2 : Dclient) × (run env offer_read searching ≡ some dx1)
    × (run env ack_read dx1 ≡ some dx2)
    × (dx2.state ≡ arp_check)
    × HasLease server home dx2
run-leases_example =
    run-leases env offer_read ack_read server server-CanLease searching home home-IsHost 0 [] []
      refl (reply-Fits 2) (reply-Fits 5) refl refl

-- The client half an hour later.
abbrev renewer : Dclient
renewer = record fresh {
  state = renewing;
  last_msg = record hello { your_ip = home };
  last_opts = record no_options {
    server_identifier = as_read gateway;
    ip_address_lease_duration = 3600 * second;
    routers = gateway ∷ [];
  };
}

renewer-HasLease : HasLease server home renewer
unfolding psa_dhcp.Net.to4
renewer-HasLease = record { address = refl; server = refl; duration = refl; router = refl }

run-acquires_example :
    (dx' : Dclient) × (run env ack_read renewer ≡ some dx')
    × (dx'.state ≡ arp_check)
    × HasLease server home dx'
run-acquires_example =
    run-acquires env ack_read server server-CanLease renewer home home-IsHost 0 []
      (in_renewing refl) renewer-HasLease (reply-Fits 5) refl

abbrev asking : Tmpl
asking = record { xid = 77; hwaddr = mac }

desired_ip-request_example :
    (desired_ip server
        (as_read ipv4_zero)
        (as_read ipv4_bcast)
        (decode_options (request_message asking 3 ipv4_zero home gateway).options)
      ≡ some (as_read home))
    × (desired_ip server
          (as_read home)
          (as_read gateway)
          (decode_options (request_message asking 3 home [] []).options)
        ≡ some (as_read home))
    × (desired_ip server
          (as_read home)
          (as_read ipv4_bcast)
          (decode_options (request_message asking 3 home [] []).options)
        ≡ some (as_read home))
desired_ip-request_example = desired_ip-request server asking home gateway refl refl gateway_is_self
