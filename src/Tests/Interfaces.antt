-- ===== src/Tests/Interfaces.antt =====
-- An interface, its neighbours and the programs that use it.
use psa_dhcp.Base.{
  ℕ, ◌≡◌, refl, ap, true, false, Option, some, none, ok, List, [], ◌∷◌, ◌++◌, All, ◌≢◌,
}
use psa_dhcp.Base.Text.{codes, Lacks, split, join, split-join}
use psa_dhcp.Net.{v4_in_v6_prefix, to4}
use psa_dhcp.Client.Dclient.{Dclient, Ifconfig, ifconfig, rebinding, pre_callback, post_callback}
use psa_dhcp.Client.Dclient
use psa_dhcp.Dhcpmsg.Options.{no_options}
use psa_dhcp.Client.Dclient.Rounds.{started}
use psa_dhcp.Client.Callback.{Command, cb_handler}
use psa_dhcp.Client.Mclient.{Mclient, Segment, dclient_env, run_segments}
use psa_dhcp.Client.Mclient.Routes.{
  GoesOn, allows, KeepsRoutes, run_segments-GoesOn, run_segments-KeepsRoutes,
}
use psa_dhcp.Client.Send.{IsPaced, first_delay, send_message, send_message-IsPaced}
use psa_dhcp.Layer.Arp.{Arp, decode_arp}
use psa_dhcp.Layer.Arp
use psa_dhcp.Arpping.{catch_arp_reply, NotFrom, undecoded, catch_arp_reply-assemble}
use psa_dhcp.Ifmon.{LinkUpdate, monitor_changes, history, rises, monitor_changes-rises}
use psa_dhcp.Libif.{Addr, Route, Interface, Change, Answers, default_route, unconfigure, set_iface}
use psa_dhcp.Libif.Purge.{IsPurge, unconfigure-IsPurge}
use psa_dhcp.Libif.Routes.{plan, Performed, set_iface-Performed}
use psa_dhcp.Cmd.{
  IsWord, is_word_char, ClientFlags, run_client, client_main, client_main-resolvconf,
}
use psa_dhcp.Tests.Machine.{env, fresh, silence}
use psa_dhcp.Tests.Hook.{lan, no_v6}

abbrev eth0 : Interface
eth0 = record { index = 2; name = codes "eth0" }

abbrev old_route : Route
old_route = record { link_index = 2; src = []; dst = none; gw = 10 ∷ 0 ∷ 0 ∷ 254 ∷ [] }

abbrev alias : Addr
alias = record {
  label = codes "eth0:1";
  ip = 10 ∷ 0 ∷ 0 ∷ 9 ∷ [];
  mask = 255 ∷ 255 ∷ 255 ∷ 0 ∷ [];
  prefered_lft = 0;
  valid_lft = 0;
}

abbrev no_error : Change → Option (List ℕ)
no_error c = none

abbrev kernel : Answers
kernel = record {
  link = none;
  addrs = ok (alias ∷ record alias { label = codes "eth0" } ∷ []);
  route_link = none;
  routes = ok (old_route ∷ []);
  changed = no_error;
}

unconfigure-IsPurge_example : All (IsPurge (codes "eth0")) (unconfigure kernel eth0).1
unconfigure-IsPurge_example = unconfigure-IsPurge kernel eth0

routed : default_route kernel ≡ ok (some old_route)
unfolding default_route
routed = refl

set_iface-Performed_example :
    Performed kernel (plan eth0 lan (some old_route)) (set_iface kernel eth0 lan)
set_iface-Performed_example = set_iface-Performed kernel eth0 lan refl routed

abbrev neighbour : Arp
neighbour = record {
  opcode = 2;
  sender_mac = 2 ∷ 0 ∷ 0 ∷ 0 ∷ 0 ∷ 9 ∷ [];
  sender_ip = 10 ∷ 0 ∷ 0 ∷ 9 ∷ [];
  target_mac = 2 ∷ 0 ∷ 0 ∷ 0 ∷ 0 ∷ 7 ∷ [];
  target_ip = 10 ∷ 0 ∷ 0 ∷ 7 ∷ [];
}

cut_off : NotFrom (v4_in_v6_prefix ++ (10 ∷ 0 ∷ 0 ∷ 9 ∷ [])) (1 ∷ [])
unfolding decode_arp
cut_off = undecoded refl

is_v4 : to4 (10 ∷ 0 ∷ 0 ∷ 9 ∷ []) ≡ some (10 ∷ 0 ∷ 0 ∷ 9 ∷ [])
unfolding to4
is_v4 = refl

is_v4_too : to4 (10 ∷ 0 ∷ 0 ∷ 7 ∷ []) ≡ some (10 ∷ 0 ∷ 0 ∷ 7 ∷ [])
unfolding to4
is_v4_too = refl

catch_arp_reply-assemble_example :
    catch_arp_reply
      (v4_in_v6_prefix ++ (10 ∷ 0 ∷ 0 ∷ 9 ∷ []))
      ((1 ∷ []) ∷ Arp.assemble neighbour ∷ [])
    ≡ some neighbour.sender_mac
catch_arp_reply-assemble_example =
    catch_arp_reply-assemble neighbour (10 ∷ 0 ∷ 0 ∷ 9 ∷ []) (10 ∷ 0 ∷ 0 ∷ 7 ∷ []) ((1 ∷ []) ∷ [])
      [] refl refl refl is_v4 is_v4_too (cut_off, tt)

abbrev down_and_up : List LinkUpdate
down_and_up =
    record { flags = 0x1003; index = 2 }
    ∷ record { flags = 0x1043; index = 3 }
    ∷ record { flags = 0x1043; index = 2 }
    ∷ []

monitor_changes-rises_example : monitor_changes 2 down_and_up ≡ rises true (history 2 down_and_up)
monitor_changes-rises_example = monitor_changes-rises 2 down_and_up

one_event : monitor_changes 2 down_and_up ≡ 1
unfolding monitor_changes
one_event = refl

send_message-IsPaced_example : IsPaced first_delay (send_message (λ i. 5_000_000_000) 3)
send_message-IsPaced_example = send_message-IsPaced (λ i. 5_000_000_000) 3

abbrev flap : List Segment
flap = record { events = silence ∷ silence ∷ []; resumed_at = 200 } ∷ []

run_segments-GoesOn_example : GoesOn env (allows flap) (run_segments env flap fresh)
run_segments-GoesOn_example = run_segments-GoesOn env flap fresh (started fresh refl)

-- A client that leaves the routes alone, about to configure its interface.
abbrev modest : Mclient
modest = record { iface_addr = fresh.iface_addr; script = []; configure_route = false }

abbrev configuring : Dclient
configuring = record fresh {
  state = ifconfig;
  last_opts = record no_options { routers = (10 ∷ 0 ∷ 0 ∷ 1 ∷ []) ∷ [] };
}

abbrev set_up : Ifconfig
set_up = record {
  router = [];
  ip = fresh.last_msg.your_ip;
  mtu = 0;
  dns = [];
  domain_name = [];
  netmask = [];
  lease_duration = 0;
}

abbrev resumed : Dclient
resumed = record configuring {
  state = rebinding;
  deadlines = record { t1 = 5_000_000_200; t2 = 5_000_000_200; tx = 5_000_000_200 };
  did =
      pre_callback (some (record set_up { router = 10 ∷ 0 ∷ 0 ∷ 1 ∷ [] }))
      ∷ Dclient.set_iface set_up
      ∷ post_callback (some set_up)
      ∷ [];
}

configured :
    run_segments
      (dclient_env modest (λ ip. []) (λ m. 32))
      (record { events = silence ∷ []; resumed_at = 200 } ∷ [])
      configuring
    ≡ some resumed
unfolding run_segments dclient_env
configured = refl

run_segments-KeepsRoutes_example : KeepsRoutes resumed
run_segments-KeepsRoutes_example =
    run_segments-KeepsRoutes modest (λ ip. []) (λ m. 32)
      (record { events = silence ∷ []; resumed_at = 200 } ∷ []) configuring refl refl configured

-- The client of `psa-dhcpc -ifname eth0 -resolvconf`.
abbrev flags : ClientFlags
flags = record {
  ifname = codes "eth0";
  script = [];
  route = true;
  syshook = false;
  resolvconf = true;
}

words : List ℕ → Option (List (List ℕ))
words s = some (split 32 s)

word-Lacks : (w : List ℕ) → All (λ c. is_word_char c ≡ true) w → Lacks 32 w
word-Lacks [] h = tt
word-Lacks (c ∷ w) (hc, h) = (apart, word-Lacks w h)
  where
    apart : c ≢ 32
    apart e = let h : is_word_char 32 ≡ true = rw e at hc in cc h

two_words : (a b : List ℕ) → IsWord a → IsWord b → words (a ++ (32 ∷ b)) ≡ some (a ∷ b ∷ [])
unfolding words join
two_words a b ha hb =
    ap some (split-join 32 a (b ∷ []) (word-Lacks a ha.chars, (word-Lacks b hb.chars, tt)))

abbrev program : List ℕ
program = codes "dhcpc"

one_word : IsWord program
one_word = record { some_char = λ e. cc; chars = (refl, (refl, (refl, (refl, (refl, tt))))) }

runs : client_main program (λ name. some eth0) flags ≡ run_client eth0 (codes "dhcpc -syshook") true
unfolding client_main
runs = refl

client_main-resolvconf_example :
    (cmd : Command) × (cb_handler words no_v6 (codes "dhcpc -syshook") (codes "eth0") [] none
      ≡ some cmd)
    × (cmd.args ≡ program ∷ codes "-syshook" ∷ [])
client_main-resolvconf_example =
    client_main-resolvconf program (λ name. some eth0) flags words no_v6 [] none two_words one_word
      refl runs
