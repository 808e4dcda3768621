-- ===== src/Client/Mclient.antt =====
-- lib/client/mclient.go: the main loop of the client. A change of the link ends a run of the state
-- machine; the client is then resumed. `Env` has the mask functions of package `net`.
pub mod Routes
use psa_dhcp.Base.{ℕ, Bool, Option, none, some, List, [], ◌∷◌}
use psa_dhcp.Net.{Ip, IpMask, HardwareAddr}
use psa_dhcp.Dhcpmsg.{Message, DecodedOptions}
use psa_dhcp.Client.Dclient.{
  Dclient, Event, Env, Ifconfig, purge_interface, filter_netconfig, round, resume_client,
}

pub record Mclient : Type 0 where
  pub iface_addr : HardwareAddr
  pub script : List ℕ
  pub configure_route : Bool

unfoldable pub new : HardwareAddr → (script : List ℕ) → (croute : Bool) → Mclient
new iface_addr script croute = record {
  iface_addr = iface_addr;
  script = script;
  configure_route = croute;
}

-- The pre-configuration callback of the state machine is `filterNetconfig`.
unfoldable pub dclient_env : Mclient → (default_mask : Ip → IpMask) → (mask_bits : IpMask → ℕ) → Env
unfolding filter_netconfig
dclient_env mx default_mask mask_bits = record {
  default_mask = default_mask;
  mask_bits = mask_bits;
  pre = filter_netconfig mx.configure_route;
}

-- `dx.Run()`: rounds until the context is done; `none` is a panic.
unfoldable pub rounds : Env → List Event → Dclient → Option Dclient
unfolding round
rounds env [] dx = some dx
rounds env (e ∷ es) dx = elim (round env e dx) [ none ↦ none | some dx' ↦ rounds env es dx' ]

-- What happens until a change of the link, and when the client is resumed after it.
pub record Segment : Type 0 where
  pub events : List Event
  pub resumed_at : ℕ

-- The loop of `mclient.Run`.
unfoldable pub run_segments : Env → List Segment → Dclient → Option Dclient
unfolding rounds resume_client
run_segments env [] dx = some dx
run_segments env (s ∷ segments) dx = elim (rounds env s.events dx) [
  | none ↦ none
  | some dx' ↦ run_segments env segments (resume_client s.resumed_at dx')
]
