-- ===== src/Client/Mclient/Routes.antt =====
-- A client that is told to leave the routes alone.
use mathlib.Core.Path.{subst}
use psa_dhcp.Base.{
  ℕ, ◌≡◌, refl, sym, ap, true, false, Bool, ◌&&◌, not, if◌then◌else◌, Option, none, some, List, [],
  ◌∷◌, ◌++◌, All, All-append, inl, inr, Option-cases, Bool-cases, bytes_eq,
}
use psa_dhcp.Net.{Ip, IpMask}
use psa_dhcp.Client.Verify.{
  verify_offer, verify_selecting_ack, verify_renewing_ack, verify_rebinding_ack,
}
use psa_dhcp.Client.Dclient.{
  Phase, invalid, purge_interface, discovering, selecting, arp_check, ifconfig, bound, renewing,
  rebinding, Dclient, Event, Env, Ifconfig, Call, pre_callback, post_callback, unconfigure, up,
  set_iface, catch_reply, run_state_discovering, run_state_selecting, run_state_bound,
  run_state_renewing, run_state_rebinding, run_state_purge_interface, run_state_arp_check,
  run_state_ifconfig, build_netconfig, filter_netconfig, panic_reset, run, round, resume_client,
}
use psa_dhcp.Client.Dclient.Safe.{Caught-cases}
use psa_dhcp.Client.Dclient.Rounds.{Reachable, resumed, round-panics_iff, round-reached}
use psa_dhcp.Client.Mclient.{Mclient, dclient_env, rounds, Segment, run_segments}
use psa_dhcp.Libif.{Interface, Route}
use psa_dhcp.Libif.Routes.{route_plan}

-- A call that leaves the default route as it is, whatever route there is.
pub data KeepsRoute : Call → Type 0 where
  callback_before : (c : Option Ifconfig) → KeepsRoute (pre_callback c)
  callback_after : (c : Option Ifconfig) → KeepsRoute (post_callback c)
  purged : KeepsRoute unconfigure
  brought_up : KeepsRoute up
  configured :
      (c : Ifconfig)
      → ((iface : Interface) (old : Option Route) → route_plan iface c.router old ≡ [])
      → KeepsRoute (set_iface c)

abbrev pub KeepsRoutes : Dclient → Type 0
KeepsRoutes dx = All KeepsRoute dx.did

no_router : (c : Ifconfig) → KeepsRoute (set_iface (filter_netconfig false c))
unfolding filter_netconfig
no_router c = configured _ (λ iface old. go iface old)
  where
    go : (iface : Interface) (old : Option Route) → route_plan iface [] old ≡ []
    go iface none = refl
    go iface (some r) = refl

-- The result of a round, if it is no panic.
data RunKeeps : Option Dclient → Type 0 where
  panicked : RunKeeps none
  went_on : {dx : Dclient} → KeepsRoutes dx → RunKeeps (some dx)

and_then :
    (dx : Dclient) (calls : List Call)
    → KeepsRoutes dx
    → All KeepsRoute calls
    → All KeepsRoute (dx.did ++ calls)
and_then dx calls kept h = All-append KeepsRoute dx.did calls kept h

panic_reset-keeps : (dx : Dclient) → KeepsRoutes dx → KeepsRoutes (panic_reset dx)
unfolding panic_reset
panic_reset-keeps dx kept = and_then dx (unconfigure ∷ []) kept (purged, tt)

module _ (env : Env) (left_alone : (c : Ifconfig) → env.pre c ≡ filter_netconfig false c)
    (e : Event) (dx : Dclient) (kept : KeepsRoutes dx) where
  discovering-keeps : KeepsRoutes (run_state_discovering e selecting dx)
  unfolding run_state_discovering
  discovering-keeps =
      elim (Caught-cases (catch_reply dx.iface_addr (verify_offer e.xid) e.packets)) [
        | inl (m, o, h) ↦ rw (run_state_discovering, h) kept
        | inr (inl (m, o, h)) ↦ rw (run_state_discovering, h) kept
        | inr (inr h) ↦ rw (run_state_discovering, h) kept
      ]

  selecting-keeps : KeepsRoutes (run_state_selecting e arp_check discovering dx)
  unfolding run_state_selecting
  selecting-keeps =
      elim (Caught-cases (
        catch_reply dx.iface_addr (verify_selecting_ack dx.last_msg dx.last_opts e.xid)
          e.packets)) [
            | inl (m, o, h) ↦ rw (run_state_selecting, h) kept
            | inr (inl (m, o, h)) ↦ rw (run_state_selecting, h) kept
            | inr (inr h) ↦ rw (run_state_selecting, h) kept
          ]

  renewing-keeps : KeepsRoutes (run_state_renewing e arp_check rebinding dx)
  unfolding run_state_renewing
  renewing-keeps =
      elim (Caught-cases (
        catch_reply dx.iface_addr (verify_renewing_ack dx.last_msg dx.last_opts e.xid) e.packets)) [
          | inl (m, o, h) ↦ rw (run_state_renewing, h) kept
          | inr (inl (m, o, h)) ↦ rw (run_state_renewing, h) kept
          | inr (inr h) ↦ rw (run_state_renewing, h) kept
        ]

  rebinding-keeps : KeepsRoutes (run_state_rebinding e arp_check purge_interface dx)
  unfolding run_state_rebinding
  rebinding-keeps =
      elim (Caught-cases (
        catch_reply dx.iface_addr (verify_rebinding_ack dx.last_msg dx.last_opts e.xid)
          e.packets)) [
            | inl (m, o, h) ↦ rw (run_state_rebinding, h) kept
            | inr (inl (m, o, h)) ↦ rw (run_state_rebinding, h) kept
            | inr (inr h) ↦ rw (run_state_rebinding, h) kept
          ]

  arp_check-keeps : KeepsRoutes (run_state_arp_check e ifconfig dx)
  unfolding run_state_arp_check
  arp_check-keeps = elim (Option-cases e.ping) [
    | inl h ↦ rw (run_state_arp_check, h) kept
    | inr (mac, h) ↦ elim (Bool-cases (bytes_eq mac dx.iface_addr)) [
      | inl own ↦ rw (run_state_arp_check, h, own) kept
      | inr other ↦ rw (run_state_arp_check, h, other) (panic_reset-keeps dx kept)
    ]
  ]

  ifconfig-keeps : RunKeeps (run_state_ifconfig env e bound dx)
  unfolding run_state_ifconfig
  ifconfig-keeps = elim (Option-cases (build_netconfig env dx)) [
    | inl h ↦ rw (run_state_ifconfig, h) panicked
    | inr (nc, h) ↦
        let dx1 = record dx {
          did = dx.did ++ (pre_callback (some nc) ∷ set_iface (env.pre nc) ∷ []);
        } in
        let kept1 = and_then dx (pre_callback (some nc) ∷ set_iface (env.pre nc) ∷ []) kept (
          callback_before (some nc),
          (subst (λ c. KeepsRoute (set_iface c)) (sym (left_alone nc)) (no_router nc), tt),
        ) in
        elim (Bool-cases e.configured) [
          | inl fine ↦
              rw (run_state_ifconfig, h, fine)
                (went_on (
                  and_then dx1 (post_callback (some (env.pre nc)) ∷ []) kept1
                    (callback_after (some (env.pre nc)), tt)))
          | inr fail ↦ rw (run_state_ifconfig, h, fail) (went_on (panic_reset-keeps dx1 kept1))
        ]
  ]

  run-keeps : RunKeeps (run env e dx)
  unfolding run run_state_purge_interface run_state_bound
  run-keeps = go dx.state refl
    where
      go : (s : Phase) → dx.state ≡ s → RunKeeps (run env e dx)
      go invalid h = rw (run, h) panicked
      go purge_interface h =
          rw (run, h, run_state_purge_interface)
            (went_on (
              and_then dx (pre_callback none ∷ unconfigure ∷ up ∷ post_callback none ∷ []) kept
                (callback_before none, (purged, (brought_up, (callback_after none, tt))))))
      go discovering h = rw (run, h) (went_on discovering-keeps)
      go selecting h = rw (run, h) (went_on selecting-keeps)
      go arp_check h = rw (run, h) (went_on arp_check-keeps)
      go ifconfig h = rw (run, h) ifconfig-keeps
      go bound h = rw (run, h, run_state_bound) (went_on kept)
      go renewing h = rw (run, h) (went_on renewing-keeps)
      go rebinding h = rw (run, h) (went_on rebinding-keeps)

round-keeps :
    (env : Env)
    → ((c : Ifconfig) → env.pre c ≡ filter_netconfig false c)
    → (e : Event) (dx : Dclient) → KeepsRoutes dx
    → RunKeeps (round env e dx)
unfolding round
round-keeps env left_alone e dx kept = go e.allowed (run-keeps env left_alone e dx kept)
  where
    go :
        (b : Bool) {o : Option Dclient}
        → RunKeeps o
        → RunKeeps (elim o [ none ↦ none | some dx' ↦ if not b then none else some dx' ])
    go b panicked = panicked
    go true (went_on k) = went_on k
    go false (went_on k) = panicked

resume_client-keeps : (now : ℕ) (dx : Dclient) → KeepsRoutes dx → KeepsRoutes (resume_client now dx)
unfolding resume_client
resume_client-keeps now dx kept = go dx.state refl
  where
    go : (s : Phase) → dx.state ≡ s → KeepsRoutes (resume_client now dx)
    go invalid h = rw (resume_client, h) kept
    go purge_interface h = rw (resume_client, h) kept
    go discovering h = rw (resume_client, h) kept
    go selecting h = rw (resume_client, h) kept
    go arp_check h = rw (resume_client, h) kept
    go ifconfig h = rw (resume_client, h) kept
    go bound h = rw (resume_client, h) kept
    go renewing h = rw (resume_client, h) kept
    go rebinding h = rw (resume_client, h) kept

-- Whether the rate limiter allows every round of a run, and of all runs.
abbrev pub all_allowed : List Event → Bool
all_allowed [] = true
all_allowed (e ∷ events) = e.allowed && all_allowed events

abbrev pub allows : List Segment → Bool
allows [] = true
allows (s ∷ segments) = all_allowed s.events && allows segments

-- What rounds lead to, by whether the limiter allows them all: a panic, or a client that is reached.
pub data GoesOn (env : Env) : (allowed : Bool) → Option Dclient → Type 0 where
  exhausted : GoesOn env false none
  goes_on : {dx : Dclient} → Reachable env dx → GoesOn env true (some dx)

refused_round :
    (env : Env) (e : Event) (dx : Dclient)
    → Reachable env dx
    → e.allowed ≡ false
    → round env e dx ≡ none
refused_round env e dx r = (round-panics_iff env e dx r).1

rounds-GoesOn :
    (env : Env) (events : List Event) (dx : Dclient)
    → Reachable env dx
    → GoesOn env (all_allowed events) (rounds env events dx)
unfolding rounds
rounds-GoesOn env [] dx r = goes_on r
rounds-GoesOn env (e ∷ events) dx r = elim (Bool-cases e.allowed) [
  | inl a ↦
      let (dx', h, r') = round-reached env e dx r a in
      subst (λ b. GoesOn env (b && all_allowed events) (rounds env (e ∷ events) dx)) (sym a)
        (rw (rounds, h) (rounds-GoesOn env events dx' r'))
  | inr a ↦
      subst (λ b. GoesOn env (b && all_allowed events) (rounds env (e ∷ events) dx)) (sym a)
        (rw (rounds, refused_round env e dx r a) exhausted)
]

segment-GoesOn :
    (env : Env) (s : Segment) (segments : List Segment) (dx : Dclient) {b : Bool}
    {o : Option Dclient}
    → ((dx1 : Dclient)
        → Reachable env dx1
        → GoesOn env (allows segments) (run_segments env segments (resume_client s.resumed_at dx1)))
    → rounds env s.events dx ≡ o
    → GoesOn env b o
    → GoesOn env (b && allows segments) (run_segments env (s ∷ segments) dx)
unfolding run_segments
segment-GoesOn env s segments dx next h exhausted = rw (run_segments, h) exhausted
segment-GoesOn env s segments dx next h (goes_on {dx = dx1} r) = rw (run_segments, h) (next dx1 r)

-- The main loop of the client, from a client that was reached, whatever happens in each run of the
-- state machine and however often the link changes, goes on to a next client if the rate limiter
-- allows every round, and panics if it refuses one.
pub run_segments-GoesOn :
    (env : Env) (segments : List Segment) (dx : Dclient)
    → Reachable env dx
    → GoesOn env (allows segments) (run_segments env segments dx)
unfolding run_segments
run_segments-GoesOn env [] dx r = goes_on r
run_segments-GoesOn env (s ∷ segments) dx r =
    segment-GoesOn env s segments dx
      (λ dx1 r1.
        run_segments-GoesOn env segments (resume_client s.resumed_at dx1)
          (resumed s.resumed_at dx1 r1))
      refl (rounds-GoesOn env s.events dx r)

some_client : {a b : Dclient} → some a ≡ some b → a ≡ b
some_client h = cc

kept_by : {o : Option Dclient} {dx : Dclient} → RunKeeps o → o ≡ some dx → KeepsRoutes dx
kept_by panicked h = cc
kept_by (went_on kept) h = subst KeepsRoutes (some_client h) kept

module _ (env : Env) (left_alone : (c : Ifconfig) → env.pre c ≡ filter_netconfig false c) where
  rounds-keeps :
      (events : List Event) (dx : Dclient) {dx' : Dclient}
      → KeepsRoutes dx
      → rounds env events dx ≡ some dx'
      → KeepsRoutes dx'
  unfolding rounds
  rounds-keeps [] dx kept h = subst KeepsRoutes (some_client h) kept
  rounds-keeps (e ∷ events) dx kept h = elim (Option-cases (round env e dx)) [
    | inl e1 ↦ cc (rw (e1, rounds) at h)
    | inr (dx1, e1) ↦
        rounds-keeps events dx1 (kept_by (round-keeps env left_alone e dx kept) e1)
          (rw (e1, rounds) at h)
  ]

  segments-keep :
      (segments : List Segment) (dx : Dclient) {dx' : Dclient}
      → KeepsRoutes dx
      → run_segments env segments dx ≡ some dx'
      → KeepsRoutes dx'
  unfolding run_segments
  segments-keep [] dx kept h = subst KeepsRoutes (some_client h) kept
  segments-keep (s ∷ segments) dx kept h = elim (Option-cases (rounds env s.events dx)) [
    | inl e1 ↦ cc (rw (e1, run_segments) at h)
    | inr (dx1, e1) ↦
        segments-keep segments (resume_client s.resumed_at dx1)
          (resume_client-keeps s.resumed_at dx1 (rounds-keeps s.events dx kept e1))
          (rw (e1, run_segments) at h)
  ]

-- A client that is told not to configure the route, started with nothing done yet, never makes a
-- call that would change the default route but to unconfigure the interface: the configurations
-- that it sets have no changes of the route in their plan.
pub run_segments-KeepsRoutes :
    (mx : Mclient) (default_mask : Ip → IpMask) (mask_bits : IpMask → ℕ) (segments : List Segment)
    (dx : Dclient) {dx' : Dclient}
    → mx.configure_route ≡ false
    → dx.did ≡ []
    → run_segments (dclient_env mx default_mask mask_bits) segments dx ≡ some dx'
    → KeepsRoutes dx'
unfolding dclient_env
run_segments-KeepsRoutes mx default_mask mask_bits segments dx off fresh h =
    segments-keep (dclient_env mx default_mask mask_bits) (λ c. ap (λ b. filter_netconfig b c) off)
      segments dx (rw fresh tt) h
