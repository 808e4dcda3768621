-- ===== src/Client/Dclient/Rounds.antt =====
-- Every run of a state leads to a safe client, and so a round panics for the rate limiter alone.
use mathlib.Core.Path.{subst}
use psa_dhcp.Base.{
  ℕ, ◌+◌, ◌≤◌, ◌≡◌, ◌≢◌, ◌↔◌, none, refl, sym, ap, ◌∙◌, arith, true, false, Bool, not,
  if◌then◌else◌, ◌&&◌, ltb, Option, some, List, [], ◌∷◌, length, ◌⊎◌, inl, inr, Option-cases,
  Bool-cases, bytes_eq,
}
use psa_dhcp.Net.{Ip}
use psa_dhcp.Dhcpmsg.{DecodedOptions}
use psa_dhcp.Client.Verify.{
  verify_offer, verify_selecting_ack, verify_renewing_ack, verify_rebinding_ack,
}
use psa_dhcp.Client.Verify.Sound.{verify_offer_iff}
use psa_dhcp.Client.Dclient.{
  Phase, invalid, purge_interface, discovering, selecting, arp_check, ifconfig, bound, renewing,
  rebinding, Dclient, Event, Env, catch_reply, run_state_discovering, run_state_selecting,
  run_state_bound, run_state_renewing, run_state_rebinding, run_state_purge_interface,
  run_state_arp_check, run_state_ifconfig, build_netconfig, panic_reset, run, round, resume_client,
  bound_deadlines, minute,
}
use psa_dhcp.Client.Dclient.Safe.{
  catch_reply-passed, has_lease, IsSafe, Ran, ran, Caught-cases, selecting-router, renewing-router,
  rebinding-router, selecting-ne, arp_check-ne, ifconfig-ne, purge-ne, discovering-ne, bound-ne,
  renewing-ne, rebinding-ne,
}

module _ (env : Env) (e : Event) (dx : Dclient) (safe : IsSafe dx) where
  discovering-IsSafe : dx.state ≡ discovering → IsSafe (run_state_discovering e selecting dx)
  unfolding run_state_discovering
  discovering-IsSafe at =
      elim (Caught-cases (catch_reply dx.iface_addr (verify_offer e.xid) e.packets)) [
        | inl (m, o, h) ↦
            let (_, l) =
              (verify_offer_iff e.xid m o).0
                (catch_reply-passed dx.iface_addr (verify_offer e.xid) e.packets h) in
            rw (run_state_discovering, h) (record { valid = selecting-ne; router = λ x. l.router })
        | inr (inl (m, o, h)) ↦ rw (run_state_discovering, h) safe
        | inr (inr h) ↦ rw (run_state_discovering, h) safe
      ]

  selecting-IsSafe : IsSafe (run_state_selecting e arp_check discovering dx)
  unfolding run_state_selecting
  selecting-IsSafe =
      let vrfy = verify_selecting_ack dx.last_msg dx.last_opts e.xid in
      elim (Caught-cases (catch_reply dx.iface_addr vrfy e.packets)) [
        | inl (m, o, h) ↦
            let r =
              selecting-router dx.last_msg dx.last_opts e.xid m o
                (catch_reply-passed dx.iface_addr vrfy e.packets h) in
            rw (run_state_selecting, h) (record { valid = arp_check-ne; router = λ x. r })
        | inr (inl (m, o, h)) ↦
            rw (run_state_selecting, h) (record { valid = discovering-ne; router = λ x. cc })
        | inr (inr h) ↦
            rw (run_state_selecting, h) (record { valid = discovering-ne; router = λ x. cc })
      ]

  renewing-IsSafe :
      length dx.last_opts.routers ≢ 0 → IsSafe (run_state_renewing e arp_check rebinding dx)
  unfolding run_state_renewing
  renewing-IsSafe some_router =
      let vrfy = verify_renewing_ack dx.last_msg dx.last_opts e.xid in
      elim (Caught-cases (catch_reply dx.iface_addr vrfy e.packets)) [
        | inl (m, o, h) ↦
            let r =
              renewing-router dx.last_msg dx.last_opts e.xid m o
                (catch_reply-passed dx.iface_addr vrfy e.packets h) in
            rw (run_state_renewing, h) (record { valid = arp_check-ne; router = λ x. r })
        | inr (inl (m, o, h)) ↦
            rw (run_state_renewing, h) (record { valid = purge-ne; router = λ x. cc })
        | inr (inr h) ↦
            rw (run_state_renewing, h) (record { valid = rebinding-ne; router = λ x. some_router })
      ]

  rebinding-IsSafe : IsSafe (run_state_rebinding e arp_check purge_interface dx)
  unfolding run_state_rebinding
  rebinding-IsSafe =
      let vrfy = verify_rebinding_ack dx.last_msg dx.last_opts e.xid in
      elim (Caught-cases (catch_reply dx.iface_addr vrfy e.packets)) [
        | inl (m, o, h) ↦
            let r =
              rebinding-router dx.last_msg dx.last_opts e.xid m o
                (catch_reply-passed dx.iface_addr vrfy e.packets h) in
            rw (run_state_rebinding, h) (record { valid = arp_check-ne; router = λ x. r })
        | inr (inl (m, o, h)) ↦
            rw (run_state_rebinding, h) (record { valid = purge-ne; router = λ x. cc })
        | inr (inr h) ↦ rw (run_state_rebinding, h) (record { valid = purge-ne; router = λ x. cc })
      ]

  arp_check-IsSafe : length dx.last_opts.routers ≢ 0 → IsSafe (run_state_arp_check e ifconfig dx)
  unfolding run_state_arp_check panic_reset
  arp_check-IsSafe some_router = elim (Option-cases e.ping) [
    | inl h ↦
        rw (run_state_arp_check, h) (record { valid = ifconfig-ne; router = λ x. some_router })
    | inr (mac, h) ↦ elim (Bool-cases (bytes_eq mac dx.iface_addr)) [
      | inl own ↦
          rw (run_state_arp_check, h, own)
            (record { valid = ifconfig-ne; router = λ x. some_router })
      | inr other ↦
          rw (run_state_arp_check, h, other, panic_reset)
            (record { valid = purge-ne; router = λ x. cc })
    ]
  ]

  ifconfig-Ran : length dx.last_opts.routers ≢ 0 → Ran (run_state_ifconfig env e bound dx)
  unfolding run_state_ifconfig build_netconfig panic_reset
  ifconfig-Ran some_router = elim (List-cases dx.last_opts.routers) [
    | inl h ↦ absurd (some_router (ap length h))
    | inr (x, xs, h) ↦ elim (Bool-cases e.configured) [
      | inl done ↦
          rw (run_state_ifconfig, build_netconfig, h, done)
            (ran (record { valid = bound-ne; router = λ x. some_router }))
      | inr failure ↦
          rw (run_state_ifconfig, build_netconfig, h, failure, panic_reset)
            (ran (record { valid = purge-ne; router = λ x. cc }))
    ]
  ]
    where
      List-cases : (l : List Ip) → (l ≡ []) ⊎ ((x : Ip) × (xs : List Ip) × (l ≡ x ∷ xs))
      List-cases [] = inl refl
      List-cases (x ∷ xs) = inr (x, xs, refl)

  run-Ran : Ran (run env e dx)
  unfolding run run_state_purge_interface run_state_bound
  run-Ran = go dx.state refl
    where
      go : (s : Phase) → dx.state ≡ s → Ran (run env e dx)
      go invalid h = absurd (safe.valid h)
      go purge_interface h =
          rw (run, h, run_state_purge_interface)
            (ran (record { valid = discovering-ne; router = λ x. cc }))
      go discovering h = rw (run, h) (ran (discovering-IsSafe h))
      go selecting h = rw (run, h) (ran selecting-IsSafe)
      go arp_check h = rw (run, h) (ran (arp_check-IsSafe (safe.router (ap has_lease h))))
      go ifconfig h = rw (run, h) (ifconfig-Ran (safe.router (ap has_lease h)))
      go bound h =
          rw (run, h, run_state_bound)
            (ran (record { valid = renewing-ne; router = λ x. safe.router (ap has_lease h) }))
      go renewing h = rw (run, h) (ran (renewing-IsSafe (safe.router (ap has_lease h))))
      go rebinding h = rw (run, h) (ran rebinding-IsSafe)

resume_client-IsSafe : (now : ℕ) (dx : Dclient) → IsSafe dx → IsSafe (resume_client now dx)
unfolding resume_client
resume_client-IsSafe now dx safe = go dx.state refl
  where
    purged : (dx : Dclient) → IsSafe (record dx { state = purge_interface })
    purged dx = record { valid = purge-ne; router = λ x. cc }

    go : (s : Phase) → dx.state ≡ s → IsSafe (resume_client now dx)
    go invalid h = absurd (safe.valid h)
    go purge_interface h = rw (resume_client, h) (purged dx)
    go discovering h = rw (resume_client, h) (purged dx)
    go selecting h = rw (resume_client, h) (purged dx)
    go arp_check h = rw (resume_client, h) (purged dx)
    go ifconfig h = rw (resume_client, h) (purged dx)
    go bound h =
        rw (resume_client, h)
          (record { valid = rebinding-ne; router = λ x. safe.router (ap has_lease h) })
    go renewing h =
        rw (resume_client, h)
          (record { valid = rebinding-ne; router = λ x. safe.router (ap has_lease h) })
    go rebinding h =
        rw (resume_client, h)
          (record { valid = rebinding-ne; router = λ x. safe.router (ap has_lease h) })

-- The clients that rounds and resumptions lead to, from one in its first state.
pub data Reachable (env : Env) : Dclient → Type 0 where
  started : (dx : Dclient) → dx.state ≡ purge_interface → Reachable env dx
  stepped :
      (e : Event) (dx dx' : Dclient)
      → Reachable env dx
      → round env e dx ≡ some dx'
      → Reachable env dx'
  resumed : (now : ℕ) (dx : Dclient) → Reachable env dx → Reachable env (resume_client now dx)

some_client : {a b : Dclient} → some a ≡ some b → a ≡ b
some_client h = cc

Ran-some : {o : Option Dclient} → Ran o → (dx : Dclient) × (o ≡ some dx) × IsSafe dx
Ran-some (ran {dx} safe) = (dx, refl, safe)

-- What a round of a client leads to, by the answer of the limiter.
data Rounded : (allowed : Bool) → Option Dclient → Type 0 where
  exhausted : Rounded false none
  went_on : {dx : Dclient} → IsSafe dx → Rounded true (some dx)

limited : (b : Bool) (dx : Dclient) → IsSafe dx → Rounded b (if not b then none else some dx)
limited true dx safe = went_on safe
limited false dx safe = exhausted

round-Rounded :
    (env : Env) (e : Event) (dx : Dclient) → IsSafe dx → Rounded e.allowed (round env e dx)
unfolding round
round-Rounded env e dx safe =
    let (dx', h, safe') = Ran-some (run-Ran env e dx safe) in
    rw (round, h) (limited e.allowed dx' safe')

Rounded-IsSafe :
    {b : Bool} {o : Option Dclient} {dx : Dclient} → Rounded b o → o ≡ some dx → IsSafe dx
Rounded-IsSafe exhausted h = cc
Rounded-IsSafe (went_on safe) h = subst IsSafe (some_client h) safe

Rounded-none_iff : {b : Bool} {o : Option Dclient} → Rounded b o → (o ≡ none) ↔ (b ≡ false)
Rounded-none_iff exhausted = (λ h. refl, λ h. refl)
Rounded-none_iff (went_on safe) = (λ h. cc, λ h. cc)

Rounded-some :
    {b : Bool} {o : Option Dclient} → Rounded b o → b ≡ true → (dx : Dclient) × (o ≡ some dx)
Rounded-some exhausted h = cc
Rounded-some (went_on {dx} safe) h = (dx, refl)

pub Reachable-IsSafe : {env : Env} {dx : Dclient} → Reachable env dx → IsSafe dx
Reachable-IsSafe (started dx h) = record {
  valid = λ x. purge-ne (sym h ∙ x);
  router = λ x. absurd (not_yet (sym (ap has_lease h) ∙ x));
}
  where
    not_yet : false ≡ true → ⊥
    not_yet h = cc
Reachable-IsSafe {env} (stepped e dx dx' r h) =
    Rounded-IsSafe (round-Rounded env e dx (Reachable-IsSafe r)) h
Reachable-IsSafe (resumed now dx r) = resume_client-IsSafe now dx (Reachable-IsSafe r)

-- A client that was reached from its first state, through rounds and resumptions, whatever packets,
-- ARP answers and failures it met, panics in a round exactly if the rate limiter refuses the round.
pub round-panics_iff :
    (env : Env) (e : Event) (dx : Dclient)
    → Reachable env dx
    → (round env e dx ≡ none) ↔ (e.allowed ≡ false)
round-panics_iff env e dx r = Rounded-none_iff (round-Rounded env e dx (Reachable-IsSafe r))

-- A round that the limiter allows leads to a client that is reached.
pub round-reached :
    (env : Env) (e : Event) (dx : Dclient)
    → Reachable env dx
    → e.allowed ≡ true
    → (dx' : Dclient) × (round env e dx ≡ some dx') × Reachable env dx'
round-reached env e dx r a =
    let (dx', h) = Rounded-some (round-Rounded env e dx (Reachable-IsSafe r)) a in
    (dx', h, stepped e dx dx' r h)

-- The deadlines of a bound client come in their order, none before now, and the last is the end of
-- the lease.
pub bound_deadlines-ordered :
    (now : ℕ) (opts : DecodedOptions)
    → (now ≤ (bound_deadlines now opts).t1)
      × ((bound_deadlines now opts).t1 ≤ (bound_deadlines now opts).t2)
      × ((bound_deadlines now opts).t2 ≤ (bound_deadlines now opts).tx)
      × ((bound_deadlines now opts).tx ≡ now + opts.ip_address_lease_duration)
unfolding bound_deadlines
bound_deadlines-ordered now opts =
    elim (Bool-cases (
      ltb minute opts.renewal_duration
      && ltb opts.renewal_duration opts.rebind_duration
      && ltb opts.rebind_duration opts.ip_address_lease_duration)) [
        | inl h ↦
            rw (bound_deadlines, h)
              (announced opts.renewal_duration opts.rebind_duration opts.ip_address_lease_duration
                h)
        | inr h ↦ rw (bound_deadlines, h) (omega arith, omega arith, omega arith, refl)
      ]
  where
    announced :
        (r b d : ℕ)
        → (ltb minute r && ltb r b && ltb b d) ≡ true
        → (now ≤ now + r) × (now + r ≤ now + b) × (now + b ≤ now + d) × (now + d ≡ now + d)
    announced r b d h = (omega arith, ground arith, ground arith, refl)
