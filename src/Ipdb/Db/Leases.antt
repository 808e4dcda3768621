-- ===== src/Ipdb/Db/Leases.antt =====
-- What a client that was given a lease can rely on.
use psa_dhcp.Base.{
  ℕ, ◌+◌, ◌^◌, ◌<◌, ◌≤◌, ◌≡◌, ◌≢◌, refl, sym, ap, ◌∙◌, arith, true, false, Bool, Option, none, some,
  Result, ok, inl, inr, Option-cases, All, Result-cases, not, ◌&&◌, le→not-ltb,
}
use psa_dhcp.Base.Bytes.{IsByte}
use psa_dhcp.Net.{Ip}
use psa_dhcp.Ipdb.Uip.{Uip, to_v4, uip_string}
use psa_dhcp.Ipdb.Duid.{Duid, duid_string}
use psa_dhcp.Ipdb.Clients.{Client, Clients, ClientError, expired, lookup}
use psa_dhcp.Ipdb.Clients.Outcomes.{lookup-LookedBoth, LookedBoth-cell}
use psa_dhcp.Ipdb.Clients.Found.{LookedBoth-found_duid, LookedBoth-by_duid}
use psa_dhcp.Ipdb.Clients.Bounded.{ip_of_key, duid_of_key}
use psa_dhcp.Ipdb.Db.{
  Ipdb, IpdbError, to_uip, from_clients, lookup_client_by_duid, update_lease, update_client,
}
use psa_dhcp.Ipdb.Db.Range.{to_uip_range, to_uip-to_v4}
use psa_dhcp.Ipdb.Db.Updates.{update_lease-Updated, Updated-Holds, Updated-taken}
use psa_dhcp.Ipdb.Db.WellFormed.{IsWellFormed, update_client-IsWellFormed}

-- A live client under the identifier is the one that is looked up.
pub lookup_client_by_duid-found :
    (now : ℕ) (duid : Duid) (ix : Ipdb) {p : ℕ}
    → ix.clients.m (duid_string duid) ≡ some p
    → expired now (ix.clients.cell p) ≡ false
    → (lookup_client_by_duid now duid ix).0 ≡ ok (to_v4 (ix.clients.cell p).ip)
unfolding lookup_client_by_duid
lookup_client_by_duid-found now duid ix {p} e live =
    let l = lookup-LookedBoth now 0 duid ix.clients in
    rw (LookedBoth-found_duid l e live, lookup_client_by_duid)
      (ap (λ (f : ℕ → Client). ok (to_v4 (f p).ip)) (LookedBoth-cell l).0)

-- What is looked up is a live client under the identifier.
pub lookup_client_by_duid-ok :
    (now : ℕ) (duid : Duid) (ix : Ipdb) {ip : Ip}
    → (lookup_client_by_duid now duid ix).0 ≡ ok ip
    → (p : ℕ) × (ix.clients.m (duid_string duid) ≡ some p)
      × (expired now (ix.clients.cell p) ≡ false)
      × (to_v4 (ix.clients.cell p).ip ≡ ip)
unfolding lookup_client_by_duid
lookup_client_by_duid-ok now duid ix {ip} h =
    let l = lookup-LookedBoth now 0 duid ix.clients in
    elim (Option-cases (lookup now 0 duid ix.clients).1) [
      | inl e ↦ cc (rw (e, lookup_client_by_duid) at h)
      | inr (p, e) ↦
          let (found, live) = LookedBoth-by_duid l e in
          (
            p,
            found,
            live,
            ap (λ (f : ℕ → Client). to_v4 (f p).ip) (sym (LookedBoth-cell l).0)
                ∙ ok_ip (rw (e, lookup_client_by_duid) at h),
          )
    ]
  where
    ok_ip : {a : Ip} → ◌≡◌ {A = Result IpdbError Ip} (ok a) (ok ip) → a ≡ ip
    ok_ip h = cc

-- The clients after an update that succeeds.
update_client-none :
    (now : ℕ) (ip : Ip) (duid : Duid) (ttl : ℕ) (ix : Ipdb)
    → (update_client now ip duid ttl ix).0 ≡ none
    → (n : Uip) × (to_uip ix ip ≡ ok n)
      × ((update_lease now n duid (now + ttl) ix.clients).0 ≡ none)
      × ((update_client now ip duid ttl ix).1.clients
          ≡ (update_lease now n duid (now + ttl) ix.clients).1)
unfolding update_client
update_client-none now ip duid ttl ix h = elim (Result-cases (to_uip ix ip)) [
  | inr (e, he) ↦ cc (rw (he, update_client) at h)
  | inl (n, he) ↦
      let (done, kept) = from_clients-none ix _ (rw (he, update_client) at h) in
      (n, he, done, rw (he, update_client) kept)
]
  where
    from_clients-none :
        (ix : Ipdb) (r : Option ClientError × Clients)
        → (from_clients ix r).0 ≡ none
        → (r.0 ≡ none) × ((from_clients ix r).1.clients ≡ r.1)
    from_clients-none ix (none, cx) h = (refl, refl)
    from_clients-none ix (some e, cx) h = cc

still_live :
    (later until : ℕ) (c : Client)
    → c.leased_until ≡ until
    → later ≤ until
    → expired later c ≡ false
unfolding expired
still_live later until c e h = rw (e, le→not-ltb until later h) (no (not c.permanent))
  where
    no : (b : Bool) → (b && false) ≡ false
    no true = refl
    no false = refl

-- In a well-formed database, if an update for a client whose identifier is made of bytes succeeds,
-- then the client is found, and with the address of the update, at any time until the lease ends.
pub update_client-is_found :
    (now : ℕ) (ip : Ip) (duid : Duid) (ttl later : ℕ) (ix : Ipdb)
    → IsWellFormed now ix
    → All IsByte duid
    → (update_client now ip duid ttl ix).0 ≡ none
    → later ≤ now + ttl
    → (n : Uip) × (to_uip ix ip ≡ ok n)
      × ((lookup_client_by_duid later duid (update_client now ip duid ttl ix).1).0 ≡ ok (to_v4 n))
update_client-is_found now ip duid ttl later ix w bytes h in_time =
    let (n, hn, done, same) = update_client-none now ip duid ttl ix h in
    let ix' = (update_client now ip duid ttl ix).1 in
    let w' = update_client-IsWellFormed w ip duid ttl bytes in
    let (p, held) = Updated-Holds (update_lease-Updated now n duid (now + ttl) ix.clients) done in
    let by_ip = ap (λ (c : Clients). c.m (uip_string n)) same ∙ held.by_ip in
    let by_duid = ap (λ (c : Clients). c.m (duid_string duid)) same ∙ held.by_duid in
    let leased = ap (λ (c : Clients). (c.cell p).leased_until) same ∙ held.leased in
    let (_, below) = to_uip_range ix ip hn in
    (
      n,
      hn,
      lookup_client_by_duid-found later duid ix' by_duid
            (still_live later (now + ttl) (ix'.clients.cell p) leased in_time)
          ∙ ap (λ u. ok (to_v4 u))
              (ip_of_key w'.consistent w'.bounded n p w'.small (omega (arith, below, w.small))
                by_ip),
    )

-- In a well-formed database, an update with the address that is looked up for one client fails for
-- any other client, if their identifiers are made of bytes.
pub update_client-excludes :
    (now : ℕ) (ip : Ip) (holder other : Duid) (ttl : ℕ) (ix : Ipdb)
    → IsWellFormed now ix
    → All IsByte holder
    → All IsByte other
    → holder ≢ other
    → (lookup_client_by_duid now holder ix).0 ≡ ok ip
    → (update_client now ip other ttl ix).0 ≢ none
update_client-excludes now ip holder other ttl ix w bytes bytes' differ found done =
    let (p, e, live, at_ip) = lookup_client_by_duid-ok now holder ix found in
    let (n, hn, updated, _) = update_client-none now ip other ttl ix done in
    let held = w.bounded.each p (w.consistent.made (duid_string holder) p e) in
    let small : (ix.clients.cell p).ip < 2 ^ 32 = omega (arith, held.below, w.small) in
    let same : (ix.clients.cell p).ip ≡ n = ok_uip (
      sym (to_uip-to_v4 ix (ix.clients.cell p).ip small held.above held.below)
      ∙ ap (to_uip ix) at_ip
      ∙ hn) in
    let (by_ip, _) = w.consistent.paired (duid_string holder) p e live in
    Updated-taken (update_lease-Updated now n other (now + ttl) ix.clients)
      (ap (λ u. ix.clients.m (uip_string u)) (sym same) ∙ by_ip) live
      (λ e'. differ (
        sym (duid_of_key w.consistent w.bounded holder p bytes e)
        ∙ duid_of_key w.consistent w.bounded other p bytes' e'))
      updated
  where
    ok_uip : {a b : Uip} → ◌≡◌ {A = Result IpdbError Uip} (ok a) (ok b) → a ≡ b
    ok_uip h = cc
