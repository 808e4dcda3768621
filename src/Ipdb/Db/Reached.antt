-- ===== src/Ipdb/Db/Reached.antt =====
-- Every database that the methods of lib/server/ipdb/ipdb.go make of a new one, while time goes on.
use psa_dhcp.Base.{ℕ, ◌≤◌, ◌≡◌, ◌≢◌, sym, ap, ◌∙◌, arith, List, Result, ok, All}
use psa_dhcp.Base.Bytes.{IsByte}
use psa_dhcp.Net.{Ip, IpMask}
use psa_dhcp.Ipdb.Uip.{Uip, uip_string}
use psa_dhcp.Ipdb.Duid.{Duid, duid_string}
use psa_dhcp.Ipdb.Clients.Invariant.{some_eq}
use psa_dhcp.Ipdb.Clients.Bounded.{duid_of_key}
use psa_dhcp.Ipdb.Db.{
  Ipdb, IpdbError, Round, new_ipdb, to_uip, set_dynamic_range, disable_dynamic,
  lookup_client_by_duid, add_permanent_client, update_client, find_ip,
}
use psa_dhcp.Ipdb.Db.Range.{to_uip-to_v4}
use psa_dhcp.Ipdb.Db.WellFormed.{
  IsWellFormed, IsWellFormed-later, disable_dynamic-IsWellFormed, set_dynamic_range-IsWellFormed,
  lookup_client_by_duid-IsWellFormed, add_permanent_client-IsWellFormed, update_client-IsWellFormed,
  new_ipdb-IsWellFormed,
}
use psa_dhcp.Ipdb.Db.Leases.{lookup_client_by_duid-ok}
use psa_dhcp.Ipdb.Db.Offers.Recorded.{find_ip-IsWellFormed}

-- What the calls, each at its time, of clients whose identifiers are made of bytes make of a database
-- `first`, until the time `now`. A search ends at the time of its last round or later.
pub data Reached (first : Ipdb) : (now : ℕ) → Ipdb → Type 0 where
  started : {now : ℕ} → Reached first now first
  waited : {now later : ℕ} {ix : Ipdb} → Reached first now ix → now ≤ later → Reached first later ix
  disabled : {now : ℕ} {ix : Ipdb} → Reached first now ix → Reached first now (disable_dynamic ix)
  ranged :
      {now : ℕ} {ix ix' : Ipdb} (begin end : Ip)
      → Reached first now ix
      → set_dynamic_range begin end ix ≡ ok ix'
      → Reached first now ix'
  looked_up :
      {now : ℕ} {ix : Ipdb} (duid : Duid)
      → Reached first now ix
      → Reached first now (lookup_client_by_duid now duid ix).1
  permanently :
      {now : ℕ} {ix : Ipdb} (ip : Ip) (duid : Duid)
      → All IsByte duid
      → Reached first now ix
      → Reached first now (add_permanent_client now ip duid ix).1
  updated :
      {now : ℕ} {ix : Ipdb} (ip : Ip) (duid : Duid) (ttl : ℕ)
      → All IsByte duid
      → Reached first now ix
      → Reached first now (update_client now ip duid ttl ix).1
  searched :
      {now : ℕ} {ix : Ipdb} (later : ℕ) (env : ℕ → Round) (perm : ℕ → List ℕ) (ip : Ip)
      (duid : Duid)
      → now ≤ later
      → ((j : ℕ) → (env j).now ≤ later)
      → Reached first now ix
      → Reached first later (find_ip now env perm ip duid ix).1

-- Every database that the methods make of a new one whose first managed address is not above its
-- last one (as it is in a /31 network) is well formed at its time, whatever the calls of clients whose
-- identifiers are made of bytes, and their times.
pub Reached-IsWellFormed :
    (network : Ip) (netmask : IpMask) {first : Ipdb} {now : ℕ} {ix : Ipdb}
    → new_ipdb network netmask ≡ ok first
    → first.net_from ≤ first.net_to
    → Reached first now ix
    → IsWellFormed now ix
Reached-IsWellFormed network netmask new some_address (started {now}) =
    new_ipdb-IsWellFormed now network netmask new some_address
Reached-IsWellFormed network netmask new some_address (waited r h) =
    IsWellFormed-later h (Reached-IsWellFormed network netmask new some_address r)
Reached-IsWellFormed network netmask new some_address (disabled r) =
    disable_dynamic-IsWellFormed (Reached-IsWellFormed network netmask new some_address r)
Reached-IsWellFormed network netmask new some_address (ranged begin end r h) =
    set_dynamic_range-IsWellFormed (Reached-IsWellFormed network netmask new some_address r) begin
      end h
Reached-IsWellFormed network netmask new some_address (looked_up duid r) =
    lookup_client_by_duid-IsWellFormed (Reached-IsWellFormed network netmask new some_address r)
      duid
Reached-IsWellFormed network netmask new some_address (permanently ip duid bytes r) =
    add_permanent_client-IsWellFormed (Reached-IsWellFormed network netmask new some_address r) ip
      duid bytes
Reached-IsWellFormed network netmask new some_address (updated ip duid ttl bytes r) =
    update_client-IsWellFormed (Reached-IsWellFormed network netmask new some_address r) ip duid ttl
      bytes
Reached-IsWellFormed network netmask new some_address
      (searched {now} {ix} later env perm ip duid h t r) =
    find_ip-IsWellFormed now later env perm ip duid ix
      (Reached-IsWellFormed network netmask new some_address r) h t

module _ {now : ℕ} {ix : Ipdb} (w : IsWellFormed now ix) where
  -- Two clients of which one address is looked up are one.
  holder_unique :
      (holder other : Duid) {a : Ip}
      → All IsByte holder
      → All IsByte other
      → (lookup_client_by_duid now holder ix).0 ≡ ok a
      → (lookup_client_by_duid now other ix).0 ≡ ok a
      → holder ≡ other
  holder_unique holder other bytes bytes' h h' =
      let (p, e, live, at_ip) = lookup_client_by_duid-ok now holder ix h in
      let (q, e', live', at_ip') = lookup_client_by_duid-ok now other ix h' in
      let held = w.bounded.each p (w.consistent.made (duid_string holder) p e) in
      let held' = w.bounded.each q (w.consistent.made (duid_string other) q e') in
      let same : (ix.clients.cell p).ip ≡ (ix.clients.cell q).ip = ok_uip (
        sym (
          to_uip-to_v4 ix (ix.clients.cell p).ip (omega (arith, held.below, w.small)) held.above
            held.below)
        ∙ ap (to_uip ix) (at_ip ∙ sym at_ip')
        ∙ to_uip-to_v4 ix (ix.clients.cell q).ip (omega (arith, held'.below, w.small)) held'.above
            held'.below) in
      let (by_ip, _) = w.consistent.paired (duid_string holder) p e live in
      let (by_ip', _) = w.consistent.paired (duid_string other) q e' live' in
      let one : p ≡ q = some_eq (sym by_ip ∙ ap (λ u. ix.clients.m (uip_string u)) same ∙ by_ip') in
      sym (duid_of_key w.consistent w.bounded holder p bytes e)
      ∙ ap (λ x. (ix.clients.cell x).duid) one
      ∙ duid_of_key w.consistent w.bounded other q bytes' e'
    where
      ok_uip : {a b : Uip} → ◌≡◌ {A = Result IpdbError Uip} (ok a) (ok b) → a ≡ b
      ok_uip h = cc

-- In every database that the methods make of a new one whose first managed address is not above its
-- last one, whatever the calls of clients whose identifiers are made of bytes, and their times, two
-- such clients with different identifiers are found with different addresses.
pub lookup_client_by_duid-apart :
    (network : Ip) (netmask : IpMask) {first : Ipdb} {now : ℕ} {ix : Ipdb} (holder other : Duid)
    {a b : Ip}
    → new_ipdb network netmask ≡ ok first
    → first.net_from ≤ first.net_to
    → Reached first now ix
    → All IsByte holder
    → All IsByte other
    → holder ≢ other
    → (lookup_client_by_duid now holder ix).0 ≡ ok a
    → (lookup_client_by_duid now other ix).0 ≡ ok b
    → a ≢ b
lookup_client_by_duid-apart network netmask holder other new some_address r bytes bytes' differ h h'
      same =
    differ (
      holder_unique (Reached-IsWellFormed network netmask new some_address r) holder other bytes
        bytes' h (h' ∙ sym (ap (λ x. ok x) same)))
