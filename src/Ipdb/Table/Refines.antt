-- ===== src/Ipdb/Table/Refines.antt =====
-- The methods of the database, as operations on the table of leases.
use mathlib.Core.Path.{subst}
use psa_dhcp.Base.{
  ℕ, ◌+◌, ◌≤◌, ◌≡◌, refl, sym, ap, ◌∙◌, arith, true, false, Bool, Option, none, some, List, Result,
  ok, err, inl, inr, Option-cases, Bool-cases, bytes_eq, bytes_eq_refl, if◌then◌else◌,
}
use psa_dhcp.Net.{Ip}
use psa_dhcp.Ipdb.Uip.{Uip, to_v4}
use psa_dhcp.Ipdb.Duid.{Duid, duid_string}
use psa_dhcp.Ipdb.Clients.{Client, Clients, ClientError, expired, lookup, add_client, write_lease}
use psa_dhcp.Ipdb.Clients.Invariant.{IsConsistent}
use psa_dhcp.Ipdb.Clients.Outcomes.{
  lookup-LookedBoth, LookedBoth-cell, LookedBoth-same, LookedBoth-free, LookedBoth-no_duid,
  LookedBoth-IsConsistent, refused, added, LeaseSet, unset, renewed,
}
use psa_dhcp.Ipdb.Clients.Kept.{
  new_cell, new_ip, new_duid, LeaseSet-IsConsistent, Injected-IsConsistent,
}
use psa_dhcp.Ipdb.Clients.Found.{LookedBoth-by_duid}
use psa_dhcp.Ipdb.Db.{
  Ipdb, IpdbError, no_such_client, Round, to_uip, from_clients, lookup_client_by_duid,
  update_client, find_ip,
}
use psa_dhcp.Ipdb.Db.Search.{Searched, gave_up, chosen, passed}
use psa_dhcp.Ipdb.Db.Updates.{
  Updated, at_once, rejected, afterwards, update_lease-Updated, LeaseSet-found, unexpired,
}
use psa_dhcp.Ipdb.Db.Offers.{Offered, own, disabled, found, exhausted, find_ip-Offered}
use psa_dhcp.Ipdb.Table.{live_at, Table, table, assign, renewed_lease}
use psa_dhcp.Ipdb.Table.Steps.{LookedBoth-live_at, live_at-none, live_at-some}
use psa_dhcp.Ipdb.Table.Assigned.{if_live-live, write_lease-assign, add_client-assign}

-- How an update changes the table.
pub data Assigns (n : Uip) (duid : Duid) (until : ℕ) (t : Table) : Bool → Table → Type 0 where
  done :
      {t' : Table} → ((d : Duid) → t' d ≡ assign n duid until t d) → Assigns n duid until t true t'
  failed : {t' : Table} → ((d : Duid) → t' d ≡ t d) → Assigns n duid until t false t'

abbrev pub succeeded {ℓ} : {E : Type ℓ} → Option E → Bool
succeeded none = true
succeeded (some e) = false

-- A client that was new, and whose lease is then set.
added-assign :
    {now : ℕ} (n : Uip) (duid : Duid) (until : ℕ) (cx cx2 cx4 : Clients)
    → now ≤ until
    → IsConsistent now cx2
    → cx2.m (duid_string duid) ≡ none
    → ((d : Duid) → table now cx2 d ≡ table now cx d)
    → ((d : Duid)
        → table now cx4 d
          ≡ assign n duid until
              (table now (
                add_client
                  (record { ip = n; duid = duid; leased_until = until; permanent = false })
                  cx2))
              d)
    → (d : Duid) → table now cx4 d ≡ assign n duid until (table now cx) d
added-assign {now} n duid until cx cx2 cx4 later w free same assigned d =
    assigned d ∙ elim (Bool-cases (bytes_eq (duid_string duid) (duid_string d))) [
      | inl here ↦
          let fresh = sym (same duid) ∙ live_at-none now cx2 (duid_string duid) free in
          rw here (
            ap (λ o. some (renewed_lease n duid until o)) added_here
            ∙ ap (λ o. some (renewed_lease n duid until o)) (sym fresh))
      | inr apart ↦ rw apart (added_table d ∙ rw apart (same d))
    ]
  where
    c : Client
    c = record { ip = n; duid = duid; leased_until = until; permanent = false }

    added_table :
        (d : Duid)
        → table now (add_client c cx2) d
          ≡ (if bytes_eq (duid_string duid) (duid_string d) then some c else table now cx2 d)
    added_table d = add_client-assign w c (unexpired n duid later) d

    added_here : table now (add_client c cx2) duid ≡ some c
    added_here = added_table duid ∙ rw (bytes_eq_refl (duid_string duid)) refl

module _ {now : ℕ} {n : Uip} {duid : Duid} {until : ℕ} (later : now ≤ until) where
  LeaseSet-assign :
      {cx : Clients} {r : Option ClientError × Clients}
      → IsConsistent now cx
      → LeaseSet now n duid until cx r
      → r.0 ≡ none
      → (d : Duid) → table now r.1 d ≡ assign n duid until (table now cx) d
  LeaseSet-assign w (unset e l _) h d = cc
  LeaseSet-assign {cx} w (renewed {r} p l ha hb) h d =
      let (_, ed, live, same) = LookedBoth-same l ha hb in
      subst (λ c. table now (write_lease p until c) d ≡ assign n duid until (table now cx) d)
        (sym same) (write_lease-assign w n duid until p ed live later d)

  LeaseSet-unchanged :
      {cx : Clients} {r : Option ClientError × Clients} {e : ClientError}
      → LeaseSet now n duid until cx r
      → r.0 ≡ some e
      → (d : Duid) → table now r.1 d ≡ table now cx d
  LeaseSet-unchanged (unset e l _) h d = LookedBoth-live_at (omega arith) (duid_string d) l
  LeaseSet-unchanged (renewed p l ha hb) h d = cc

  Updated-Assigns :
      {cx : Clients} {r : Option ClientError × Clients}
      → IsConsistent now cx
      → Updated now n duid until cx r
      → Assigns n duid until (table now cx) (succeeded r.0) (table now r.1)
  Updated-Assigns w (at_once l e) = done (LeaseSet-assign w l e)
  Updated-Assigns w (rejected _ _ l e (refused _ l' _) _) =
      failed (λ d. LookedBoth-live_at (omega arith) (duid_string d) l' ∙ LeaseSet-unchanged l e d)
  Updated-Assigns w (rejected _ _ l e (added _ _ _) h) = cc
  Updated-Assigns w (afterwards _ l e (refused _ _ _) h l'') = cc
  Updated-Assigns {cx} {r} w (afterwards _ l e (added {r = s} l' ha hb) h l'') =
      let w2 = LookedBoth-IsConsistent l' (LeaseSet-IsConsistent w l) in
      let c : Client = record { ip = n; duid = duid; leased_until = until; permanent = false } in
      let w3 = Injected-IsConsistent (LeaseSet-IsConsistent w l) (added l' ha hb) in
      let fine =
        LeaseSet-found l'' (new_ip c s.2 w2) (new_duid c s.2 w2)
          (ap (expired now) (new_cell c s.2 w2) ∙ unexpired n duid later) in
      subst (λ b. Assigns n duid until (table now cx) b (table now r.1)) (ap succeeded (sym fine))
        (done (
          added-assign n duid until cx s.2 r.1 later w2 (LookedBoth-free l' ha hb).1
            (λ d. LookedBoth-live_at (omega arith) (duid_string d) l' ∙ LeaseSet-unchanged l e d)
            (LeaseSet-assign w3 l'' fine)))

-- The search.
Searched-live_at :
    {env : ℕ → Round} {dyn_from i later : ℕ} {l : List ℕ} {cx : Clients} {r : Option Uip × Clients}
    (k : List ℕ)
    → ((j : ℕ) → (env j).now ≤ later)
    → Searched env dyn_from i l cx r
    → live_at later r.1 k ≡ live_at later cx k
Searched-live_at k t gave_up = refl
Searched-live_at {i} k t (chosen l _ _ _) = LookedBoth-live_at (t i) k l
Searched-live_at {i} k t (passed l s) = Searched-live_at k t s ∙ LookedBoth-live_at (t i) k l

Offered-table :
    {now later : ℕ} {env : ℕ → Round} {perm : ℕ → List ℕ} {n : Uip} {duid : Duid} {ix : Ipdb}
    {r : Result IpdbError Ip × Ipdb} (d : Duid)
    → now ≤ later
    → ((j : ℕ) → (env j).now ≤ later)
    → Offered now env perm n duid ix r
    → table later r.1.clients d ≡ table later ix.clients d
Offered-table d h t (own p l e) = LookedBoth-live_at h (duid_string d) l
Offered-table d h t (disabled l) = LookedBoth-live_at h (duid_string d) l
Offered-table d h t (found l e on s c) =
    Searched-live_at (duid_string d) t s ∙ LookedBoth-live_at h (duid_string d) l
Offered-table d h t (exhausted l s) =
    Searched-live_at (duid_string d) t s ∙ LookedBoth-live_at h (duid_string d) l

-- What a client's lease gives to a look-up.
abbrev pub address_of : Option Client → Result IpdbError Ip
address_of none = err no_such_client
address_of (some c) = ok (to_v4 c.ip)

-- The database implements a table from the identifiers of clients to their leases. In a consistent
-- database, an update for an address of the network either succeeds, and then replaces or adds the
-- lease of that client alone, or fails, and then changes no lease.
pub update_client-Assigns :
    (now : ℕ) (ip : Ip) (duid : Duid) (ttl : ℕ) (ix : Ipdb) {n : Uip}
    → IsConsistent now ix.clients
    → to_uip ix ip ≡ ok n
    → Assigns n duid
        (now + ttl)
        (table now ix.clients)
        (succeeded (update_client now ip duid ttl ix).0)
        (table now (update_client now ip duid ttl ix).1.clients)
unfolding update_client
update_client-Assigns now ip duid ttl ix {n} w h =
    rw (h, update_client)
      (through _
        (Updated-Assigns (omega arith) w (update_lease-Updated now n duid (now + ttl) ix.clients)))
  where
    through :
        (r : Option ClientError × Clients)
        → Assigns n duid (now + ttl) (table now ix.clients) (succeeded r.0) (table now r.1)
        → Assigns n duid
            (now + ttl)
            (table now ix.clients)
            (succeeded (from_clients ix r).0)
            (table now (from_clients ix r).1.clients)
    through (none, cx) a = a
    through (some e, cx) a = a

-- A look-up gives the address of the client's lease in that table, or none if there is no lease,
-- and changes no lease, at that time or any later one; nor does a search for an address.
pub lookup_client_by_duid-table :
    (now later : ℕ) (duid d : Duid) (ix : Ipdb) (env : ℕ → Round) (perm : ℕ → List ℕ) (ip : Ip)
    → now ≤ later
    → ((j : ℕ) → (env j).now ≤ later)
    → ((lookup_client_by_duid now duid ix).0 ≡ address_of (table now ix.clients duid))
      × (table later (lookup_client_by_duid now duid ix).1.clients d ≡ table later ix.clients d)
      × (table later (find_ip now env perm ip duid ix).1.clients d ≡ table later ix.clients d)
unfolding lookup_client_by_duid
lookup_client_by_duid-table now later duid d ix env perm ip h t =
    let l = lookup-LookedBoth now 0 duid ix.clients in
    let kept = LookedBoth-live_at h (duid_string d) l in
    let searched = Offered-table d h t (find_ip-Offered now env perm ip duid ix) in
    elim (Option-cases (lookup now 0 duid ix.clients).1) [
      | inl e ↦
          let free =
            live_at-none now (lookup now 0 duid ix.clients).2 (duid_string duid)
              (LookedBoth-no_duid l e) in
          let gone =
            sym (LookedBoth-live_at {now = now} (omega arith) (duid_string duid) l) ∙ free in
          (
            rw (e, lookup_client_by_duid) (ap address_of (sym gone)),
            rw (e, lookup_client_by_duid) kept,
            searched,
          )
      | inr (p, e) ↦
          let (ed, live) = LookedBoth-by_duid l e in
          let there =
            live_at-some now ix.clients (duid_string duid) p ed
            ∙ if_live-live now (ix.clients.cell p) live in
          (
            rw (e, lookup_client_by_duid)
                (ap (λ (f : ℕ → Client). ok (to_v4 (f p).ip)) (LookedBoth-cell l).0
                  ∙ ap address_of (sym there)),
            rw (e, lookup_client_by_duid) kept,
            searched,
          )
    ]
