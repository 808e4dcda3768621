-- ===== src/Ipdb/Table.antt =====
-- What the database promises: a table from the identifiers of clients to their leases. It forgets
-- the keys, the pointers, and the entries that have expired.
pub mod Steps
pub mod Assigned
pub mod Refines
use psa_dhcp.Base.{ℕ, Bool, true, false, if◌then◌else◌, Option, none, some, List, bytes_eq}
use psa_dhcp.Ipdb.Uip.{Uip}
use psa_dhcp.Ipdb.Duid.{Duid, duid_string}
use psa_dhcp.Ipdb.Clients.{Client, Clients, expired}

abbrev pub if_live : ℕ → Client → Option Client
if_live now c = if expired now c then none else some c

-- The client under a key, if it has not expired.
abbrev pub live_at : ℕ → Clients → List ℕ → Option Client
live_at now cx k = elim (cx.m k) [ none ↦ none | some p ↦ if_live now (cx.cell p) ]

abbrev pub Table : Type 0
Table = Duid → Option Client

abbrev pub table : ℕ → Clients → Table
table now cx duid = live_at now cx (duid_string duid)

-- A lease that is renewed, or a new one.
abbrev pub renewed_lease : Uip → Duid → (until : ℕ) → Option Client → Client
renewed_lease n duid until (some c) = record c { leased_until = until }
renewed_lease n duid until none = record {
  ip = n;
  duid = duid;
  leased_until = until;
  permanent = false;
}

-- The table with the lease of one client replaced.
abbrev pub assign : Uip → Duid → (until : ℕ) → Table → Table
assign n duid until t d =
    if bytes_eq (duid_string duid) (duid_string d)
    then some (renewed_lease n duid until (t duid))
    else t d
