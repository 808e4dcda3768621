-- ===== src/Ipdb/Clients.antt =====
-- lib/server/ipdb/clients/clients.go: the leases, each found by its address and by its client.
-- A pointer `*client` is a number, and `cell` is what it points to; pointers from `next` on are
-- unused. `m` is the map from strings to pointers. The methods lock the map, and in ipdb.go each
-- runs under the lock of the database, so a call is one step.
pub mod Store
pub mod Invariant
pub mod Outcomes
pub mod Kept
pub mod Bounded
pub mod Laws
pub mod Found
pub mod Reserved
use psa_dhcp.Base.{
  ℕ, ◌+◌, ◌==◌, ltb, not, ◌&&◌, Bool, true, false, if◌then◌else◌, Option, none, some, List,
  bytes_eq,
}
use psa_dhcp.Ipdb.Uip.{Uip, uip_string}
use psa_dhcp.Ipdb.Duid.{Duid, duid_string}

-- Times are counted in nanoseconds from the epoch.
pub record Client : Type 0 where
  pub ip : Uip
  pub duid : Duid
  pub leased_until : ℕ
  pub permanent : Bool

pub record Clients : Type 0 where
  pub next : ℕ
  pub cell : ℕ → Client
  pub m : List ℕ → Option ℕ

abbrev pub nobody : Client
nobody = record { ip = 0; duid = List.[]; leased_until = 0; permanent = false }

unfoldable pub new_clients : Clients
new_clients = record { next = 0; cell = λ _. nobody; m = λ _. none }

-- `delete(m, k)`, `m[k] = p` and `*p = c`.
unfoldable pub delete : List ℕ → (List ℕ → Option ℕ) → List ℕ → Option ℕ
delete k m j = if bytes_eq k j then none else m j

unfoldable pub insert : List ℕ → ℕ → (List ℕ → Option ℕ) → List ℕ → Option ℕ
insert k p m j = if bytes_eq k j then some p else m j

unfoldable pub write : ℕ → Client → (ℕ → Client) → ℕ → Client
write p c cell q = if p == q then c else cell q

-- `!p.permanent && now.After(p.leasedUntil)`.
unfoldable pub expired : ℕ → Client → Bool
expired now c = not c.permanent && ltb c.leased_until now

-- One round of the loop of `Lookup`: an expired entry is deleted, under this key alone.
unfoldable pub lookup_key : ℕ → List ℕ → Clients → Option ℕ × Clients
lookup_key now k cx = elim (cx.m k) [
  | none ↦ (none, cx)
  | some p ↦
      if expired now (cx.cell p) then (none, record cx { m = delete k cx.m }) else (some p, cx)
]

unfoldable pub lookup : ℕ → Uip → Duid → Clients → Option ℕ × Option ℕ × Clients
lookup now ip duid cx =
    let (by_ip, cx1) = lookup_key now (uip_string ip) cx in
    let (by_duid, cx2) = lookup_key now (duid_string duid) cx1 in (by_ip, by_duid, cx2)

pub data ClientError : Type 0 where
  ip_exists hardware_addr_exists ip_missing duid_missing ip_ne_duid : ClientError

-- The new entry, under both keys.
unfoldable pub add_client : Client → Clients → Clients
add_client c cx = record {
  next = cx.next + 1;
  cell = write cx.next c cx.cell;
  m = insert (duid_string c.duid) cx.next (insert (uip_string c.ip) cx.next cx.m);
}

unfoldable pub inject_internal :
    ℕ
    → Uip
    → Duid
    → (leased_until : ℕ) → (permanent : Bool) → Clients
    → Option ClientError × Clients
inject_internal now ip duid leased_until permanent cx =
    let (by_ip, by_duid, cx') = lookup now ip duid cx in
    elim by_ip [
      | some p ↦ (some ip_exists, cx')
      | none ↦ elim by_duid [
        | some q ↦ (some hardware_addr_exists, cx')
        | none ↦ (
          none,
          add_client
              (record { ip = ip; duid = duid; leased_until = leased_until; permanent = permanent })
              cx',
        )
      ]
    ]

unfoldable pub inject_permanent : ℕ → Uip → Duid → Clients → Option ClientError × Clients
inject_permanent now ip duid cx = inject_internal now ip duid 0 true cx

unfoldable pub inject : ℕ → Uip → Duid → ℕ → Clients → Option ClientError × Clients
inject now ip duid leased_until cx = inject_internal now ip duid leased_until false cx

-- `ip.leasedUntil = leasedUntil`.
unfoldable pub write_lease : ℕ → ℕ → Clients → Clients
write_lease p leased_until cx = record cx {
  cell = write p (record (cx.cell p) { leased_until = leased_until }) cx.cell;
}

unfoldable pub set_lease : ℕ → Uip → Duid → ℕ → Clients → Option ClientError × Clients
set_lease now ip duid leased_until cx =
    let (by_ip, by_duid, cx') = lookup now ip duid cx in
    elim by_ip [
      | none ↦ (some ip_missing, cx')
      | some p ↦ elim by_duid [
        | none ↦ (some duid_missing, cx')
        | some q ↦ if p == q then (none, write_lease p leased_until cx') else (some ip_ne_duid, cx')
      ]
    ]

unfoldable pub expire : ℕ → Uip → Duid → Clients → Option ClientError × Clients
expire now ip duid cx = set_lease now ip duid 0 cx
