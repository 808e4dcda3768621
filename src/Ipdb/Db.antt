-- ===== src/Ipdb/Db.antt =====
-- lib/server/ipdb/ipdb.go: the addresses that the server manages. Each method holds the lock of the
-- database, so a call is one step from state to state. `time.Now()` is an argument of it.
pub mod Range
pub mod Updates
pub mod Search
pub mod WellFormed
pub mod Leases
pub mod Offers
pub mod Reserved
pub mod Reached
use Prim.Native.Nat.{bit_and}
use psa_dhcp.Base.{
  ℕ, ◌+◌, ◌-◌, ◌%◌, ◌^◌, ◌==◌, ltb, ◌&&◌, ◌||◌, not, Bool, true, false, if◌then◌else◌, Option, none,
  some, List, [], ◌∷◌, length, Result, ok, err, ◌>>=◌, is_ok,
}
use psa_dhcp.Base.Bytes.{u32_at}
use psa_dhcp.Net.{Ip, IpMask, to4}
use psa_dhcp.Ipdb.Uip.{Uip, to_v4, is_valid}
use psa_dhcp.Ipdb.Duid.{Duid}
use psa_dhcp.Ipdb.Clients.{
  Clients, ClientError, new_clients, lookup, inject_permanent, inject, set_lease,
}

pub record Ipdb : Type 0 where
  pub net_from : Uip
  pub net_to : Uip
  pub dyn_from : Uip
  pub dyn_to : Uip
  pub clients : Clients

pub data IpdbError : Type 0 where
  invalid_network invalid_netmask not_ipv4 not_in_range begin_after_end no_such_client
        dynamic_disabled no_free_ip :
      IpdbError
  client_error : ClientError → IpdbError

-- `fromTo`, in `uint32`: `^nm` is 2 ^ 32 - 1 - nm.
unfoldable pub from_to : Ip → IpMask → Result IpdbError (Uip × Uip)
from_to network netmask = elim (to4 network) [
  | none ↦ err invalid_network
  | some v4 ↦
      if not (length netmask == 4)
      then err invalid_netmask
      else let n = u32_at v4 0 in
        let nm = u32_at netmask 0 in
        let start = bit_and n nm in
        let end = (start + (2 ^ 32 - 1 - nm)) % 2 ^ 32 in
        if start == end
        then ok (start, end)
        else ok ((start + 1) % 2 ^ 32, (end + (2 ^ 32 - 1)) % 2 ^ 32)
]

unfoldable pub new_ipdb : Ip → IpMask → Result IpdbError Ipdb
unfolding from_to
new_ipdb network netmask = do
  (from, to) ← from_to network netmask
  ok (record { net_from = from; net_to = to; dyn_from = from; dyn_to = to; clients = new_clients })

unfoldable pub to_uip : Ipdb → Ip → Result IpdbError Uip
to_uip ix ip = elim (to4 ip) [
  | none ↦ err not_ipv4
  | some v4 ↦
      let n = u32_at v4 0 in if ltb n ix.net_from || ltb ix.net_to n then err not_in_range else ok n
]

unfoldable pub set_dynamic_range : (begin end : Ip) → Ipdb → Result IpdbError Ipdb
unfolding to_uip
set_dynamic_range begin end ix = do
  b ← to_uip ix begin
  e ← to_uip ix end
  if ltb e b then err begin_after_end else ok (record ix { dyn_from = b; dyn_to = e })

unfoldable pub disable_dynamic : Ipdb → Ipdb
disable_dynamic ix = record ix { dyn_from = 0; dyn_to = 0 }

unfoldable pub in_managed_range : Ipdb → Ip → Bool
unfolding to_uip
in_managed_range ix ip = is_ok (to_uip ix ip)

abbrev pub with_clients : Ipdb → Clients → Ipdb
with_clients ix cx = record ix { clients = cx }

unfoldable pub lookup_client_by_duid : ℕ → Duid → Ipdb → Result IpdbError Ip × Ipdb
lookup_client_by_duid now duid ix =
    let (_, res, cx) = lookup now 0 duid ix.clients in
    let ix' = with_clients ix cx in
    elim res [ none ↦ (err no_such_client, ix') | some p ↦ (ok (to_v4 (cx.cell p).ip), ix') ]

-- The methods that return an error alone: `none` is `nil`.
abbrev pub from_clients : Ipdb → Option ClientError × Clients → Option IpdbError × Ipdb
from_clients ix (none, cx) = (none, with_clients ix cx)
from_clients ix (some e, cx) = (some (client_error e), with_clients ix cx)

unfoldable pub add_permanent_client : ℕ → Ip → Duid → Ipdb → Option IpdbError × Ipdb
unfolding to_uip
add_permanent_client now ip duid ix = elim (to_uip ix ip) [
  | err e ↦ (some e, ix)
  | ok n ↦ from_clients ix (inject_permanent now n duid ix.clients)
]

-- `UpdateClient` for an address that was found in range: an optimistic attempt, and if it fails an
-- insertion and another attempt.
unfoldable pub update_lease : ℕ → Uip → Duid → (ltime : ℕ) → Clients → Option ClientError × Clients
update_lease now n duid ltime cx =
    let (failed, cx1) = set_lease now n duid ltime cx in
    elim failed [
      | none ↦ (none, cx1)
      | some e ↦
          let (refused, cx2) = inject now n duid ltime cx1 in
          elim refused [ some e ↦ (some e, cx2) | none ↦ set_lease now n duid ltime cx2 ]
    ]

unfoldable pub update_client : ℕ → Ip → Duid → (ttl : ℕ) → Ipdb → Option IpdbError × Ipdb
unfolding to_uip update_lease
update_client now ip duid ttl ix = elim (to_uip ix ip) [
  | err e ↦ (some e, ix)
  | ok n ↦ from_clients ix (update_lease now n duid (now + ttl) ix.clients)
]

-- What a round of the search meets: the clock, whether the context is done, and the answers of
-- `isFree`.
pub record Round : Type 0 where
  pub now : ℕ
  pub cancelled : Bool
  pub is_free : Ip → Bool

-- The loop over the offsets in `p`; `env i` is what round `i` meets.
unfoldable pub find_loop : (ℕ → Round) → (i dyn_from : ℕ) → List ℕ → Clients → Option Uip × Clients
find_loop env i dyn_from [] cx = (none, cx)
find_loop env i dyn_from (v ∷ p) cx =
    let picked = (dyn_from + v % 2 ^ 32) % 2 ^ 32 in
    let (e, _, cx') = lookup (env i).now picked [] cx in
    let rest = find_loop env (i + 1) dyn_from p cx' in
    let checked : Option Uip × Clients = elim e [
      | some q ↦ rest
      | none ↦
          if is_valid picked && (env i).is_free (to_v4 picked) then (some picked, cx') else rest
    ] in
    if (env i).cancelled then (none, cx) else checked

-- The offsets that are tried: `perm n` is `rand.Perm(n)`.
abbrev pub offsets : (ℕ → List ℕ) → Ipdb → (n : Uip) → (taken : Option ℕ) → List ℕ
offsets perm ix n taken =
    let p = perm (1 + (ix.dyn_to + 2 ^ 32 - ix.dyn_from) % 2 ^ 32) in
    elim taken [ some q ↦ p | none ↦ ((n + 2 ^ 32 - ix.dyn_from) % 2 ^ 32) ∷ p ]

-- A suggested address that is not in range is ignored.
abbrev pub suggestion : Ipdb → Ip → Uip
suggestion ix ip = elim (to_uip ix ip) [ ok n ↦ n | err e ↦ 0 ]

unfoldable pub find_ip :
    ℕ → (ℕ → Round) → (perm : ℕ → List ℕ) → Ip → Duid → Ipdb → Result IpdbError Ip × Ipdb
unfolding to_uip find_loop
find_ip now env perm ip duid ix =
    let n = suggestion ix ip in
    let (oip, oduid, cx) = lookup now n duid ix.clients in
    elim oduid [
      | some p ↦ (ok (to_v4 (cx.cell p).ip), with_clients ix cx)
      | none ↦
          if ix.dyn_to == 0 && ix.dyn_from == 0
          then (err dynamic_disabled, with_clients ix cx)
          else let (found, cx') = find_loop env 0 ix.dyn_from (offsets perm ix n oip) cx in
            elim found [
              | some picked ↦ (ok (to_v4 picked), with_clients ix cx')
              | none ↦ (err no_free_ip, with_clients ix cx')
            ]
    ]
