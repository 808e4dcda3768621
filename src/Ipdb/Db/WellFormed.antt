-- ===== src/Ipdb/Db/WellFormed.antt =====
-- What holds of the database between any two calls.
use Prim.Native.Nat.{bit_and}
use mathlib.Core.Path.{subst}
use psa_dhcp.Base.{
  ℕ, ◌+◌, ◌-◌, ◌%◌, ◌^◌, ◌<◌, ◌≤◌, ◌≡◌, refl, ap, arith, true, false, Option, none, some, Result,
  ok, ◌⊎◌, inl, inr, Option-cases, Bool-cases, All, ltb, ◌==◌, length, Result-cases,
}
use psa_dhcp.Base.Bytes.{IsByte, u32_at}
use psa_dhcp.Net.{Ip, IpMask, to4}
use psa_dhcp.Ipdb.Uip.{Uip}
use psa_dhcp.Ipdb.Duid.{Duid}
use psa_dhcp.Ipdb.Clients.{Clients, ClientError, new_clients, lookup, inject_permanent}
use psa_dhcp.Ipdb.Clients.Invariant.{IsConsistent, IsConsistent-later, new_clients-IsConsistent}
use psa_dhcp.Ipdb.Clients.Kept.{
  lookup-IsConsistent, inject_internal-IsConsistent, Injected-IsConsistent, LeaseSet-IsConsistent,
}
use psa_dhcp.Ipdb.Clients.Bounded.{
  IsBounded, lookup-IsBounded, inject_internal-IsBounded, Injected-IsBounded, LeaseSet-IsBounded,
}
use psa_dhcp.Ipdb.Db.{
  Ipdb, IpdbError, from_to, new_ipdb, to_uip, set_dynamic_range, disable_dynamic, with_clients,
  lookup_client_by_duid, from_clients, add_permanent_client, update_client,
}
use psa_dhcp.Ipdb.Db.Range.{to_uip_range}
use psa_dhcp.Ipdb.Db.Updates.{Updated, update_lease-Updated, at_once, rejected, afterwards}

ok_eq : {a b : Ipdb} → ◌≡◌ {A = Result IpdbError Ipdb} (ok a) (ok b) → a ≡ b
ok_eq h = cc

ok_pair :
    {a b c d : Uip}
    → ◌≡◌ {A = Result IpdbError (Uip × Uip)} (ok (a, b)) (ok (c, d))
    → (a ≡ c) × (b ≡ d)
ok_pair {a} {b} {c} {d} h =
    let e : ◌≡◌ {A = Uip × Uip} (a, b) (c, d) = cc in (ap (λ x. x.0) e, ap (λ x. x.1) e)

not-ltb→le : (a b : ℕ) → ltb a b ≡ false → b ≤ a
not-ltb→le a b h = ground arith

from_to-lt :
    (network : Ip) (netmask : IpMask) {f t : Uip} → from_to network netmask ≡ ok (f, t) → t < 2 ^ 32
unfolding from_to
from_to-lt network netmask h = elim (Option-cases (to4 network)) [
  | inl e ↦ cc (rw (e, from_to) at h)
  | inr (v4, e) ↦ elim (Bool-cases (length netmask == 4)) [
    | inr bad ↦ cc (rw (e, from_to, bad) at h)
    | inl good ↦
        let start = bit_and (u32_at v4 0) (u32_at netmask 0) in
        let end = (start + (2 ^ 32 - 1 - u32_at netmask 0)) % 2 ^ 32 in
        elim (Bool-cases (start == end)) [
          | inl one ↦ omega (arith, (ok_pair (rw (e, from_to, good, one) at h)).1)
          | inr more ↦ omega (arith, (ok_pair (rw (e, from_to, good, more) at h)).1)
        ]
  ]
]

-- At the time `now`: the map of clients is consistent, every client's address is one of the
-- network's, and so are those of the dynamic range, unless it is disabled.
pub record IsWellFormed (now : ℕ) (ix : Ipdb) : Type 0 where
  pub small : ix.net_to < 2 ^ 32
  pub consistent : IsConsistent now ix.clients
  pub bounded : IsBounded ix.net_from ix.net_to ix.clients
  pub dynamic :
      ((ix.dyn_from ≡ 0) × (ix.dyn_to ≡ 0))
      ⊎ ((ix.net_from ≤ ix.dyn_from) × (ix.dyn_from ≤ ix.dyn_to) × (ix.dyn_to ≤ ix.net_to))

pub IsWellFormed-later :
    {now later : ℕ} {ix : Ipdb} → now ≤ later → IsWellFormed now ix → IsWellFormed later ix
IsWellFormed-later {later} h w = record {
  small = w.small;
  consistent = IsConsistent-later later h w.consistent;
  bounded = w.bounded;
  dynamic = w.dynamic;
}

module _ {now : ℕ} {ix : Ipdb} (w : IsWellFormed now ix) where
  -- A method that changes the clients alone.
  pub with_clients-IsWellFormed :
      {later : ℕ} {cx : Clients}
      → IsConsistent later cx
      → IsBounded ix.net_from ix.net_to cx
      → IsWellFormed later (with_clients ix cx)
  with_clients-IsWellFormed c b = record {
    small = w.small;
    consistent = c;
    bounded = b;
    dynamic = w.dynamic;
  }

  from_clients-IsWellFormed :
      (r : Option ClientError × Clients)
      → IsConsistent now r.1
      → IsBounded ix.net_from ix.net_to r.1
      → IsWellFormed now (from_clients ix r).1
  from_clients-IsWellFormed (none, cx) c b = with_clients-IsWellFormed c b
  from_clients-IsWellFormed (some e, cx) c b = with_clients-IsWellFormed c b

  pub disable_dynamic-IsWellFormed : IsWellFormed now (disable_dynamic ix)
  unfolding disable_dynamic
  disable_dynamic-IsWellFormed = record {
    small = w.small;
    consistent = w.consistent;
    bounded = w.bounded;
    dynamic = inl (refl, refl);
  }

  pub set_dynamic_range-IsWellFormed :
      (begin end : Ip) {ix' : Ipdb} → set_dynamic_range begin end ix ≡ ok ix' → IsWellFormed now ix'
  unfolding set_dynamic_range
  set_dynamic_range-IsWellFormed begin end {ix'} h = elim (Result-cases (to_uip ix begin)) [
    | inr (e, he) ↦ cc (rw (he, set_dynamic_range) at h)
    | inl (b, hb) ↦ elim (Result-cases (to_uip ix end)) [
      | inr (e, he) ↦ cc (rw (hb, set_dynamic_range, he) at h)
      | inl (e, he) ↦ elim (Bool-cases (ltb e b)) [
        | inl bad ↦ cc (rw (hb, set_dynamic_range, he, bad) at h)
        | inr good ↦
            subst (IsWellFormed now) (ok_eq (rw (hb, set_dynamic_range, he, good) at h)) (record {
              small = w.small;
              consistent = w.consistent;
              bounded = w.bounded;
              dynamic =
                  inr
                    ((to_uip_range ix begin hb).0, not-ltb→le e b good, (to_uip_range ix end he).1);
            })
      ]
    ]
  ]

  pub lookup_client_by_duid-IsWellFormed :
      (duid : Duid) → IsWellFormed now (lookup_client_by_duid now duid ix).1
  unfolding lookup_client_by_duid
  lookup_client_by_duid-IsWellFormed duid = elim (Option-cases (lookup now 0 duid ix.clients).1) [
    | inl e ↦ rw (e, lookup_client_by_duid) kept
    | inr (p, e) ↦ rw (e, lookup_client_by_duid) kept
  ]
    where
      kept : IsWellFormed now (with_clients ix (lookup now 0 duid ix.clients).2)
      kept =
          with_clients-IsWellFormed (lookup-IsConsistent w.consistent 0 duid)
            (lookup-IsBounded now w.bounded 0 duid)

  pub add_permanent_client-IsWellFormed :
      (ip : Ip) (duid : Duid)
      → All IsByte duid
      → IsWellFormed now (add_permanent_client now ip duid ix).1
  unfolding add_permanent_client inject_permanent
  add_permanent_client-IsWellFormed ip duid bytes = elim (Result-cases (to_uip ix ip)) [
    | inr (e, h) ↦ rw (h, add_permanent_client) w
    | inl (n, h) ↦
        let (lo, hi) = to_uip_range ix ip h in
        rw (h, add_permanent_client, inject_permanent)
          (from_clients-IsWellFormed _ (inject_internal-IsConsistent w.consistent n duid 0 true)
            (inject_internal-IsBounded now w.bounded n duid 0 true lo hi bytes))
  ]

  Updated-kept :
      {n : Uip} {duid : Duid} {until : ℕ} {r : Option ClientError × Clients}
      → Updated now n duid until ix.clients r
      → ix.net_from ≤ n
      → n ≤ ix.net_to
      → All IsByte duid
      → IsConsistent now r.1 × IsBounded ix.net_from ix.net_to r.1
  Updated-kept (at_once l _) lo hi bytes =
      (LeaseSet-IsConsistent w.consistent l, LeaseSet-IsBounded w.bounded l)
  Updated-kept (rejected _ _ l _ i _) lo hi bytes = (
    Injected-IsConsistent (LeaseSet-IsConsistent w.consistent l) i,
    Injected-IsBounded (LeaseSet-IsBounded w.bounded l) i
        (record { above = lo; below = hi; bytes = bytes }),
  )
  Updated-kept (afterwards _ l _ i _ l') lo hi bytes = (
    LeaseSet-IsConsistent (Injected-IsConsistent (LeaseSet-IsConsistent w.consistent l) i) l',
    LeaseSet-IsBounded
        (Injected-IsBounded (LeaseSet-IsBounded w.bounded l) i
          (record { above = lo; below = hi; bytes = bytes }))
        l',
  )

  -- An update keeps a well-formed database well formed, whether it succeeds or not, if the client's
  -- identifier is made of bytes.
  pub update_client-IsWellFormed :
      (ip : Ip) (duid : Duid) (ttl : ℕ)
      → All IsByte duid
      → IsWellFormed now (update_client now ip duid ttl ix).1
  unfolding update_client
  update_client-IsWellFormed ip duid ttl bytes = elim (Result-cases (to_uip ix ip)) [
    | inr (e, h) ↦ rw (h, update_client) w
    | inl (n, h) ↦
        let (lo, hi) = to_uip_range ix ip h in
        let (c, b) =
          Updated-kept (update_lease-Updated now n duid (now + ttl) ix.clients) lo hi bytes in
        rw (h, update_client) (from_clients-IsWellFormed _ c b)
  ]

-- A new database is well formed, if its first managed address is not above its last one.
pub new_ipdb-IsWellFormed :
    (now : ℕ) (network : Ip) (netmask : IpMask) {ix : Ipdb}
    → new_ipdb network netmask ≡ ok ix
    → ix.net_from ≤ ix.net_to
    → IsWellFormed now ix
unfolding new_ipdb
new_ipdb-IsWellFormed now network netmask {ix} h some_address =
    elim (Result-cases (from_to network netmask)) [
      | inr (e, he) ↦ cc (rw (he, new_ipdb) at h)
      | inl ((f, t), he) ↦
          let made = ok_eq (rw (he, new_ipdb) at h) in
          subst (IsWellFormed now) made (record {
            small = from_to-lt network netmask he;
            consistent = new_clients-IsConsistent now;
            bounded = record { each = λ p lt. absurd (none_made p lt) };
            dynamic = inr (
              omega arith,
              omega (
                arith,
                some_address,
                ap (λ (x : Ipdb). x.net_from) made,
                ap (λ (x : Ipdb). x.net_to) made,
              ),
              omega arith,
            );
          })
    ]
  where
    none_made : (p : ℕ) → p < new_clients.next → ⊥
    none_made p lt = let h' : p < 0 = unfold new_clients in lt in omega (arith, h')
