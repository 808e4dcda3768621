-- ===== src/Ipdb/Db/Reserved.antt =====
-- The addresses of permanent clients, under every sequence of calls.
use mathlib.Core.Path.{subst}
use psa_dhcp.Base.{
  ℕ, ◌+◌, ◌≡◌, ◌≢◌, refl, sym, ap, ◌∙◌, true, Option, none, some, List, Result, ok, inl, inr,
  Option-cases, Result-cases, Bool-cases, ltb,
}
use psa_dhcp.Net.{Ip, to4}
use psa_dhcp.Ipdb.Uip.{Uip, to_v4}
use psa_dhcp.Ipdb.Duid.{Duid, duid_string}
use psa_dhcp.Ipdb.Clients.{Client, Clients, ClientError, lookup, inject_permanent}
use psa_dhcp.Ipdb.Keys.{uip_string-ne-duid_string}
use psa_dhcp.Ipdb.Clients.Invariant.{IsConsistent}
use psa_dhcp.Ipdb.Clients.Outcomes.{
  LookedBoth-IsConsistent, lookup-LookedBoth, Injected, refused, added, inject_internal-Injected,
}
use psa_dhcp.Ipdb.Clients.Found.{LookedBoth-found_duid}
use psa_dhcp.Ipdb.Clients.Reserved.{
  IsReserved, IsReserved-live, add_client-IsReserved_new, LookedBoth-IsReserved,
  Injected-IsReserved, LeaseSet-IsReserved,
}
use psa_dhcp.Ipdb.Db.{
  Ipdb, IpdbError, Round, to_uip, with_clients, from_clients, lookup_client_by_duid,
  add_permanent_client, update_client, find_ip, set_dynamic_range, disable_dynamic,
}
use psa_dhcp.Ipdb.Db.Search.{Searched, gave_up, chosen, passed}
use psa_dhcp.Ipdb.Db.Updates.{
  Updated, at_once, rejected, afterwards, update_lease-Updated, Updated-taken,
}
use psa_dhcp.Ipdb.Db.Offers.{Offered, own, disabled, found, exhausted, find_ip-Offered}

-- A permanent client that holds `ip` in the database.
pub record HasHolder (ip : Ip) (duid : Duid) (ix : Ipdb) : Type 0 where
  pub number : Uip
  pub pointer : ℕ
  pub in_range : to_uip ix ip ≡ ok number
  pub reserved : IsReserved number duid pointer ix.clients

-- One call of a method, at any time and with any arguments.
pub data Called (ix : Ipdb) : Ipdb → Type 0 where
  looked_up : (now : ℕ) (duid : Duid) → Called ix (lookup_client_by_duid now duid ix).1
  permanently :
      (now : ℕ) (ip : Ip) (duid : Duid) → Called ix (add_permanent_client now ip duid ix).1
  updated :
      (now : ℕ) (ip : Ip) (duid : Duid) (ttl : ℕ) → Called ix (update_client now ip duid ttl ix).1
  searched :
      (now : ℕ) (env : ℕ → Round) (perm : ℕ → List ℕ) (ip : Ip) (duid : Duid)
      → Called ix (find_ip now env perm ip duid ix).1
  ranged : (begin end : Ip) {ix' : Ipdb} → set_dynamic_range begin end ix ≡ ok ix' → Called ix ix'
  range_disabled : Called ix (disable_dynamic ix)

pub data Calls : Ipdb → Ipdb → Type 0 where
  no_call : {ix : Ipdb} → Calls ix ix
  then_call : {ix ix1 ix2 : Ipdb} → Calls ix ix1 → Called ix1 ix2 → Calls ix ix2

pub Calls-trans : {a b c : Ipdb} → Calls a b → Calls b c → Calls a c
Calls-trans h no_call = h
Calls-trans h (then_call t s) = then_call (Calls-trans h t) s

Searched-IsReserved :
    {env : ℕ → Round} {dyn_from i : ℕ} {l : List ℕ} {cx : Clients} {r : Option Uip × Clients}
    {n : Uip} {d : Duid} {p : ℕ}
    → Searched env dyn_from i l cx r
    → IsReserved n d p cx
    → IsReserved n d p r.1
Searched-IsReserved gave_up w = w
Searched-IsReserved (chosen l _ _ _) w = LookedBoth-IsReserved w l
Searched-IsReserved (passed l s) w = Searched-IsReserved s (LookedBoth-IsReserved w l)

ok_eq : {a b : Ipdb} → ◌≡◌ {A = Result IpdbError Ipdb} (ok a) (ok b) → a ≡ b
ok_eq h = cc

module _ {ip : Ip} {d : Duid} {ix : Ipdb} (w : HasHolder ip d ix) where
  with_clients-HasHolder :
      {cx : Clients} → IsReserved w.number d w.pointer cx → HasHolder ip d (with_clients ix cx)
  unfolding to_uip
  with_clients-HasHolder h = record {
    number = w.number;
    pointer = w.pointer;
    in_range = w.in_range;
    reserved = h;
  }

  from_clients-HasHolder :
      (r : Option ClientError × Clients)
      → IsReserved w.number d w.pointer r.1
      → HasHolder ip d (from_clients ix r).1
  from_clients-HasHolder (none, cx) h = with_clients-HasHolder h
  from_clients-HasHolder (some e, cx) h = with_clients-HasHolder h

  Offered-HasHolder :
      {now : ℕ} {env : ℕ → Round} {perm : ℕ → List ℕ} {n : Uip} {duid : Duid}
      {r : Result IpdbError Ip × Ipdb}
      → Offered now env perm n duid ix r
      → HasHolder ip d r.1
  Offered-HasHolder (own p l e) = with_clients-HasHolder (LookedBoth-IsReserved w.reserved l)
  Offered-HasHolder (disabled l) = with_clients-HasHolder (LookedBoth-IsReserved w.reserved l)
  Offered-HasHolder (found l e on s c) =
      with_clients-HasHolder (Searched-IsReserved s (LookedBoth-IsReserved w.reserved l))
  Offered-HasHolder (exhausted l s) =
      with_clients-HasHolder (Searched-IsReserved s (LookedBoth-IsReserved w.reserved l))

  Updated-IsReserved :
      {now : ℕ} {n : Uip} {duid : Duid} {until : ℕ} {r : Option ClientError × Clients}
      → Updated now n duid until ix.clients r
      → IsReserved w.number d w.pointer r.1
  Updated-IsReserved (at_once l _) = LeaseSet-IsReserved w.reserved l
  Updated-IsReserved (rejected _ _ l _ i _) =
      Injected-IsReserved (LeaseSet-IsReserved w.reserved l) i
  Updated-IsReserved (afterwards _ l _ i _ l') =
      LeaseSet-IsReserved (Injected-IsReserved (LeaseSet-IsReserved w.reserved l) i) l'

  lookup_client_by_duid-HasHolder :
      (now : ℕ) (duid : Duid) → HasHolder ip d (lookup_client_by_duid now duid ix).1
  unfolding lookup_client_by_duid
  lookup_client_by_duid-HasHolder now duid =
      let kept =
        with_clients-HasHolder
          (LookedBoth-IsReserved w.reserved (lookup-LookedBoth now 0 duid ix.clients)) in
      elim (Option-cases (lookup now 0 duid ix.clients).1) [
        | inl e ↦ rw (e, lookup_client_by_duid) kept
        | inr (p, e) ↦ rw (e, lookup_client_by_duid) kept
      ]

  add_permanent_client-HasHolder :
      (now : ℕ) (ip' : Ip) (duid : Duid) → HasHolder ip d (add_permanent_client now ip' duid ix).1
  unfolding add_permanent_client inject_permanent
  add_permanent_client-HasHolder now ip' duid = elim (Result-cases (to_uip ix ip')) [
    | inr (e, h) ↦ rw (h, add_permanent_client) w
    | inl (n, h) ↦
        let c : Client = record { ip = n; duid = duid; leased_until = 0; permanent = true } in
        rw (h, add_permanent_client, inject_permanent)
          (from_clients-HasHolder _
            (Injected-IsReserved w.reserved (inject_internal-Injected now c ix.clients)))
  ]

  update_client-HasHolder :
      (now : ℕ) (ip' : Ip) (duid : Duid) (ttl : ℕ)
      → HasHolder ip d (update_client now ip' duid ttl ix).1
  unfolding update_client
  update_client-HasHolder now ip' duid ttl = elim (Result-cases (to_uip ix ip')) [
    | inr (e, h) ↦ rw (h, update_client) w
    | inl (n, h) ↦
        rw (h, update_client)
          (from_clients-HasHolder _
            (Updated-IsReserved (update_lease-Updated now n duid (now + ttl) ix.clients)))
  ]

  set_dynamic_range-HasHolder :
      (begin end : Ip) {ix' : Ipdb} → set_dynamic_range begin end ix ≡ ok ix' → HasHolder ip d ix'
  unfolding set_dynamic_range to_uip
  set_dynamic_range-HasHolder begin end {ix'} h = elim (Result-cases (to_uip ix begin)) [
    | inr (e, he) ↦ cc (rw (he, set_dynamic_range) at h)
    | inl (b, hb) ↦ elim (Result-cases (to_uip ix end)) [
      | inr (e, he) ↦ cc (rw (hb, set_dynamic_range, he) at h)
      | inl (e, he) ↦ elim (Bool-cases (ltb e b)) [
        | inl bad ↦ cc (rw (hb, set_dynamic_range, he, bad) at h)
        | inr good ↦
            subst (HasHolder ip d) (ok_eq (rw (hb, set_dynamic_range, he, good) at h)) (record {
              number = w.number;
              pointer = w.pointer;
              in_range = w.in_range;
              reserved = w.reserved;
            })
      ]
    ]
  ]

  disable_dynamic-HasHolder : HasHolder ip d (disable_dynamic ix)
  unfolding disable_dynamic to_uip
  disable_dynamic-HasHolder = record {
    number = w.number;
    pointer = w.pointer;
    in_range = w.in_range;
    reserved = w.reserved;
  }

  Called-HasHolder : {ix' : Ipdb} → Called ix ix' → HasHolder ip d ix'
  Called-HasHolder (looked_up now duid) = lookup_client_by_duid-HasHolder now duid
  Called-HasHolder (permanently now ip' duid) = add_permanent_client-HasHolder now ip' duid
  Called-HasHolder (updated now ip' duid ttl) = update_client-HasHolder now ip' duid ttl
  Called-HasHolder (searched now env perm ip' duid) =
      Offered-HasHolder (find_ip-Offered now env perm ip' duid ix)
  Called-HasHolder (ranged begin end h) = set_dynamic_range-HasHolder begin end h
  Called-HasHolder range_disabled = disable_dynamic-HasHolder

pub Calls-HasHolder :
    {ip : Ip} {d : Duid} {ix ix' : Ipdb} → HasHolder ip d ix → Calls ix ix' → HasHolder ip d ix'
Calls-HasHolder w no_call = w
Calls-HasHolder w (then_call t s) = Called-HasHolder (Calls-HasHolder w t) s

to_uip-same : (ix : Ipdb) (a b : Ip) → to4 a ≡ to4 b → to_uip ix a ≡ to_uip ix b
unfolding to_uip
to_uip-same ix a b h = elim (Option-cases (to4 b)) [
  | inl e ↦ rw (e, to_uip, h ∙ e) refl
  | inr (v4, e) ↦ rw (e, to_uip, h ∙ e) refl
]

-- A permanent client that was added holds its address.
module _ (now : ℕ) (ip : Ip) (duid : Duid) (ix : Ipdb) (w : IsConsistent now ix.clients) where
  from_clients-added :
      (n : Uip) {r : Option ClientError × Clients}
      → to_uip ix ip ≡ ok n
      → Injected now
          (record { ip = n; duid = duid; leased_until = 0; permanent = true })
          ix.clients
          r
      → (from_clients ix r).0 ≡ none
      → HasHolder ip duid (from_clients ix r).1
  from_clients-added n h (refused e l _) done = cc
  from_clients-added n h (added {r} l ha hb) done = record {
    number = n;
    pointer = r.2.next;
    in_range = unfold to_uip in h;
    reserved = add_client-IsReserved_new n duid r.2 (LookedBoth-IsConsistent l w);
  }

  pub added-HasHolder :
      (add_permanent_client now ip duid ix).0 ≡ none
      → HasHolder ip duid (add_permanent_client now ip duid ix).1
  unfolding add_permanent_client inject_permanent
  added-HasHolder done = elim (Result-cases (to_uip ix ip)) [
    | inr (e, h) ↦ cc (rw (h, add_permanent_client) at done)
    | inl (n, h) ↦
        let c : Client = record { ip = n; duid = duid; leased_until = 0; permanent = true } in
        rw (h, add_permanent_client, inject_permanent)
          (from_clients-added n h (inject_internal-Injected now c ix.clients)
            (rw (h, add_permanent_client, inject_permanent) at done))
  ]

module _ {ip : Ip} {d : Duid} {ix : Ipdb} (w : HasHolder ip d ix) (now : ℕ) where
  pub lookup_client_by_duid-holder : (lookup_client_by_duid now d ix).0 ≡ ok (to_v4 w.number)
  unfolding lookup_client_by_duid
  lookup_client_by_duid-holder =
      let l = lookup-LookedBoth now 0 d ix.clients in
      let kept = LookedBoth-IsReserved w.reserved l in
      let e = LookedBoth-found_duid l w.reserved.by_duid (IsReserved-live w.reserved now) in
      rw (e, lookup_client_by_duid) (ap (λ n. ok (to_v4 n)) kept.address)

  -- No other client gets the address, in whatever form it is written.
  pub update_client-holder :
      (other : Ip) (duid : Duid) (ttl : ℕ)
      → to4 other ≡ to4 ip
      → duid_string duid ≢ duid_string d
      → (update_client now other duid ttl ix).0 ≢ none
  unfolding update_client
  update_client-holder other duid ttl same apart done =
      Updated-taken (update_lease-Updated now w.number duid (now + ttl) ix.clients) w.reserved.by_ip
        (IsReserved-live w.reserved now) other_client
        (from_clients-none ix _
          (rw (to_uip-same ix other ip same ∙ w.in_range, update_client) at done))
    where
      from_clients-none :
          (ix : Ipdb) (r : Option ClientError × Clients) → (from_clients ix r).0 ≡ none → r.0 ≡ none
      from_clients-none ix (none, cx) h = refl
      from_clients-none ix (some e, cx) h = cc

      other_client : ix.clients.m (duid_string duid) ≢ some w.pointer
      other_client h = elim (w.reserved.keyed (duid_string duid) h) [
        | inl e ↦ uip_string-ne-duid_string w.number duid (sym e)
        | inr e ↦ apart e
      ]

-- A permanent client that was added to a consistent database keeps its address: after any sequence
-- of calls, at any time, it is found with the address, and an update that would give the address,
-- in whatever form, to a client whose identifier prints differently fails.
pub add_permanent_client-keeps :
    (now : ℕ) (ip : Ip) (duid : Duid) (ix : Ipdb) {ix' : Ipdb} (later : ℕ) (other : Ip)
    (duid' : Duid) (ttl : ℕ)
    → IsConsistent now ix.clients
    → (add_permanent_client now ip duid ix).0 ≡ none
    → Calls (add_permanent_client now ip duid ix).1 ix'
    → to4 other ≡ to4 ip
    → duid_string duid' ≢ duid_string duid
    → ((n : Uip) × (to_uip ix' ip ≡ ok n)
        × ((lookup_client_by_duid later duid ix').0 ≡ ok (to_v4 n)))
      × ((update_client later other duid' ttl ix').0 ≢ none)
add_permanent_client-keeps now ip duid ix later other duid' ttl w done calls same apart =
    let held = Calls-HasHolder (added-HasHolder now ip duid ix w done) calls in
    (
      (held.number, held.in_range, lookup_client_by_duid-holder held later),
      update_client-holder held later other duid' ttl same apart,
    )
