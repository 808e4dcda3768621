-- ===== src/Ipdb/Db/Offers/Recorded.antt =====
-- What is offered is free, and can be recorded at once.
use psa_dhcp.Base.{
  ℕ, ◌+◌, ◌^◌, ◌<◌, ◌≤◌, ◌≡◌, refl, sym, ap, ◌∙◌, arith, true, false, Option, none, some, List, [],
  ◌∷◌, Result, ok, ◌⊎◌, inl, inr, Option-cases, All,
}
use psa_dhcp.Net.{Ip}
use psa_dhcp.Ipdb.Uip.{Uip, to_v4, is_valid, uip_string}
use psa_dhcp.Ipdb.Duid.{Duid, duid_string}
use psa_dhcp.Ipdb.Clients.{Client, Clients, ClientError, expired, lookup}
use psa_dhcp.Ipdb.Clients.Invariant.{IsConsistent, IsConsistent-later, some_eq}
use psa_dhcp.Ipdb.Clients.Outcomes.{
  LookedBoth, lookup-LookedBoth, LookedBoth-cell, LookedBoth-IsConsistent,
  LookedBoth-IsConsistent-later, LookedBoth-no_duid, LookedBoth-keeps_live,
}
use psa_dhcp.Ipdb.Clients.Found.{LookedBoth-by_duid}
use psa_dhcp.Ipdb.Clients.Bounded.{LookedBoth-IsBounded}
use psa_dhcp.Ipdb.Db.{
  Ipdb, IpdbError, Round, to_uip, with_clients, from_clients, suggestion, find_ip, update_client,
  lookup_client_by_duid,
}
use psa_dhcp.Ipdb.Db.Range.{to_uip-to_v4}
use psa_dhcp.Ipdb.Db.Search.{
  Searched-IsConsistent, Searched-IsBounded, Searched-keeps_none, Searched-some,
}
use psa_dhcp.Ipdb.Db.Updates.{IsAvailable, update_lease-Updated, Updated-available}
use psa_dhcp.Ipdb.Db.WellFormed.{IsWellFormed, with_clients-IsWellFormed}
use psa_dhcp.Ipdb.Db.Offers.{
  Offered, own, disabled, found, exhausted, find_ip-Offered, offsets-InNetwork,
}

ok_address : {a b : Ip} → ◌≡◌ {A = Result IpdbError Ip} (ok a) (ok b) → a ≡ b
ok_address h = cc

anything : (p : List ℕ) → All (λ v. Unit {0}) p
anything [] = tt
anything (v ∷ p) = (tt, anything p)

-- An address of the network that is available for a client, in a database that is well formed.
pub record IsOffer (later : ℕ) (duid : Duid) (ip : Ip) (ix : Ipdb) : Type 0 where
  pub number : Uip
  pub address : to_v4 number ≡ ip
  pub in_range : to_uip ix ip ≡ ok number
  pub consistent : IsConsistent later ix.clients
  pub available : IsAvailable later number duid ix.clients

update_client-IsOffer :
    (later : ℕ) (duid : Duid) (ip : Ip) (ttl : ℕ) (ix : Ipdb)
    → IsOffer later duid ip ix
    → (update_client later ip duid ttl ix).0 ≡ none
unfolding update_client
update_client-IsOffer later duid ip ttl ix o =
    rw (o.in_range, update_client)
      (from_clients-none ix _ (
        Updated-available (update_lease-Updated later o.number duid (later + ttl) ix.clients)
          o.consistent o.available (omega arith)))
  where
    from_clients-none :
        (ix : Ipdb) (r : Option ClientError × Clients) → r.0 ≡ none → (from_clients ix r).0 ≡ none
    from_clients-none ix (none, cx) h = refl
    from_clients-none ix (some e, cx) h = cc

-- Where neither key has an entry.
free-IsAvailable :
    (later : ℕ) (n : Uip) (duid : Duid) (cx : Clients)
    → cx.m (uip_string n) ≡ none
    → cx.m (duid_string duid) ≡ none
    → IsAvailable later n duid cx
free-IsAvailable later n duid cx a b p live = (λ h. absurd (clash a h), λ h. absurd (clash b h))
  where
    clash : {o : Option ℕ} {p : ℕ} → o ≡ none → o ≡ some p → ⊥
    clash a h = cc

-- The address of a client's own lease, which may have expired since.
own-IsAvailable :
    (now later : ℕ) (p : ℕ) (duid : Duid) (cx : Clients)
    → now ≤ later
    → IsConsistent now cx
    → cx.m (duid_string duid) ≡ some p
    → expired now (cx.cell p) ≡ false
    → IsAvailable later (cx.cell p).ip duid cx
own-IsAvailable now later p duid cx h w e live q live_later =
    let (by_ip, _) = w.paired (duid_string duid) p e live in
    (
      λ at_ip. let same : p ≡ q = some_eq (sym by_ip ∙ at_ip) in e ∙ ap some same,
      λ at_duid. let same : p ≡ q = some_eq (sym e ∙ at_duid) in by_ip ∙ ap some same,
    )

module _ (later : ℕ) (duid : Duid) (ix : Ipdb) (small : ix.net_to < 2 ^ 32) where
  offer :
      {a : Ip} (n : Uip) (cx : Clients)
      → ix.net_from ≤ n
      → n ≤ ix.net_to
      → to_v4 n ≡ a
      → IsConsistent later cx
      → IsAvailable later n duid cx
      → IsOffer later duid a (with_clients ix cx)
  offer n cx lo hi e c available = record {
    number = n;
    address = e;
    in_range =
        ap (to_uip (with_clients ix cx)) (sym e)
        ∙ to_uip-to_v4 (with_clients ix cx) n (omega (arith, hi, small)) lo hi;
    consistent = c;
    available = available;
  }

-- The client's own lease.
own-IsOffer :
    (now later : ℕ) (duid : Duid) (ix : Ipdb)
    → IsWellFormed now ix
    → now ≤ later
    → {n : Uip} {s : Option ℕ × Option ℕ × Clients} {a : Ip} (p : ℕ)
    → LookedBoth now n duid ix.clients s
    → s.1 ≡ some p
    → to_v4 (s.2.cell p).ip ≡ a
    → IsOffer later duid a (with_clients ix s.2)
own-IsOffer now later duid ix w elapsed {n} {s} {a} p l e at_a =
    let (ed, live) = LookedBoth-by_duid l e in
    let kept = LookedBoth-keeps_live (duid_string duid) l ed live in
    let live' = ap (λ (f : ℕ → Client). expired now (f p)) (LookedBoth-cell l).0 ∙ live in
    let c = LookedBoth-IsConsistent l w.consistent in
    let b = (LookedBoth-IsBounded w.bounded l).each p (c.made (duid_string duid) p kept) in
    offer later duid ix w.small (s.2.cell p).ip s.2 b.above b.below at_a
      (LookedBoth-IsConsistent-later elapsed l (IsConsistent-later later elapsed w.consistent))
      (own-IsAvailable now later p duid s.2 elapsed c kept live')

module _ (now later : ℕ) (env : ℕ → Round) (perm : ℕ → List ℕ) (ip : Ip) (duid : Duid) (ix : Ipdb)
    (w : IsWellFormed now ix) (perm_lt : (k : ℕ) → All (λ v. v < k) (perm k))
    (elapsed : now ≤ later) (rounds : (j : ℕ) → (env j).now ≤ later) where
  Offered-IsOffer :
      {r : Result IpdbError Ip × Ipdb} {a : Ip}
      → Offered now env perm (suggestion ix ip) duid ix r
      → r.0 ≡ ok a
      → IsOffer later duid a r.1
  Offered-IsOffer (own {s} p l e) h = own-IsOffer now later duid ix w elapsed p l e (ok_address h)
  Offered-IsOffer (disabled l) h = cc
  Offered-IsOffer (found {s} {t} {picked} l e on search chosen) h =
      let (valid, _, no_entry, good) =
        Searched-some (λ u. is_valid u ≡ true → (ix.net_from ≤ u) × (u ≤ ix.net_to)) search chosen
          (offsets-InNetwork perm perm_lt ix ip s.0 w on) in
      let (lo, hi) = good valid in
      offer later duid ix w.small picked t.1 lo hi (ok_address h)
        (Searched-IsConsistent rounds search
          (LookedBoth-IsConsistent-later elapsed l (IsConsistent-later later elapsed w.consistent)))
        (free-IsAvailable later picked duid t.1 no_entry
          (Searched-keeps_none (duid_string duid) search (LookedBoth-no_duid l e)))
  Offered-IsOffer (exhausted l s) h = cc

  -- In a well-formed database, if `FindIP` gives an address, then an `UpdateClient` for the same
  -- client with it succeeds, provided that `rand.Perm(k)` gives numbers below k, that the update
  -- is not earlier than the search and its rounds, and that nothing comes between.
  pub update_client-find_ip :
      {a : Ip} (ttl : ℕ)
      → (find_ip now env perm ip duid ix).0 ≡ ok a
      → (update_client later a duid ttl (find_ip now env perm ip duid ix).1).0 ≡ none
  update_client-find_ip {a} ttl h =
      update_client-IsOffer later duid a ttl _
        (Offered-IsOffer (find_ip-Offered now env perm ip duid ix) h)

-- The address `a` is that of the client's own lease in `ix`, or no client of `cx` has it.
abbrev pub IsOwnOrFree : ℕ → (ℕ → Round) → Duid → Ipdb → Ip → Clients → Type 0
IsOwnOrFree now env duid ix a cx =
    ((p : ℕ) × (ix.clients.m (duid_string duid) ≡ some p)
      × (expired now (ix.clients.cell p) ≡ false)
      × (to_v4 (ix.clients.cell p).ip ≡ a))
    ⊎ ((n : Uip) × (to_v4 n ≡ a)
        × (is_valid n ≡ true)
        × ((j : ℕ) × ((env j).is_free a ≡ true))
        × (cx.m (uip_string n) ≡ none))

module _ {now : ℕ} {env : ℕ → Round} {perm : ℕ → List ℕ} {n : Uip} {duid : Duid} {ix : Ipdb} where
  Offered-IsOwnOrFree :
      {r : Result IpdbError Ip × Ipdb} {a : Ip}
      → Offered now env perm n duid ix r
      → r.0 ≡ ok a
      → IsOwnOrFree now env duid ix a r.1.clients
  Offered-IsOwnOrFree (own {s} p l e) h =
      let (ed, live) = LookedBoth-by_duid l e in
      inl (
        p,
        ed,
        live,
        ap (λ (f : ℕ → Client). to_v4 (f p).ip) (sym (LookedBoth-cell l).0) ∙ ok_address h,
      )
  Offered-IsOwnOrFree (disabled l) h = cc
  Offered-IsOwnOrFree (found {s} {t} {picked} l e on search chosen) h =
      let (valid, (j, free), no_entry, _) =
        Searched-some (λ u. Unit {0}) search chosen (anything _) in
      inr
        (picked, ok_address h, valid, (j, ap (env j).is_free (sym (ok_address h)) ∙ free), no_entry)
  Offered-IsOwnOrFree (exhausted l s) h = cc

-- If `FindIP` gives an address, then either it is that of the client's own lease, which has not
-- expired, or it is an address that some round of the search found free, that does not end in .0 or
-- .255, and that has no entry left in the database.
pub find_ip-IsOwnOrFree :
    (now : ℕ) (env : ℕ → Round) (perm : ℕ → List ℕ) (ip : Ip) (duid : Duid) (ix : Ipdb) {a : Ip}
    → (find_ip now env perm ip duid ix).0 ≡ ok a
    → IsOwnOrFree now env duid ix a (find_ip now env perm ip duid ix).1.clients
find_ip-IsOwnOrFree now env perm ip duid ix h =
    Offered-IsOwnOrFree (find_ip-Offered now env perm ip duid ix) h

Offered-IsWellFormed :
    {now later : ℕ} {env : ℕ → Round} {perm : ℕ → List ℕ} {n : Uip} {duid : Duid} {ix : Ipdb}
    {r : Result IpdbError Ip × Ipdb}
    → Offered now env perm n duid ix r
    → IsWellFormed now ix
    → now ≤ later
    → ((j : ℕ) → (env j).now ≤ later)
    → IsWellFormed later r.1
Offered-IsWellFormed {later} (own p l e) w h t =
    with_clients-IsWellFormed w
      (IsConsistent-later later h (LookedBoth-IsConsistent l w.consistent))
      (LookedBoth-IsBounded w.bounded l)
Offered-IsWellFormed {later} (disabled l) w h t =
    with_clients-IsWellFormed w
      (IsConsistent-later later h (LookedBoth-IsConsistent l w.consistent))
      (LookedBoth-IsBounded w.bounded l)
Offered-IsWellFormed {later} (found l e on s c) w h t =
    with_clients-IsWellFormed w
      (Searched-IsConsistent t s
        (IsConsistent-later later h (LookedBoth-IsConsistent l w.consistent)))
      (Searched-IsBounded s (LookedBoth-IsBounded w.bounded l))
Offered-IsWellFormed {later} (exhausted l s) w h t =
    with_clients-IsWellFormed w
      (Searched-IsConsistent t s
        (IsConsistent-later later h (LookedBoth-IsConsistent l w.consistent)))
      (Searched-IsBounded s (LookedBoth-IsBounded w.bounded l))

-- A search in a well-formed database leaves it well formed, at any time that is not earlier than
-- the search and its rounds.
pub find_ip-IsWellFormed :
    (now later : ℕ) (env : ℕ → Round) (perm : ℕ → List ℕ) (ip : Ip) (duid : Duid) (ix : Ipdb)
    → IsWellFormed now ix
    → now ≤ later
    → ((j : ℕ) → (env j).now ≤ later)
    → IsWellFormed later (find_ip now env perm ip duid ix).1
find_ip-IsWellFormed now later env perm ip duid ix w h t =
    Offered-IsWellFormed (find_ip-Offered now env perm ip duid ix) w h t

-- In a well-formed database, if a client's lease is looked up, then an `UpdateClient` for the same
-- client with its address succeeds, at that time or any later one, if nothing comes between.
pub update_client-lookup_client_by_duid :
    (now later : ℕ) (duid : Duid) (ttl : ℕ) (ix : Ipdb) {a : Ip}
    → IsWellFormed now ix
    → now ≤ later
    → (lookup_client_by_duid now duid ix).0 ≡ ok a
    → (update_client later a duid ttl (lookup_client_by_duid now duid ix).1).0 ≡ none
unfolding lookup_client_by_duid
update_client-lookup_client_by_duid now later duid ttl ix {a} w elapsed h =
    let l = lookup-LookedBoth now 0 duid ix.clients in
    elim (Option-cases (lookup now 0 duid ix.clients).1) [
      | inl e ↦ cc (rw (e, lookup_client_by_duid) at h)
      | inr (p, e) ↦
          rw (e, lookup_client_by_duid)
            (update_client-IsOffer later duid a ttl _ (
              own-IsOffer now later duid ix w elapsed p l e
                (ok_address (rw (e, lookup_client_by_duid) at h))))
    ]
