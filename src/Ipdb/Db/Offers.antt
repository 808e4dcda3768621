-- ===== src/Ipdb/Db/Offers.antt =====
-- What `FindIP` offers, and that an offer can be recorded.
pub mod Recorded
use psa_dhcp.Base.{
  ℕ, ◌+◌, ◌-◌, ◌%◌, ◌^◌, ◌<◌, ◌≤◌, ◌≡◌, ◌≢◌, refl, sym, ap, ◌∙◌, arith, true, false, Bool, Option,
  none, some, List, [], ◌∷◌, Result, ok, err, ◌⊎◌, inl, inr, Option-cases, Bool-cases, All,
  Result-cases, ◌==◌, ◌&&◌, if◌then◌else◌,
}
use psa_dhcp.Base.Bytes.{IsByte}
use psa_dhcp.Net.{Ip}
use psa_dhcp.Ipdb.Uip.{Uip, to_v4, is_valid, uip_string}
use psa_dhcp.Ipdb.Duid.{Duid, duid_string}
use psa_dhcp.Ipdb.Clients.{Client, Clients, ClientError, expired, lookup}
use psa_dhcp.Ipdb.Clients.Invariant.{IsConsistent}
use psa_dhcp.Ipdb.Clients.Outcomes.{
  LookedBoth, lookup-LookedBoth, LookedBoth-cell, LookedBoth-IsConsistent,
  LookedBoth-IsConsistent-later, LookedBoth-no_duid, LookedBoth-keeps_live,
}
use psa_dhcp.Ipdb.Clients.Found.{LookedBoth-by_duid}
use psa_dhcp.Ipdb.Clients.Bounded.{IsBounded, LookedBoth-IsBounded, ip_of_key, duid_of_key}
use psa_dhcp.Ipdb.Db.{
  Ipdb, IpdbError, no_free_ip, dynamic_disabled, Round, to_uip, with_clients, suggestion, offsets,
  find_loop, find_ip,
}
use psa_dhcp.Ipdb.Db.Range.{to_uip_range}
use psa_dhcp.Ipdb.Db.Search.{
  pick, Searched, find_loop-Searched, Searched-IsConsistent, Searched-IsBounded,
  Searched-keeps_none, Searched-some,
}
use psa_dhcp.Ipdb.Db.WellFormed.{IsWellFormed, with_clients-IsWellFormed}

-- How the search for an offer ends.
pub data Offered (now : ℕ) (env : ℕ → Round) (perm : ℕ → List ℕ) (n : Uip) (duid : Duid) (ix : Ipdb)
    : Result IpdbError Ip × Ipdb → Type 0 where
  own :
      {s : Option ℕ × Option ℕ × Clients} (p : ℕ)
      → LookedBoth now n duid ix.clients s
      → s.1 ≡ some p
      → Offered now env perm n duid ix (ok (to_v4 (s.2.cell p).ip), with_clients ix s.2)
  disabled :
      {s : Option ℕ × Option ℕ × Clients}
      → LookedBoth now n duid ix.clients s
      → Offered now env perm n duid ix (err dynamic_disabled, with_clients ix s.2)
  found :
      {s : Option ℕ × Option ℕ × Clients} {t : Option Uip × Clients} {picked : Uip}
      → LookedBoth now n duid ix.clients s
      → s.1 ≡ none
      → (ix.dyn_to == 0 && ix.dyn_from == 0) ≡ false
      → Searched env ix.dyn_from 0 (offsets perm ix n s.0) s.2 t
      → t.0 ≡ some picked
      → Offered now env perm n duid ix (ok (to_v4 picked), with_clients ix t.1)
  exhausted :
      {s : Option ℕ × Option ℕ × Clients} {t : Option Uip × Clients}
      → LookedBoth now n duid ix.clients s
      → Searched env ix.dyn_from 0 (offsets perm ix n s.0) s.2 t
      → Offered now env perm n duid ix (err no_free_ip, with_clients ix t.1)

pub find_ip-Offered :
    (now : ℕ) (env : ℕ → Round) (perm : ℕ → List ℕ) (ip : Ip) (duid : Duid) (ix : Ipdb)
    → Offered now env perm (suggestion ix ip) duid ix (find_ip now env perm ip duid ix)
unfolding find_ip
find_ip-Offered now env perm ip duid ix =
    let n = suggestion ix ip in
    let l = lookup-LookedBoth now n duid ix.clients in
    elim (Option-cases (lookup now n duid ix.clients).1) [
      | inr (p, e) ↦ rw (e, find_ip) (own p l e)
      | inl e ↦ elim (Bool-cases (ix.dyn_to == 0 && ix.dyn_from == 0)) [
        | inl off ↦ rw (e, find_ip, off) (disabled l)
        | inr on ↦
            let s =
              find_loop-Searched env 0 ix.dyn_from
                (offsets perm ix n (lookup now n duid ix.clients).0)
                (lookup now n duid ix.clients).2 in
            elim (Option-cases
              (find_loop env 0 ix.dyn_from (offsets perm ix n (lookup now n duid ix.clients).0)
                (lookup now n duid ix.clients).2).0) [
                  | inl h ↦ rw (e, find_ip, on, h) (exhausted l s)
                  | inr (picked, h) ↦ rw (e, find_ip, on, h) (found l e on s h)
                ]
      ]
    ]

-- The suggestion is in the network, or 0.
suggestion-range :
    (ix : Ipdb) (ip : Ip)
    → ((ix.net_from ≤ suggestion ix ip) × (suggestion ix ip ≤ ix.net_to)) ⊎ (suggestion ix ip ≡ 0)
suggestion-range ix ip = elim (Result-cases (to_uip ix ip)) [
  | inl (n, h) ↦ let (lo, hi) = to_uip_range ix ip h in inl (rw (suggestion, h) (lo, hi))
  | inr (e, h) ↦ inr (rw (suggestion, h) refl)
]

zero_is_not_valid : is_valid 0 ≢ true
unfolding is_valid
zero_is_not_valid h = cc

pick_self :
    (dyn_from n : ℕ)
    → n < 2 ^ 32
    → dyn_from < 2 ^ 32
    → pick dyn_from ((n + 2 ^ 32 - dyn_from) % 2 ^ 32) ≡ n
pick_self dyn_from n h small = omega arith

pick_dynamic :
    (net_from dyn_from dyn_to net_to v : ℕ)
    → net_from ≤ dyn_from
    → dyn_from ≤ dyn_to
    → dyn_to ≤ net_to
    → net_to < 2 ^ 32
    → v < 1 + (dyn_to + 2 ^ 32 - dyn_from) % 2 ^ 32
    → (net_from ≤ pick dyn_from v) × (pick dyn_from v ≤ net_to)
pick_dynamic net_from dyn_from dyn_to net_to v a b c small h = (omega arith, omega arith)

dynamic_on :
    {now : ℕ} (ix : Ipdb)
    → IsWellFormed now ix
    → (ix.dyn_to == 0 && ix.dyn_from == 0) ≡ false
    → (ix.net_from ≤ ix.dyn_from) × (ix.dyn_from ≤ ix.dyn_to) × (ix.dyn_to ≤ ix.net_to)
dynamic_on ix w on = elim w.dynamic [
  | inl (f, t) ↦ absurd (off ix.dyn_to ix.dyn_from t f on)
  | inr d ↦ d
]
  where
    off : (a b : ℕ) → a ≡ 0 → b ≡ 0 → (a == 0 && b == 0) ≡ false → ⊥
    off a b e e' h = ground arith

-- The offset stands for an address of the network, if for a valid one.
abbrev pub InNetwork : Ipdb → ℕ → Type 0
InNetwork ix v =
    is_valid (pick ix.dyn_from v) ≡ true
    → (ix.net_from ≤ pick ix.dyn_from v) × (pick ix.dyn_from v ≤ ix.net_to)

-- Every offset stands for an address of the network, or one that is not valid.
module _ (perm : ℕ → List ℕ) (perm_lt : (k : ℕ) → All (λ v. v < k) (perm k)) where
  All-of_lt :
      (Good : ℕ → Type 0) (k : ℕ)
      → ((v : ℕ) → v < k → Good v)
      → (l : List ℕ) → All (λ v. v < k) l
      → All Good l
  All-of_lt Good k h [] a = tt
  All-of_lt Good k h (v ∷ l) (a, b) = (h v a, All-of_lt Good k h l b)

  pub offsets-InNetwork :
      {now : ℕ} (ix : Ipdb) (ip : Ip) (taken : Option ℕ)
      → IsWellFormed now ix
      → (ix.dyn_to == 0 && ix.dyn_from == 0) ≡ false
      → All (InNetwork ix) (offsets perm ix (suggestion ix ip) taken)
  offsets-InNetwork ix ip taken w on =
      let (a, b, c) = dynamic_on ix w on in
      let drawn =
        All-of_lt (InNetwork ix) (1 + (ix.dyn_to + 2 ^ 32 - ix.dyn_from) % 2 ^ 32)
          (λ v h valid. pick_dynamic ix.net_from ix.dyn_from ix.dyn_to ix.net_to v a b c w.small h)
          _ (perm_lt _) in
      elim taken as (λ t. All (InNetwork ix) (offsets perm ix (suggestion ix ip) t)) [
        | some q ↦ drawn
        | none ↦ (
          λ valid. suggested (suggestion-range ix ip) (omega (arith, a, b, c, w.small)) valid,
          drawn,
        )
      ]
    where
      suggested :
          {n : Uip}
          → ((ix.net_from ≤ n) × (n ≤ ix.net_to)) ⊎ (n ≡ 0)
          → ix.dyn_from < 2 ^ 32
          → InNetwork ix ((n + 2 ^ 32 - ix.dyn_from) % 2 ^ 32)
      suggested {n} (inl (lo, hi)) small valid =
          rw (pick_self ix.dyn_from n (omega (arith, hi, w.small)) small) (lo, hi)
      suggested {n} (inr zero) small valid = absurd (
          zero_is_not_valid (
            ap is_valid (sym (pick_self ix.dyn_from n (omega (arith, zero)) small ∙ zero)) ∙ valid))
