-- ===== src/Ipdb/Table/Steps.antt =====
-- What the steps of a method do to the table.
use psa_dhcp.Base.{
  ℕ, ◌≤◌, ◌≡◌, refl, sym, ap, ◌∙◌, arith, true, Option, none, some, List, inl, inr, Bool-cases,
  bytes_eq, bytes_eq→eq, bytes_eq_iff,
}
use psa_dhcp.Ipdb.Uip.{Uip}
use psa_dhcp.Ipdb.Duid.{Duid}
use psa_dhcp.Ipdb.Clients.{Client, Clients, delete, expired}
use psa_dhcp.Ipdb.Clients.Store.{delete_self, delete_ne}
use psa_dhcp.Ipdb.Clients.Invariant.{Looked, absent, outdated, present}
use psa_dhcp.Ipdb.Clients.Outcomes.{LookedBoth, both}
use psa_dhcp.Ipdb.Table.{if_live, live_at}

-- The client under a key, from what the key leads to.
pub live_at-none : (now : ℕ) (cx : Clients) (k : List ℕ) → cx.m k ≡ none → live_at now cx k ≡ none
live_at-none now cx k h = rw (h, live_at) refl

pub live_at-some :
    (now : ℕ) (cx : Clients) (k : List ℕ) (p : ℕ)
    → cx.m k ≡ some p
    → live_at now cx k ≡ if_live now (cx.cell p)
live_at-some now cx k p h = rw (h, live_at) refl

pub live_at-same :
    (now : ℕ) (cx cx' : Clients) (k : List ℕ)
    → cx.m k ≡ cx'.m k
    → cx.cell ≡ cx'.cell
    → live_at now cx k ≡ live_at now cx' k
live_at-same now cx cx' k e e' =
    λ i. elim (e i) as (λ o. Option Client) [ none ↦ none | some p ↦ if_live now (e' i p) ]

expired-stays :
    (now later : ℕ) (c : Client) → now ≤ later → expired now c ≡ true → expired later c ≡ true
unfolding expired
expired-stays now later c h gone = ground arith

module _ {now later : ℕ} (elapsed : now ≤ later) (j : List ℕ) where
  pub Looked-live_at :
      {k : List ℕ} {cx : Clients} {r : Option ℕ × Clients}
      → Looked now k cx r
      → live_at later r.1 j ≡ live_at later cx j
  Looked-live_at (absent e) = refl
  Looked-live_at {k} {cx} (outdated p e old) = elim (Bool-cases (bytes_eq k j)) [
    | inl same ↦
        live_at-none later (record cx { m = delete k cx.m }) j
          (ap (delete k cx.m) (sym (bytes_eq→eq k j same)) ∙ delete_self k cx.m)
        ∙ sym (
            live_at-some later cx j p (ap cx.m (sym (bytes_eq→eq k j same)) ∙ e)
            ∙ rw (expired-stays now later (cx.cell p) elapsed old, if_live) refl)
    | inr apart ↦
        live_at-same later (record cx { m = delete k cx.m }) cx j
          (delete_ne k cx.m j (λ e. cc ((bytes_eq_iff k j).1 e))) refl
  ]
  Looked-live_at (present p e live) = refl

  pub LookedBoth-live_at :
      {ip : Uip} {duid : Duid} {cx : Clients} {r : Option ℕ × Option ℕ × Clients}
      → LookedBoth now ip duid cx r
      → live_at later r.2 j ≡ live_at later cx j
  LookedBoth-live_at (both l l') = Looked-live_at l' ∙ Looked-live_at l
