-- ===== src/Ipdb/Clients/Reserved.antt =====
-- A permanent client keeps its address, whatever the methods are called with and when.
use psa_dhcp.Base.{
  ℕ, ◌<◌, ◌≡◌, refl, sym, ap, ◌∙◌, arith, true, false, ◌==◌, ==_iff, Option, none, some, List, ◌⊎◌,
  inl, inr, Bool-cases,
}
use psa_dhcp.Ipdb.Uip.{Uip, uip_string}
use psa_dhcp.Ipdb.Duid.{Duid, duid_string}
use psa_dhcp.Ipdb.Clients.{Client, Clients, ClientError, expired, write, add_client, write_lease}
use psa_dhcp.Ipdb.Clients.Store.{insert-some, insert_ne, write_ne}
use psa_dhcp.Ipdb.Clients.Invariant.{IsConsistent}
use psa_dhcp.Ipdb.Clients.Kept.{new_cell, new_ip, new_duid}
use psa_dhcp.Ipdb.Clients.Outcomes.{
  LookedBoth, LookedBoth-cell, LookedBoth-keeps_live, LookedBoth-mono, LookedBoth-free, Injected,
  refused, added, LeaseSet, unset, renewed,
}

-- `p` is a permanent client that holds the address `n`, and is found by both of its keys.
pub record IsReserved (n : Uip) (duid : Duid) (p : ℕ) (cx : Clients) : Type 0 where
  pub made : p < cx.next
  pub permanent : (cx.cell p).permanent ≡ true
  pub address : (cx.cell p).ip ≡ n
  pub by_ip : cx.m (uip_string n) ≡ some p
  pub by_duid : cx.m (duid_string duid) ≡ some p
  pub keyed : (k : List ℕ) → cx.m k ≡ some p → (k ≡ uip_string n) ⊎ (k ≡ duid_string duid)

pub permanent-unexpired : (now : ℕ) (c : Client) → c.permanent ≡ true → expired now c ≡ false
unfolding expired
permanent-unexpired now c h = rw h refl

-- An entry after an addition is the new one or an old one.
add_client-some :
    (c : Client) (cx : Clients) (k : List ℕ) {p : ℕ}
    → (add_client c cx).m k ≡ some p
    → (cx.next ≡ p) ⊎ (cx.m k ≡ some p)
unfolding add_client
add_client-some c cx k h = elim (insert-some (duid_string c.duid) _ cx.next k h) [
  | inl (_, e) ↦ inl e
  | inr (_, h') ↦ elim (insert-some (uip_string c.ip) cx.m cx.next k h') [
    | inl (_, e) ↦ inl e
    | inr (_, h'') ↦ inr h''
  ]
]

-- A permanent client that was added to a consistent map.
pub add_client-IsReserved_new :
    {now : ℕ} (n : Uip) (duid : Duid) (cx : Clients)
    → IsConsistent now cx
    → IsReserved n duid cx.next
        (add_client (record { ip = n; duid = duid; leased_until = 0; permanent = true }) cx)
unfolding add_client
add_client-IsReserved_new {now} n duid cx w =
    let c : Client = record { ip = n; duid = duid; leased_until = 0; permanent = true } in
    record {
      made = omega arith;
      permanent = ap (λ (x : Client). x.permanent) (new_cell c cx w);
      address = ap (λ (x : Client). x.ip) (new_cell c cx w);
      by_ip = new_ip c cx w;
      by_duid = new_duid c cx w;
      keyed = λ k h. elim (insert-some (duid_string duid) _ cx.next k h) [
        | inl (e, _) ↦ inr (sym e)
        | inr (_, h') ↦ elim (insert-some (uip_string n) cx.m cx.next k h') [
          | inl (e, _) ↦ inl (sym e)
          | inr (_, h'') ↦ absurd (let lt = w.made k cx.next h'' in omega (arith, lt))
        ]
      ];
    }

module _ {n : Uip} {d : Duid} {p : ℕ} {cx : Clients} (w : IsReserved n d p cx) where
  pub IsReserved-live : (now : ℕ) → expired now (cx.cell p) ≡ false
  IsReserved-live now = permanent-unexpired now (cx.cell p) w.permanent

  pub LookedBoth-IsReserved :
      {now : ℕ} {ip : Uip} {duid : Duid} {r : Option ℕ × Option ℕ × Clients}
      → LookedBoth now ip duid cx r
      → IsReserved n d p r.2
  LookedBoth-IsReserved {now} l =
      let (cells, next) = LookedBoth-cell l in
      record {
        made = omega (arith, next, w.made);
        permanent = ap (λ (f : ℕ → Client). (f p).permanent) cells ∙ w.permanent;
        address = ap (λ (f : ℕ → Client). (f p).ip) cells ∙ w.address;
        by_ip = LookedBoth-keeps_live (uip_string n) l w.by_ip (IsReserved-live now);
        by_duid = LookedBoth-keeps_live (duid_string d) l w.by_duid (IsReserved-live now);
        keyed = λ k h. w.keyed k (LookedBoth-mono k l h);
      }

  add_client-IsReserved :
      (c : Client)
      → cx.m (uip_string c.ip) ≡ none
      → cx.m (duid_string c.duid) ≡ none
      → IsReserved n d p (add_client c cx)
  unfolding add_client
  add_client-IsReserved c hi hd = record {
    made = omega (arith, w.made);
    permanent = ap (λ (x : Client). x.permanent) same ∙ w.permanent;
    address = ap (λ (x : Client). x.ip) same ∙ w.address;
    by_ip = kept (uip_string n) w.by_ip;
    by_duid = kept (duid_string d) w.by_duid;
    keyed = λ k h. elim (add_client-some c cx k h) [
      | inl next ↦ absurd (omega (arith, next, w.made))
      | inr old ↦ w.keyed k old
    ];
  }
    where
      same : write cx.next c cx.cell p ≡ cx.cell p
      same = write_ne cx.next c cx.cell p (λ e. omega (arith, e, w.made))

      kept : (k : List ℕ) → cx.m k ≡ some p → (add_client c cx).m k ≡ some p
      kept k h =
          insert_ne (duid_string c.duid) _ cx.next k (λ e. cc (ap cx.m e, hd, h))
          ∙ insert_ne (uip_string c.ip) cx.m cx.next k (λ e. cc (ap cx.m e, hi, h))
          ∙ h

  write_lease-IsReserved : (q until : ℕ) → IsReserved n d p (write_lease q until cx)
  unfolding write_lease write
  write_lease-IsReserved q until = elim (Bool-cases (q == p)) [
    | inl e ↦
        let same : q ≡ p = (==_iff q p).0 e in
        record {
          made = w.made;
          permanent = rw e (ap (λ x. (cx.cell x).permanent) same ∙ w.permanent);
          address = rw e (ap (λ x. (cx.cell x).ip) same ∙ w.address);
          by_ip = w.by_ip;
          by_duid = w.by_duid;
          keyed = w.keyed;
        }
    | inr e ↦ record {
      made = w.made;
      permanent = rw e w.permanent;
      address = rw e w.address;
      by_ip = w.by_ip;
      by_duid = w.by_duid;
      keyed = w.keyed;
    }
  ]

module _ {n : Uip} {d : Duid} {p : ℕ} {cx : Clients} (w : IsReserved n d p cx) where
  pub Injected-IsReserved :
      {now : ℕ} {c : Client} {r : Option ClientError × Clients}
      → Injected now c cx r
      → IsReserved n d p r.1
  Injected-IsReserved (refused e l _) = LookedBoth-IsReserved w l
  Injected-IsReserved {c} (added l ha hb) =
      let (hi, hd) = LookedBoth-free l ha hb in
      add_client-IsReserved (LookedBoth-IsReserved w l) c hi hd

  pub LeaseSet-IsReserved :
      {now : ℕ} {ip : Uip} {duid : Duid} {until : ℕ} {r : Option ClientError × Clients}
      → LeaseSet now ip duid until cx r
      → IsReserved n d p r.1
  LeaseSet-IsReserved (unset e l _) = LookedBoth-IsReserved w l
  LeaseSet-IsReserved {until} (renewed q l ha hb) =
      write_lease-IsReserved (LookedBoth-IsReserved w l) q until
