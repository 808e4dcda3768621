-- ===== src/Ipdb/Db/Updates.antt =====
-- How `UpdateClient` changes the map of clients: a lease is set at once, or after an insertion.
use psa_dhcp.Base.{
  ℕ, ◌≤◌, ◌≡◌, ◌≢◌, ◌↔◌, refl, sym, ap, ◌∙◌, false, Option, none, some, List, inl, inr,
  Option-cases, le→not-ltb,
}
use psa_dhcp.Ipdb.Uip.{Uip, uip_string}
use psa_dhcp.Ipdb.Duid.{Duid, duid_string}
use psa_dhcp.Ipdb.Clients.{
  Client, Clients, ClientError, expired, inject, inject_internal, write_lease, set_lease,
}
use psa_dhcp.Ipdb.Clients.Kept.{new_cell, new_ip, new_duid, LeaseSet-IsConsistent}
use psa_dhcp.Ipdb.Clients.Found.{
  LookedBoth-found_ip, LookedBoth-found_duid, LookedBoth-absent, LookedBoth-by_ip,
  LookedBoth-by_duid,
}
use psa_dhcp.Ipdb.Db.{update_lease}
use psa_dhcp.Ipdb.Clients.Store.{write_lease_self}
use psa_dhcp.Ipdb.Clients.Invariant.{IsConsistent}
use psa_dhcp.Ipdb.Clients.Outcomes.{
  LookedBoth-IsConsistent, LookedBoth-free, LookedBoth-same, LookedBoth-keeps_live, LookedBoth-cell,
  Injected, refused, added, inject_internal-Injected, LeaseSet, unset, renewed, set_lease-LeaseSet,
}

-- The client `p` holds `ip` under the identifier `duid`, by both keys, until `until`.
pub record Holds (ip : Uip) (duid : Duid) (until : ℕ) (p : ℕ) (cx : Clients) : Type 0 where
  pub by_ip : cx.m (uip_string ip) ≡ some p
  pub by_duid : cx.m (duid_string duid) ≡ some p
  pub leased : (cx.cell p).leased_until ≡ until

module _ {now : ℕ} {ip : Uip} {duid : Duid} {until : ℕ} {cx : Clients} where
  -- A lease that was set is there.
  pub LeaseSet-Holds :
      {r : Option ClientError × Clients}
      → LeaseSet now ip duid until cx r
      → r.0 ≡ none
      → (p : ℕ) × Holds ip duid until p r.1
  LeaseSet-Holds (unset e l _) h = cc
  LeaseSet-Holds (renewed {r} p l ha hb) h =
      let (ei, ed, live, same) = LookedBoth-same l ha hb in
      (
        p,
        record {
          by_ip = unfold write_lease in ap (λ (c : Clients). c.m (uip_string ip)) same ∙ ei;
          by_duid = unfold write_lease in ap (λ (c : Clients). c.m (duid_string duid)) same ∙ ed;
          leased = ap (λ (c : Client). c.leased_until) (write_lease_self p until r.2);
        },
      )

-- A live entry under a key survives the methods that change it only if they renew it.
module _ {now : ℕ} {cx : Clients} (j : List ℕ) {p : ℕ} (found : cx.m j ≡ some p)
    (live : expired now (cx.cell p) ≡ false) where
  -- An address that a live client holds can not be taken by another key.
  pub Injected-taken :
      {c : Client} {r : Option ClientError × Clients}
      → Injected now c cx r
      → j ≡ uip_string c.ip
      → r.0 ≢ none
  Injected-taken (refused e l _) k h = cc
  Injected-taken (added l ha hb) k h =
      let (free, _) = LookedBoth-free l ha hb in
      cc (sym (LookedBoth-keeps_live j l found live), ap (λ x. x) free, k)

-- How the update ends.
pub data Updated (now : ℕ) (ip : Uip) (duid : Duid) (until : ℕ) (cx : Clients)
    : Option ClientError × Clients → Type 0 where
  at_once :
      {r : Option ClientError × Clients}
      → LeaseSet now ip duid until cx r
      → r.0 ≡ none
      → Updated now ip duid until cx (none, r.1)
  rejected :
      {r s : Option ClientError × Clients} (d e : ClientError)
      → LeaseSet now ip duid until cx r
      → r.0 ≡ some d
      → Injected now
          (record { ip = ip; duid = duid; leased_until = until; permanent = false })
          r.1
          s
      → s.0 ≡ some e
      → Updated now ip duid until cx (some e, s.1)
  afterwards :
      {r s t : Option ClientError × Clients} (d : ClientError)
      → LeaseSet now ip duid until cx r
      → r.0 ≡ some d
      → Injected now
          (record { ip = ip; duid = duid; leased_until = until; permanent = false })
          r.1
          s
      → s.0 ≡ none
      → LeaseSet now ip duid until s.1 t
      → Updated now ip duid until cx t

pub update_lease-Updated :
    (now : ℕ) (ip : Uip) (duid : Duid) (until : ℕ) (cx : Clients)
    → Updated now ip duid until cx (update_lease now ip duid until cx)
unfolding update_lease inject
update_lease-Updated now ip duid until cx =
    let c : Client = record { ip = ip; duid = duid; leased_until = until; permanent = false } in
    let l = set_lease-LeaseSet now ip duid until cx in
    elim (Option-cases (set_lease now ip duid until cx).0) [
      | inl e ↦ rw (e, update_lease) (at_once l e)
      | inr (d, e) ↦
          let i = inject_internal-Injected now c (set_lease now ip duid until cx).1 in
          elim (Option-cases
            (inject_internal now ip duid until false (set_lease now ip duid until cx).1).0) [
              | inr (d', e') ↦ rw (e, update_lease, e') (rejected d d' l e i e')
              | inl e' ↦
                  rw (e, update_lease, e')
                    (afterwards d l e i e' (set_lease-LeaseSet now ip duid until _))
            ]
    ]

module _ {now : ℕ} {ip : Uip} {duid : Duid} {until : ℕ} {cx : Clients} where
  pub Updated-Holds :
      {r : Option ClientError × Clients}
      → Updated now ip duid until cx r
      → r.0 ≡ none
      → (p : ℕ) × Holds ip duid until p r.1
  Updated-Holds (at_once l e) h = LeaseSet-Holds l e
  Updated-Holds (rejected d e l _ i _) h = cc
  Updated-Holds (afterwards d l _ i _ l') h = LeaseSet-Holds l' h

pub unexpired :
    {now until : ℕ} (ip : Uip) (duid : Duid)
    → now ≤ until
    → expired now (record { ip = ip; duid = duid; leased_until = until; permanent = false }) ≡ false
unexpired {now} {until} ip duid h = unfold expired in le→not-ltb until now h

-- No live client holds one of the two keys without the other.
abbrev pub IsAvailable : ℕ → Uip → Duid → Clients → Type 0
IsAvailable now ip duid cx =
    (p : ℕ)
    → expired now (cx.cell p) ≡ false
    → (cx.m (uip_string ip) ≡ some p) ↔ (cx.m (duid_string duid) ≡ some p)

module _ {now : ℕ} {ip : Uip} {duid : Duid} {until : ℕ} {cx : Clients} where
  pub LeaseSet-found :
      {r : Option ClientError × Clients} {p : ℕ}
      → LeaseSet now ip duid until cx r
      → cx.m (uip_string ip) ≡ some p
      → cx.m (duid_string duid) ≡ some p
      → expired now (cx.cell p) ≡ false
      → r.0 ≡ none
  LeaseSet-found {p} (unset e l ne) hi hd live =
      absurd (ne p (LookedBoth-found_ip l hi live) (LookedBoth-found_duid l hd live))
  LeaseSet-found (renewed q l ha hb) hi hd live = refl

  LeaseSet-taken :
      {r : Option ClientError × Clients} {p : ℕ}
      → LeaseSet now ip duid until cx r
      → cx.m (uip_string ip) ≡ some p
      → expired now (cx.cell p) ≡ false
      → cx.m (duid_string duid) ≢ some p
      → r.0 ≢ none
  LeaseSet-taken (unset e l ne) hi live other h = cc
  LeaseSet-taken (renewed q l ha hb) hi live other h =
      let (ei, ed, _, _) = LookedBoth-same l ha hb in other (ed ∙ sym ei ∙ hi)

  -- Where a lease of an available address can not be set, both keys are free.
  LeaseSet-free :
      {r : Option ClientError × Clients} {d : ClientError}
      → LeaseSet now ip duid until cx r
      → r.0 ≡ some d
      → IsAvailable now ip duid cx
      → (r.1.m (uip_string ip) ≡ none) × (r.1.m (duid_string duid) ≡ none)
  LeaseSet-free (unset {r} e l ne) h a = elim (Option-cases r.0) [
    | inr (p, ha) ↦
        let (ei, live) = LookedBoth-by_ip l ha in
        absurd (ne p ha (LookedBoth-found_duid l ((a p live).0 ei) live))
    | inl ha ↦ elim (Option-cases r.1) [
      | inr (p, hb) ↦
          let (ed, live) = LookedBoth-by_duid l hb in
          absurd (ne p (LookedBoth-found_ip l ((a p live).1 ed) live) hb)
      | inl hb ↦ LookedBoth-free l ha hb
    ]
  ]
  LeaseSet-free (renewed q l ha hb) h a = cc

module _ {now : ℕ} {c : Client} {cx : Clients} (w : IsConsistent now cx)
    (live : expired now c ≡ false) where
  -- An insertion under free keys succeeds, and its client is found by both.
  pub Injected-free :
      {s : Option ClientError × Clients}
      → Injected now c cx s
      → cx.m (uip_string c.ip) ≡ none
      → cx.m (duid_string c.duid) ≡ none
      → (s.0 ≡ none)
        × ((p : ℕ) × (s.1.m (uip_string c.ip) ≡ some p)
            × (s.1.m (duid_string c.duid) ≡ some p)
            × (expired now (s.1.cell p) ≡ false))
  Injected-free (refused e l h) hi hd =
      let (a, b) = LookedBoth-absent l hi hd in absurd (elim h [ inl n ↦ n a | inr n ↦ n b ])
  Injected-free (added {r} l ha hb) hi hd =
      let w' = LookedBoth-IsConsistent l w in
      (
        refl,
        (r.2.next, new_ip c r.2 w', new_duid c r.2 w', ap (expired now) (new_cell c r.2 w') ∙ live),
      )

module _ {now : ℕ} {ip : Uip} {duid : Duid} {until : ℕ} {cx : Clients} where
  -- An update that another client's live lease stands against fails.
  pub Updated-taken :
      {r : Option ClientError × Clients} {p : ℕ}
      → Updated now ip duid until cx r
      → cx.m (uip_string ip) ≡ some p
      → expired now (cx.cell p) ≡ false
      → cx.m (duid_string duid) ≢ some p
      → r.0 ≢ none
  Updated-taken (at_once l e) hi live other h = LeaseSet-taken l hi live other e
  Updated-taken (rejected d e l _ i _) hi live other h = cc
  Updated-taken {p} (afterwards d (unset e l _) _ i ei l') hi live other h =
      Injected-taken (uip_string ip) (LookedBoth-keeps_live (uip_string ip) l hi live)
        (ap (λ (f : ℕ → Client). expired now (f p)) (LookedBoth-cell l).0 ∙ live) i refl ei
  Updated-taken (afterwards d (renewed q l ha hb) ed i ei l') hi live other h = cc

  -- An update for an address that is available succeeds.
  pub Updated-available :
      {r : Option ClientError × Clients}
      → Updated now ip duid until cx r
      → IsConsistent now cx
      → IsAvailable now ip duid cx
      → now ≤ until
      → r.0 ≡ none
  Updated-available (at_once l e) w a h = refl
  Updated-available (rejected d e l ed i ei) w a h =
      let (fi, fd) = LeaseSet-free l ed a in
      let (done, _) = Injected-free (LeaseSet-IsConsistent w l) (unexpired ip duid h) i fi fd in
      clash (sym done ∙ ei)
    where
      clash : none ≡ some e → some e ≡ none
      clash q = sym q
  Updated-available (afterwards d l ed i ei l') w a h =
      let (fi, fd) = LeaseSet-free l ed a in
      let (_, (p, ei', ed', live)) =
        Injected-free (LeaseSet-IsConsistent w l) (unexpired ip duid h) i fi fd in
      LeaseSet-found l' ei' ed' live
