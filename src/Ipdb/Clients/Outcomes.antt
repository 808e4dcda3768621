-- ===== src/Ipdb/Clients/Outcomes.antt =====
-- The outcomes of the methods, and that each keeps the map consistent.
use psa_dhcp.Base.{
  ◌≤◌, ℕ, ◌≡◌, ◌≢◌, sym, ap, ◌∙◌, arith, false, Option, none, some, List, ◌==◌, ==_iff, ◌⊎◌, inl,
  inr, Bool-cases, Option-cases,
}
use psa_dhcp.Ipdb.Uip.{Uip, uip_string}
use psa_dhcp.Ipdb.Duid.{Duid, duid_string}
use psa_dhcp.Ipdb.Clients.{
  Client, Clients, ClientError, ip_exists, hardware_addr_exists, ip_missing, duid_missing,
  ip_ne_duid, expired, lookup, add_client, inject_internal, write_lease, set_lease,
}
use psa_dhcp.Ipdb.Clients.Invariant.{
  IsConsistent, Looked, lookup_key-Looked, Looked-IsConsistent, Looked-IsConsistent-later,
  Looked-cell, Looked-none, Looked-some, Looked-keeps_none, Looked-keeps_live, Looked-mono,
}

-- The two look-ups, one after the other.
pub data LookedBoth (now : ℕ) (ip : Uip) (duid : Duid) (cx : Clients)
    : Option ℕ × Option ℕ × Clients → Type 0 where
  both :
      {a b : Option ℕ} {cx1 cx2 : Clients}
      → Looked now (uip_string ip) cx (a, cx1)
      → Looked now (duid_string duid) cx1 (b, cx2)
      → LookedBoth now ip duid cx (a, b, cx2)

pub lookup-LookedBoth :
    (now : ℕ) (ip : Uip) (duid : Duid) (cx : Clients)
    → LookedBoth now ip duid cx (lookup now ip duid cx)
unfolding lookup
lookup-LookedBoth now ip duid cx =
    both (lookup_key-Looked now (uip_string ip) cx) (lookup_key-Looked now (duid_string duid) _)

module _ {now : ℕ} {ip : Uip} {duid : Duid} {cx : Clients} where
  pub LookedBoth-IsConsistent :
      {r : Option ℕ × Option ℕ × Clients}
      → LookedBoth now ip duid cx r
      → IsConsistent now cx
      → IsConsistent now r.2
  LookedBoth-IsConsistent (both l l') w = Looked-IsConsistent l' (Looked-IsConsistent l w)

  pub LookedBoth-IsConsistent-later :
      {later : ℕ} {r : Option ℕ × Option ℕ × Clients}
      → now ≤ later
      → LookedBoth now ip duid cx r
      → IsConsistent later cx
      → IsConsistent later r.2
  LookedBoth-IsConsistent-later h (both l l') w =
      Looked-IsConsistent-later h l' (Looked-IsConsistent-later h l w)

  -- A free key stays free.
  pub LookedBoth-keeps_none :
      {r : Option ℕ × Option ℕ × Clients} (j : List ℕ)
      → LookedBoth now ip duid cx r
      → cx.m j ≡ none
      → r.2.m j ≡ none
  LookedBoth-keeps_none j (both l l') h = Looked-keeps_none j l' (Looked-keeps_none j l h)

  pub LookedBoth-no_ip :
      {r : Option ℕ × Option ℕ × Clients}
      → LookedBoth now ip duid cx r
      → r.0 ≡ none
      → r.2.m (uip_string ip) ≡ none
  LookedBoth-no_ip (both l l') h = Looked-keeps_none (uip_string ip) l' (Looked-none l h)

  pub LookedBoth-no_duid :
      {r : Option ℕ × Option ℕ × Clients}
      → LookedBoth now ip duid cx r
      → r.1 ≡ none
      → r.2.m (duid_string duid) ≡ none
  LookedBoth-no_duid (both l l') h = Looked-none l' h

  -- If nothing was found, both keys are free.
  pub LookedBoth-free :
      {r : Option ℕ × Option ℕ × Clients}
      → LookedBoth now ip duid cx r
      → r.0 ≡ none
      → r.1 ≡ none
      → (r.2.m (uip_string ip) ≡ none) × (r.2.m (duid_string duid) ≡ none)
  LookedBoth-free (both l l') ha hb =
      (Looked-keeps_none (uip_string ip) l' (Looked-none l ha), Looked-none l' hb)

  -- If one client was found twice, it is live, and nothing changed.
  pub LookedBoth-same :
      {r : Option ℕ × Option ℕ × Clients} {p : ℕ}
      → LookedBoth now ip duid cx r
      → r.0 ≡ some p
      → r.1 ≡ some p
      → (cx.m (uip_string ip) ≡ some p)
        × (cx.m (duid_string duid) ≡ some p)
        × (expired now (cx.cell p) ≡ false)
        × (r.2 ≡ cx)
  LookedBoth-same (both l l') ha hb =
      let (e, live, same) = Looked-some l ha in
      let (e', live', same') = Looked-some l' hb in
      (e, ap (λ (c : Clients). c.m (duid_string duid)) (sym same) ∙ e', live, same' ∙ same)

  pub LookedBoth-cell :
      {r : Option ℕ × Option ℕ × Clients}
      → LookedBoth now ip duid cx r
      → (r.2.cell ≡ cx.cell) × (r.2.next ≡ cx.next)
  LookedBoth-cell (both l l') =
      let (c, n) = Looked-cell l in let (c', n') = Looked-cell l' in (c' ∙ c, n' ∙ n)

  -- No entry is made.
  pub LookedBoth-mono :
      {r : Option ℕ × Option ℕ × Clients} (j : List ℕ) {p : ℕ}
      → LookedBoth now ip duid cx r
      → r.2.m j ≡ some p
      → cx.m j ≡ some p
  LookedBoth-mono j (both l l') h = Looked-mono j l (Looked-mono j l' h)

  pub LookedBoth-keeps_live :
      {r : Option ℕ × Option ℕ × Clients} (j : List ℕ) {p : ℕ}
      → LookedBoth now ip duid cx r
      → cx.m j ≡ some p
      → expired now (cx.cell p) ≡ false
      → r.2.m j ≡ some p
  LookedBoth-keeps_live j {p} (both l l') h live =
      Looked-keeps_live j l' (Looked-keeps_live j l h live)
        (ap (λ (f : ℕ → Client). expired now (f p)) (Looked-cell l).0 ∙ live)

-- How `injectInternal` ends.
pub data Injected (now : ℕ) (c : Client) (cx : Clients)
    : Option ClientError × Clients → Type 0 where
  refused :
      {r : Option ℕ × Option ℕ × Clients} (e : ClientError)
      → LookedBoth now c.ip c.duid cx r
      → (r.0 ≢ none) ⊎ (r.1 ≢ none)
      → Injected now c cx (some e, r.2)
  added :
      {r : Option ℕ × Option ℕ × Clients}
      → LookedBoth now c.ip c.duid cx r
      → r.0 ≡ none
      → r.1 ≡ none
      → Injected now c cx (none, add_client c r.2)

some-ne-none : {o : Option ℕ} {p : ℕ} → o ≡ some p → o ≢ none
some-ne-none h e = cc

pub inject_internal-Injected :
    (now : ℕ) (c : Client) (cx : Clients)
    → Injected now c cx (inject_internal now c.ip c.duid c.leased_until c.permanent cx)
unfolding inject_internal
inject_internal-Injected now c cx =
    let l = lookup-LookedBoth now c.ip c.duid cx in
    elim (Option-cases (lookup now c.ip c.duid cx).0) [
      | inr (p, e) ↦ rw (e, inject_internal) (refused ip_exists l (inl (some-ne-none e)))
      | inl e ↦ elim (Option-cases (lookup now c.ip c.duid cx).1) [
        | inr (q, e') ↦
            rw (e, inject_internal, e') (refused hardware_addr_exists l (inr (some-ne-none e')))
        | inl e' ↦ rw (e, inject_internal, e') (added l e e')
      ]
    ]

-- How `SetLease` ends.
pub data LeaseSet (now : ℕ) (ip : Uip) (duid : Duid) (leased_until : ℕ) (cx : Clients)
    : Option ClientError × Clients → Type 0 where
  unset :
      {r : Option ℕ × Option ℕ × Clients} (e : ClientError)
      → LookedBoth now ip duid cx r
      → ((p : ℕ) → r.0 ≡ some p → r.1 ≡ some p → ⊥)
      → LeaseSet now ip duid leased_until cx (some e, r.2)
  renewed :
      {r : Option ℕ × Option ℕ × Clients} (p : ℕ)
      → LookedBoth now ip duid cx r
      → r.0 ≡ some p
      → r.1 ≡ some p
      → LeaseSet now ip duid leased_until cx (none, write_lease p leased_until r.2)

pub set_lease-LeaseSet :
    (now : ℕ) (ip : Uip) (duid : Duid) (leased_until : ℕ) (cx : Clients)
    → LeaseSet now ip duid leased_until cx (set_lease now ip duid leased_until cx)
unfolding set_lease
set_lease-LeaseSet now ip duid leased_until cx =
    let l = lookup-LookedBoth now ip duid cx in
    elim (Option-cases (lookup now ip duid cx).0) [
      | inl e ↦ rw (e, set_lease) (unset ip_missing l (λ p h h'. some-ne-none h e))
      | inr (p, e) ↦ elim (Option-cases (lookup now ip duid cx).1) [
        | inl e' ↦ rw (e, set_lease, e') (unset duid_missing l (λ p h h'. some-ne-none h' e'))
        | inr (q, e') ↦ elim (Bool-cases (p == q)) [
          | inl same ↦
              rw (e, set_lease, e', same) (renewed p l e (e' ∙ ap some (sym ((==_iff p q).0 same))))
          | inr differ ↦
              rw (e, set_lease, e', differ)
                (unset ip_ne_duid l (λ r h h'. apart p q differ (cc (sym e ∙ h, sym e' ∙ h'))))
        ]
      ]
    ]
  where
    apart : (p q : ℕ) → (p == q) ≡ false → p ≡ q → ⊥
    apart p q h e = ground arith
