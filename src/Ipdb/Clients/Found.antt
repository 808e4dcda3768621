-- ===== src/Ipdb/Clients/Found.antt =====
-- What a look-up finds, from what is in the map.
use psa_dhcp.Base.{ℕ, ◌≡◌, refl, sym, ap, ◌∙◌, false, Option, none, some, List}
use psa_dhcp.Ipdb.Uip.{Uip, uip_string}
use psa_dhcp.Ipdb.Duid.{Duid, duid_string}
use psa_dhcp.Ipdb.Clients.{Client, Clients, expired}
use psa_dhcp.Ipdb.Clients.Invariant.{
  Looked, absent, outdated, present, Looked-some, Looked-cell, Looked-mono, Looked-keeps_none,
  Looked-keeps_live,
}
use psa_dhcp.Ipdb.Clients.Outcomes.{LookedBoth, both}

module _ {now : ℕ} {k : List ℕ} {cx : Clients} where
  Looked-found :
      {r : Option ℕ × Clients} {p : ℕ}
      → Looked now k cx r
      → cx.m k ≡ some p
      → expired now (cx.cell p) ≡ false
      → r.0 ≡ some p
  Looked-found (absent e) h live = cc
  Looked-found {p} (outdated q e old) h live = absurd (apart (cc (sym e ∙ h)))
    where
      apart : q ≡ p → ⊥
      apart same = cc (ap (λ x. expired now (cx.cell x)) same)
  Looked-found (present q e l) h live = sym e ∙ h

  Looked-absent : {r : Option ℕ × Clients} → Looked now k cx r → cx.m k ≡ none → r.0 ≡ none
  Looked-absent (absent e) h = refl
  Looked-absent (outdated q e old) h = refl
  Looked-absent (present q e l) h = cc

module _ {now : ℕ} {ip : Uip} {duid : Duid} {cx : Clients} where
  pub LookedBoth-found_ip :
      {r : Option ℕ × Option ℕ × Clients} {p : ℕ}
      → LookedBoth now ip duid cx r
      → cx.m (uip_string ip) ≡ some p
      → expired now (cx.cell p) ≡ false
      → r.0 ≡ some p
  LookedBoth-found_ip (both l l') h live = Looked-found l h live

  pub LookedBoth-found_duid :
      {r : Option ℕ × Option ℕ × Clients} {p : ℕ}
      → LookedBoth now ip duid cx r
      → cx.m (duid_string duid) ≡ some p
      → expired now (cx.cell p) ≡ false
      → r.1 ≡ some p
  LookedBoth-found_duid {p} (both l l') h live =
      Looked-found l' (Looked-keeps_live (duid_string duid) l h live)
        (ap (λ (f : ℕ → Client). expired now (f p)) (Looked-cell l).0 ∙ live)

  pub LookedBoth-absent :
      {r : Option ℕ × Option ℕ × Clients}
      → LookedBoth now ip duid cx r
      → cx.m (uip_string ip) ≡ none
      → cx.m (duid_string duid) ≡ none
      → (r.0 ≡ none) × (r.1 ≡ none)
  LookedBoth-absent (both l l') hi hd =
      (Looked-absent l hi, Looked-absent l' (Looked-keeps_none (duid_string duid) l hd))

  pub LookedBoth-by_ip :
      {r : Option ℕ × Option ℕ × Clients} {p : ℕ}
      → LookedBoth now ip duid cx r
      → r.0 ≡ some p
      → (cx.m (uip_string ip) ≡ some p) × (expired now (cx.cell p) ≡ false)
  LookedBoth-by_ip (both l l') h = let (e, live, _) = Looked-some l h in (e, live)

  pub LookedBoth-by_duid :
      {r : Option ℕ × Option ℕ × Clients} {p : ℕ}
      → LookedBoth now ip duid cx r
      → r.1 ≡ some p
      → (cx.m (duid_string duid) ≡ some p) × (expired now (cx.cell p) ≡ false)
  LookedBoth-by_duid {p} (both l l') h =
      let (e, live, _) = Looked-some l' h in
      (
        Looked-mono (duid_string duid) l e,
        ap (λ (f : ℕ → Client). expired now (f p)) (sym (Looked-cell l).0) ∙ live,
      )
