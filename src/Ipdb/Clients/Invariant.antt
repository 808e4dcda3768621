-- ===== src/Ipdb/Clients/Invariant.antt =====
-- What holds of the map of clients between any two calls, and that every call keeps it.
use psa_dhcp.Base.{
  ℕ, ◌<◌, ◌≤◌, ◌≡◌, ◌≢◌, refl, sym, ap, ◌∙◌, arith, true, false, Option, none, some, List, ◌⊎◌, inl,
  inr, Bool-cases, Option-cases,
}
use psa_dhcp.Ipdb.Uip.{uip_string}
use psa_dhcp.Ipdb.Duid.{duid_string}
use psa_dhcp.Ipdb.Clients.{Client, Clients, new_clients, delete, expired, lookup_key}
use psa_dhcp.Ipdb.Clients.Store.{delete_self, delete_ne, delete-some, delete-none}

pub some_eq : {a b : ℕ} → some a ≡ some b → a ≡ b
some_eq h = cc

-- At the time `now`: entries point to clients that were made; each stands under a key of its own;
-- and a client that has not expired is found under both of its keys.
pub record IsConsistent (now : ℕ) (cx : Clients) : Type 0 where
  pub made : (k : List ℕ) (p : ℕ) → cx.m k ≡ some p → p < cx.next
  pub keyed :
      (k : List ℕ) (p : ℕ)
      → cx.m k ≡ some p
      → (k ≡ uip_string (cx.cell p).ip) ⊎ (k ≡ duid_string (cx.cell p).duid)
  pub paired :
      (k : List ℕ) (p : ℕ)
      → cx.m k ≡ some p
      → expired now (cx.cell p) ≡ false
      → (cx.m (uip_string (cx.cell p).ip) ≡ some p) × (cx.m (duid_string (cx.cell p).duid) ≡ some p)

pub new_clients-IsConsistent : (now : ℕ) → IsConsistent now new_clients
unfolding new_clients
new_clients-IsConsistent now = record {
  made = λ k p h. absurd (cc);
  keyed = λ k p h. absurd (cc);
  paired = λ k p h live. absurd (cc);
}

-- Time only makes more clients expire.
pub expired_mono :
    (now later : ℕ) (c : Client) → now ≤ later → expired later c ≡ false → expired now c ≡ false
unfolding expired
expired_mono now later c h live = ground arith

pub IsConsistent-later :
    {now : ℕ} {cx : Clients} (later : ℕ) → now ≤ later → IsConsistent now cx → IsConsistent later cx
IsConsistent-later {now} {cx} later h w = record {
  made = w.made;
  keyed = w.keyed;
  paired = λ k p e live. w.paired k p e (expired_mono now later (cx.cell p) h live);
}

-- To delete the key of an expired client.
delete-IsConsistent :
    {now : ℕ} (cx : Clients) (k : List ℕ) (p : ℕ)
    → IsConsistent now cx
    → cx.m k ≡ some p
    → expired now (cx.cell p) ≡ true
    → IsConsistent now (record cx { m = delete k cx.m })
delete-IsConsistent {now} cx k p w found gone = record {
  made = λ j q h. w.made j q (delete-some k cx.m j h).1;
  keyed = λ j q h. w.keyed j q (delete-some k cx.m j h).1;
  paired = λ j q h live.
      let (eu, ed) = w.paired j q (delete-some k cx.m j h).1 live in
      (delete_ne k cx.m _ (spared q live eu) ∙ eu, delete_ne k cx.m _ (spared q live ed) ∙ ed);
}
  where
    spared : (q : ℕ) {j : List ℕ} → expired now (cx.cell q) ≡ false → cx.m j ≡ some q → k ≢ j
    spared q live h e =
        let same : p ≡ q = cc (sym found ∙ ap cx.m e ∙ h) in
        cc (ap (λ x. expired now (cx.cell x)) same)

-- A client that has expired stays so.
expired-later :
    (now later : ℕ) (c : Client) → now ≤ later → expired now c ≡ true → expired later c ≡ true
unfolding expired
expired-later now later c h gone = ground arith

-- The three ways in which a look-up ends.
pub data Looked (now : ℕ) (k : List ℕ) (cx : Clients) : Option ℕ × Clients → Type 0 where
  absent : cx.m k ≡ none → Looked now k cx (none, cx)
  outdated :
      (p : ℕ)
      → cx.m k ≡ some p
      → expired now (cx.cell p) ≡ true
      → Looked now k cx (none, record cx { m = delete k cx.m })
  present :
      (p : ℕ) → cx.m k ≡ some p → expired now (cx.cell p) ≡ false → Looked now k cx (some p, cx)

pub lookup_key-Looked :
    (now : ℕ) (k : List ℕ) (cx : Clients) → Looked now k cx (lookup_key now k cx)
unfolding lookup_key
lookup_key-Looked now k cx = elim (Option-cases (cx.m k)) [
  | inl e ↦ rw (e, lookup_key) (absent e)
  | inr (p, e) ↦ elim (Bool-cases (expired now (cx.cell p))) [
    | inl old ↦ rw (e, lookup_key, old) (outdated p e old)
    | inr live ↦ rw (e, lookup_key, live) (present p e live)
  ]
]

module _ {now : ℕ} {k : List ℕ} {cx : Clients} where
  pub Looked-IsConsistent :
      {r : Option ℕ × Clients} → Looked now k cx r → IsConsistent now cx → IsConsistent now r.1
  Looked-IsConsistent (absent e) w = w
  Looked-IsConsistent (outdated p e old) w = delete-IsConsistent cx k p w e old
  Looked-IsConsistent (present p e live) w = w

  -- A look-up keeps the map consistent at any later time too.
  pub Looked-IsConsistent-later :
      {later : ℕ} {r : Option ℕ × Clients}
      → now ≤ later
      → Looked now k cx r
      → IsConsistent later cx
      → IsConsistent later r.1
  Looked-IsConsistent-later h (absent e) w = w
  Looked-IsConsistent-later {later} h (outdated p e old) w =
      delete-IsConsistent cx k p w e (expired-later now later (cx.cell p) h old)
  Looked-IsConsistent-later h (present p e live) w = w

  pub Looked-cell :
      {r : Option ℕ × Clients} → Looked now k cx r → (r.1.cell ≡ cx.cell) × (r.1.next ≡ cx.next)
  Looked-cell (absent e) = (refl, refl)
  Looked-cell (outdated p e old) = (refl, refl)
  Looked-cell (present p e live) = (refl, refl)

  pub Looked-none : {r : Option ℕ × Clients} → Looked now k cx r → r.0 ≡ none → r.1.m k ≡ none
  Looked-none (absent e) h = e
  Looked-none (outdated p e old) h = delete_self k cx.m
  Looked-none (present p e live) h = cc

  -- What is found is there, has not expired, and nothing changed.
  pub Looked-some :
      {r : Option ℕ × Clients} {p : ℕ}
      → Looked now k cx r
      → r.0 ≡ some p
      → (cx.m k ≡ some p) × (expired now (cx.cell p) ≡ false) × (r.1 ≡ cx)
  Looked-some (absent e) h = cc
  Looked-some (outdated p e old) h = cc
  Looked-some (present q e live) h =
      (e ∙ h, (cc (ap (λ x. expired now (cx.cell x)) (some_eq h), live)), refl)

  pub Looked-keeps_none :
      {r : Option ℕ × Clients} (j : List ℕ) → Looked now k cx r → cx.m j ≡ none → r.1.m j ≡ none
  Looked-keeps_none j (absent e) h = h
  Looked-keeps_none j (outdated p e old) h = delete-none k cx.m j h
  Looked-keeps_none j (present p e live) h = h

  -- No entry is made.
  pub Looked-mono :
      {r : Option ℕ × Clients} (j : List ℕ) {p : ℕ}
      → Looked now k cx r
      → r.1.m j ≡ some p
      → cx.m j ≡ some p
  Looked-mono j (absent e) h = h
  Looked-mono j (outdated p e old) h = (delete-some k cx.m j h).1
  Looked-mono j (present p e live) h = h

  -- A live entry stays.
  pub Looked-keeps_live :
      {r : Option ℕ × Clients} (j : List ℕ) {p : ℕ}
      → Looked now k cx r
      → cx.m j ≡ some p
      → expired now (cx.cell p) ≡ false
      → r.1.m j ≡ some p
  Looked-keeps_live j (absent e) h live = h
  Looked-keeps_live j {p} (outdated q e old) h live =
      delete_ne k cx.m j (λ same. apart (cc (sym e ∙ ap cx.m same ∙ h))) ∙ h
    where
      apart : q ≡ p → ⊥
      apart same = cc (ap (λ x. expired now (cx.cell x)) same)
  Looked-keeps_live j (present q e l) h live = h
