-- ===== src/Ipdb/Table/Assigned.antt =====
-- A lease that is written, and a client that is added, in the table.
use psa_dhcp.Base.{
  ℕ, ◌≤◌, ◌≡◌, ◌≢◌, refl, sym, ap, ◌∙◌, arith, false, some, List, inl, inr, Option-cases,
  Bool-cases, bytes_eq, bytes_eq→eq, bytes_eq_iff, if◌then◌else◌,
}
use psa_dhcp.Ipdb.Uip.{Uip, uip_string}
use psa_dhcp.Ipdb.Duid.{Duid, duid_string}
use psa_dhcp.Ipdb.Keys.{uip_string-ne-duid_string}
use psa_dhcp.Ipdb.Clients.{Client, Clients, expired, add_client, write_lease}
use psa_dhcp.Ipdb.Clients.Store.{insert_ne, write_ne, write_lease_ne, write_lease_self}
use psa_dhcp.Ipdb.Clients.Invariant.{IsConsistent}
use psa_dhcp.Ipdb.Clients.Kept.{new_cell, new_duid}
use psa_dhcp.Ipdb.Table.{if_live, live_at, table, assign, renewed_lease}
use psa_dhcp.Ipdb.Table.Steps.{live_at-none, live_at-some}

pub if_live-live : (now : ℕ) (c : Client) → expired now c ≡ false → if_live now c ≡ some c
if_live-live now c h = rw (h, if_live) refl

renewed-live :
    (now until : ℕ) (c : Client)
    → now ≤ until
    → expired now (record c { leased_until = until }) ≡ false
unfolding expired
renewed-live now until c h = ground arith

module _ {now : ℕ} {cx : Clients} (w : IsConsistent now cx) where
  -- A client has one identifier.
  one_key :
      (d d' : Duid) (p : ℕ)
      → cx.m (duid_string d) ≡ some p
      → cx.m (duid_string d') ≡ some p
      → duid_string d ≡ duid_string d'
  one_key d d' p h h' = own d h ∙ sym (own d' h')
    where
      own :
          (d : Duid) → cx.m (duid_string d) ≡ some p → duid_string d ≡ duid_string (cx.cell p).duid
      own d h = elim (w.keyed (duid_string d) p h) [
        | inl e ↦ absurd (uip_string-ne-duid_string (cx.cell p).ip d (sym e))
        | inr e ↦ e
      ]

  -- Two stores that differ for other clients only.
  elsewhere :
      (cx' : Clients) (k : List ℕ)
      → cx'.m k ≡ cx.m k
      → ((q : ℕ) → cx.m k ≡ some q → cx'.cell q ≡ cx.cell q)
      → live_at now cx' k ≡ live_at now cx k
  elsewhere cx' k em ec = elim (Option-cases (cx.m k)) [
    | inl e ↦ live_at-none now cx' k (em ∙ e) ∙ sym (live_at-none now cx k e)
    | inr (q, e) ↦
        live_at-some now cx' k q (em ∙ e)
        ∙ ap (if_live now) (ec q e)
        ∙ sym (live_at-some now cx k q e)
  ]

  pub write_lease-assign :
      (n : Uip) (d : Duid) (until p : ℕ)
      → cx.m (duid_string d) ≡ some p
      → expired now (cx.cell p) ≡ false
      → now ≤ until
      → (d' : Duid) → table now (write_lease p until cx) d' ≡ assign n d until (table now cx) d'
  unfolding write_lease
  write_lease-assign n d until p h live later d' =
      elim (Bool-cases (bytes_eq (duid_string d) (duid_string d'))) [
        | inl same ↦
            let here = ap cx.m (sym (bytes_eq→eq (duid_string d) (duid_string d') same)) ∙ h in
            let old = live_at-some now cx (duid_string d) p h ∙ if_live-live now (cx.cell p) live in
            live_at-some now (write_lease p until cx) (duid_string d') p here
            ∙ ap (if_live now) (write_lease_self p until cx)
            ∙ if_live-live now _ (renewed-live now until (cx.cell p) later)
            ∙ ap (λ o. some (renewed_lease n d until o)) (sym old)
            ∙ rw same refl
        | inr apart ↦
            elsewhere (write_lease p until cx) (duid_string d') refl (λ q e.
              write_lease_ne p until cx q
                (λ same. differ apart (one_key d d' p h (e ∙ ap some (sym same)))))
            ∙ rw apart refl
      ]
    where
      differ : bytes_eq (duid_string d) (duid_string d') ≡ false → duid_string d ≢ duid_string d'
      differ apart e = cc ((bytes_eq_iff (duid_string d) (duid_string d')).1 e)

  pub add_client-assign :
      (c : Client)
      → expired now c ≡ false
      → (d' : Duid)
      → table now (add_client c cx) d'
        ≡ (if bytes_eq (duid_string c.duid) (duid_string d') then some c else table now cx d')
  unfolding add_client
  add_client-assign c live d' = elim (Bool-cases (bytes_eq (duid_string c.duid) (duid_string d'))) [
    | inl same ↦
        let e = bytes_eq→eq (duid_string c.duid) (duid_string d') same in
        live_at-some now (add_client c cx) (duid_string d') cx.next
          (ap (add_client c cx).m (sym e) ∙ new_duid c cx w)
        ∙ ap (if_live now) (new_cell c cx w)
        ∙ if_live-live now c live
        ∙ rw same refl
    | inr apart ↦
        elsewhere (add_client c cx) (duid_string d') (kept apart)
          (λ q e. write_ne cx.next c cx.cell q (λ same. old_client q e same))
        ∙ rw apart refl
  ]
    where
      kept :
          bytes_eq (duid_string c.duid) (duid_string d') ≡ false
          → (add_client c cx).m (duid_string d') ≡ cx.m (duid_string d')
      kept apart =
          insert_ne (duid_string c.duid) _ cx.next (duid_string d')
            (λ e. cc ((bytes_eq_iff (duid_string c.duid) (duid_string d')).1 e))
          ∙ insert_ne (uip_string c.ip) cx.m cx.next (duid_string d')
              (uip_string-ne-duid_string c.ip d')

      old_client : (q : ℕ) → cx.m (duid_string d') ≡ some q → cx.next ≢ q
      old_client q e same = let lt = w.made (duid_string d') q e in omega (arith, same)
