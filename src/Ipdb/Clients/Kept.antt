-- ===== src/Ipdb/Clients/Kept.antt =====
-- Every method keeps the map consistent.
use psa_dhcp.Base.{
  ℕ, ◌+◌, ◌<◌, ◌≡◌, sym, ap, ◌∙◌, arith, false, Bool, Option, none, some, List, ◌⊎◌, inl, inr, ◌==◌,
  ==_iff, Bool-cases,
}
use psa_dhcp.Ipdb.Uip.{Uip, uip_string}
use psa_dhcp.Ipdb.Duid.{Duid, duid_string}
use psa_dhcp.Ipdb.Clients.{
  Client, Clients, ClientError, expired, lookup, add_client, inject_internal, write_lease,
  set_lease,
}
use psa_dhcp.Ipdb.Clients.Store.{
  insert_self, insert_ne, insert-some, insert_under, write_self, write_ne, write_lease-names,
  write_lease_ne,
}
use psa_dhcp.Ipdb.Clients.Invariant.{IsConsistent}
use psa_dhcp.Ipdb.Clients.Outcomes.{
  lookup-LookedBoth, LookedBoth-IsConsistent, LookedBoth-free, LookedBoth-same, Injected, refused,
  added, inject_internal-Injected, LeaseSet, unset, renewed, set_lease-LeaseSet,
}

module _ {now : ℕ} (c : Client) (cx : Clients) (w : IsConsistent now cx) where
  -- An entry after the addition is the new one or an old one.
  added_some :
      (k : List ℕ) {p : ℕ}
      → (add_client c cx).m k ≡ some p
      → ((cx.next ≡ p) × ((k ≡ uip_string c.ip) ⊎ (k ≡ duid_string c.duid))) ⊎ (cx.m k ≡ some p)
  unfolding add_client
  added_some k h = elim (insert-some (duid_string c.duid) _ cx.next k h) [
    | inl (e, n) ↦ inl (n, inr (sym e))
    | inr (ne, h') ↦ elim (insert-some (uip_string c.ip) cx.m cx.next k h') [
      | inl (e, n) ↦ inl (n, inl (sym e))
      | inr (ne', h'') ↦ inr h''
    ]
  ]

  old_cell : {k : List ℕ} {p : ℕ} → cx.m k ≡ some p → (add_client c cx).cell p ≡ cx.cell p
  unfolding add_client
  old_cell {k} {p} h =
      write_ne cx.next c cx.cell p (λ e. let lt = w.made k p h in absurd (omega (arith, e)))

  pub new_cell : (add_client c cx).cell cx.next ≡ c
  unfolding add_client
  new_cell = write_self cx.next c cx.cell

  pub new_ip : (add_client c cx).m (uip_string c.ip) ≡ some cx.next
  unfolding add_client
  new_ip = insert_under (duid_string c.duid) (uip_string c.ip) cx.next cx.m

  pub new_duid : (add_client c cx).m (duid_string c.duid) ≡ some cx.next
  unfolding add_client
  new_duid = insert_self (duid_string c.duid) _ cx.next

  module _ (ip_free : cx.m (uip_string c.ip) ≡ none)
      (duid_free : cx.m (duid_string c.duid) ≡ none) where
    old_entry : {k : List ℕ} {p : ℕ} → cx.m k ≡ some p → (add_client c cx).m k ≡ some p
    unfolding add_client
    old_entry {k} h =
        insert_ne (duid_string c.duid) _ cx.next k (λ e. cc (ap cx.m e, duid_free, h))
        ∙ insert_ne (uip_string c.ip) cx.m cx.next k (λ e. cc (ap cx.m e, ip_free, h))
        ∙ h

    made_keyed :
        (k : List ℕ) (p : ℕ)
        → (add_client c cx).m k ≡ some p
        → (p < cx.next + 1)
          × ((k ≡ uip_string ((add_client c cx).cell p).ip)
              ⊎ (k ≡ duid_string ((add_client c cx).cell p).duid))
    made_keyed k p h = elim (added_some k h) [
      | inl (n, inl e) ↦ (
        omega (arith, n),
        inl (
            e
            ∙ ap (λ (x : Client). uip_string x.ip)
                (sym (ap (add_client c cx).cell (sym n) ∙ new_cell))),
      )
      | inl (n, inr e) ↦ (
        omega (arith, n),
        inr (
            e
            ∙ ap (λ (x : Client). duid_string x.duid)
                (sym (ap (add_client c cx).cell (sym n) ∙ new_cell))),
      )
      | inr old ↦ (omega (arith, w.made k p old), rw (old_cell old) (w.keyed k p old))
    ]

    paired :
        (k : List ℕ) (p : ℕ)
        → (add_client c cx).m k ≡ some p
        → expired now ((add_client c cx).cell p) ≡ false
        → ((add_client c cx).m (uip_string ((add_client c cx).cell p).ip) ≡ some p)
          × ((add_client c cx).m (duid_string ((add_client c cx).cell p).duid) ≡ some p)
    paired k p h live = elim (added_some k h) [
      | inl (n, _) ↦ rw (← n, new_cell) (new_ip, new_duid)
      | inr old ↦
          let (eu, ed) = w.paired k p old (rw (old_cell old) at live) in
          rw (old_cell old) (old_entry eu, old_entry ed)
    ]

    pub add_client-IsConsistent : IsConsistent now (add_client c cx)
    add_client-IsConsistent = record {
      made = λ k p h. next_add (made_keyed k p h).0;
      keyed = λ k p h. (made_keyed k p h).1;
      paired = paired;
    }
      where
        next_add : {p : ℕ} → p < cx.next + 1 → p < (add_client c cx).next
        next_add h = unfold add_client in h

-- The lease of a live client that both keys lead to.
module _ {now : ℕ} (p leased_until : ℕ) (cx : Clients) (w : IsConsistent now cx) where
  pub write_lease-IsConsistent :
      expired now (cx.cell p) ≡ false → IsConsistent now (write_lease p leased_until cx)
  write_lease-IsConsistent live = record {
    made = λ k q h. kept_next (w.made k q (entry h));
    keyed = λ k q h.
        let (ei, ed) = write_lease-names p leased_until cx q in rw (ei, ed) (w.keyed k q (entry h));
    paired = λ k q h live'.
        let (ei, ed) = write_lease-names p leased_until cx q in
        let (eu, ed') = w.paired k q (entry h) (was_live q live') in
        rw (ei, ed) (back eu, back ed');
  }
    where
      entry : {k : List ℕ} {q : ℕ} → (write_lease p leased_until cx).m k ≡ some q → cx.m k ≡ some q
      entry h = unfold write_lease in h

      back : {k : List ℕ} {q : ℕ} → cx.m k ≡ some q → (write_lease p leased_until cx).m k ≡ some q
      back h = unfold write_lease in h

      kept_next : {q : ℕ} → q < cx.next → q < (write_lease p leased_until cx).next
      kept_next h = unfold write_lease in h

      was_live :
          (q : ℕ)
          → expired now ((write_lease p leased_until cx).cell q) ≡ false
          → expired now (cx.cell q) ≡ false
      was_live q h = elim (Bool-cases (p == q)) [
        | inl e ↦ ap (λ x. expired now (cx.cell x)) (sym ((==_iff p q).0 e)) ∙ live
        | inr e ↦ ap (expired now) (sym (write_lease_ne p leased_until cx q (λ s. apart q s e))) ∙ h
      ]
        where
          apart : (q : ℕ) → p ≡ q → (p == q) ≡ false → ⊥
          apart q s e = ground arith

module _ {now : ℕ} {cx : Clients} (w : IsConsistent now cx) where
  pub Injected-IsConsistent :
      {c : Client} {r : Option ClientError × Clients} → Injected now c cx r → IsConsistent now r.1
  Injected-IsConsistent (refused e l _) = LookedBoth-IsConsistent l w
  Injected-IsConsistent {c} (added {r} l ha hb) =
      let (free_ip, free_duid) = LookedBoth-free l ha hb in
      add_client-IsConsistent c r.2 (LookedBoth-IsConsistent l w) free_ip free_duid

  pub LeaseSet-IsConsistent :
      {ip : Uip} {duid : Duid} {leased_until : ℕ} {r : Option ClientError × Clients}
      → LeaseSet now ip duid leased_until cx r
      → IsConsistent now r.1
  LeaseSet-IsConsistent (unset e l _) = LookedBoth-IsConsistent l w
  LeaseSet-IsConsistent {leased_until} (renewed {r} p l ha hb) =
      let (_, _, live, same) = LookedBoth-same l ha hb in
      write_lease-IsConsistent p leased_until r.2 (LookedBoth-IsConsistent l w)
        (ap (λ (c : Clients). expired now (c.cell p)) same ∙ live)

  -- Every method of `Clients` keeps the map consistent.
  pub lookup-IsConsistent : (ip : Uip) (duid : Duid) → IsConsistent now (lookup now ip duid cx).2
  lookup-IsConsistent ip duid = LookedBoth-IsConsistent (lookup-LookedBoth now ip duid cx) w

  pub inject_internal-IsConsistent :
      (ip : Uip) (duid : Duid) (leased_until : ℕ) (permanent : Bool)
      → IsConsistent now (inject_internal now ip duid leased_until permanent cx).1
  inject_internal-IsConsistent ip duid leased_until permanent = Injected-IsConsistent (
      inject_internal-Injected now
        (record { ip = ip; duid = duid; leased_until = leased_until; permanent = permanent }) cx)

  pub set_lease-IsConsistent :
      (ip : Uip) (duid : Duid) (leased_until : ℕ)
      → IsConsistent now (set_lease now ip duid leased_until cx).1
  set_lease-IsConsistent ip duid leased_until =
      LeaseSet-IsConsistent (set_lease-LeaseSet now ip duid leased_until cx)
