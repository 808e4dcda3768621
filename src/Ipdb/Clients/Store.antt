-- ===== src/Ipdb/Clients/Store.antt =====
-- Maps and pointers: what a write leaves, and what it changes.
use psa_dhcp.Base.{
  ℕ, ◌≡◌, ◌≢◌, refl, arith, Option, none, some, List, bytes_eq, bytes_eq_refl, bytes_eq→eq,
  bytes_eq_iff, ap, ==_iff, ◌==◌, ◌⊎◌, inl, inr, Bool-cases,
}
use psa_dhcp.Ipdb.Clients.{Client, Clients, delete, insert, write, write_lease}

module _ (k : List ℕ) (m : List ℕ → Option ℕ) where
  pub delete_self : delete k m k ≡ none
  unfolding delete
  delete_self = rw (bytes_eq_refl k)

  pub delete_ne : (j : List ℕ) → k ≢ j → delete k m j ≡ m j
  unfolding delete
  delete_ne j h = ground (arith, bytes_eq→eq k j)

  pub delete-some : (j : List ℕ) {p : ℕ} → delete k m j ≡ some p → (k ≢ j) × (m j ≡ some p)
  unfolding delete
  delete-some j h = (λ e. differ e, ground arith)
    where
      differ : k ≢ j
      differ e = ground (arith, (bytes_eq_iff k j).1 e)

  pub delete-none : (j : List ℕ) → m j ≡ none → delete k m j ≡ none
  unfolding delete
  delete-none j h = ground arith

  pub insert_self : (p : ℕ) → insert k p m k ≡ some p
  unfolding insert
  insert_self p = rw (bytes_eq_refl k)

  pub insert_ne : (p : ℕ) (j : List ℕ) → k ≢ j → insert k p m j ≡ m j
  unfolding insert
  insert_ne p j h = ground (arith, bytes_eq→eq k j)

  -- What is found is either the new entry or an old one under another key.
  pub insert-some :
      (p : ℕ) (j : List ℕ) {q : ℕ}
      → insert k p m j ≡ some q
      → ((k ≡ j) × (p ≡ q)) ⊎ ((k ≢ j) × (m j ≡ some q))
  unfolding insert
  insert-some p j h = elim (Bool-cases (bytes_eq k j)) [
    | inl e ↦ inl (bytes_eq→eq k j e, ground arith)
    | inr e ↦ inr (λ same. ground (arith, (bytes_eq_iff k j).1 same), ground arith)
  ]

pub write_self : (p : ℕ) (c : Client) (cell : ℕ → Client) → write p c cell p ≡ c
unfolding write
write_self p c cell = ground arith

pub write_ne : (p : ℕ) (c : Client) (cell : ℕ → Client) (q : ℕ) → p ≢ q → write p c cell q ≡ cell q
unfolding write
write_ne p c cell q h = ground arith

pub insert_under :
    (k j : List ℕ) (p : ℕ) (m : List ℕ → Option ℕ) → insert k p (insert j p m) j ≡ some p
unfolding insert
insert_under k j p m = ground (arith, bytes_eq_refl j)

-- A lease that is written leaves every client its address and its identifier.
pub write_lease-names :
    (p leased_until : ℕ) (cx : Clients) (q : ℕ)
    → (((write_lease p leased_until cx).cell q).ip ≡ (cx.cell q).ip)
      × (((write_lease p leased_until cx).cell q).duid ≡ (cx.cell q).duid)
unfolding write_lease write
write_lease-names p leased_until cx q = elim (Bool-cases (p == q)) [
  | inl e ↦
      let same : p ≡ q = (==_iff p q).0 e in
      rw (e, write) (ap (λ x. (cx.cell x).ip) same, ap (λ x. (cx.cell x).duid) same)
  | inr e ↦ rw (e, write) (refl, refl)
]

pub write_lease_ne :
    (p leased_until : ℕ) (cx : Clients) (q : ℕ)
    → p ≢ q
    → (write_lease p leased_until cx).cell q ≡ cx.cell q
unfolding write_lease
write_lease_ne p leased_until cx q h = write_ne p _ cx.cell q h

pub write_lease_self :
    (p leased_until : ℕ) (cx : Clients)
    → (write_lease p leased_until cx).cell p ≡ record (cx.cell p) { leased_until = leased_until }
unfolding write_lease
write_lease_self p leased_until cx = write_self p _ cx.cell
