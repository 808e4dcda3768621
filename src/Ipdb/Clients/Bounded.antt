-- ===== src/Ipdb/Clients/Bounded.antt =====
-- The addresses and identifiers that are on record.
use psa_dhcp.Base.{
  ℕ, ◌^◌, ◌<◌, ◌≤◌, ◌≡◌, ◌≢◌, sym, arith, false, Bool, Option, some, inl, inr, ◌==◌, ==_iff,
  Bool-cases, All,
}
use psa_dhcp.Base.Bytes.{IsByte}
use psa_dhcp.Ipdb.Uip.{Uip, uip_string}
use psa_dhcp.Ipdb.Duid.{Duid, duid_string}
use psa_dhcp.Ipdb.Keys.{uip_string-ne-duid_string, uip_string-injective, duid_string-injective}
use psa_dhcp.Ipdb.Clients.{
  Client, Clients, ClientError, lookup, add_client, write_lease, inject_internal, set_lease,
}
use psa_dhcp.Ipdb.Clients.Store.{write_self, write_ne, write_lease-names}
use psa_dhcp.Ipdb.Clients.Invariant.{IsConsistent}
use psa_dhcp.Ipdb.Clients.Outcomes.{
  LookedBoth, lookup-LookedBoth, LookedBoth-cell, Injected, refused, added,
  inject_internal-Injected, LeaseSet, unset, renewed, set_lease-LeaseSet,
}

-- A client with an address from `lo` to `hi`, and an identifier of bytes.
pub record InBounds (lo hi : ℕ) (c : Client) : Type 0 where
  pub above : lo ≤ c.ip
  pub below : c.ip ≤ hi
  pub bytes : All IsByte c.duid

pub record IsBounded (lo hi : ℕ) (cx : Clients) : Type 0 where
  pub each : (p : ℕ) → p < cx.next → InBounds lo hi (cx.cell p)

module _ {lo hi : ℕ} where
  pub IsBounded-same :
      {cx cx' : Clients}
      → cx'.cell ≡ cx.cell
      → cx'.next ≡ cx.next
      → IsBounded lo hi cx
      → IsBounded lo hi cx'
  IsBounded-same {cx} {cx'} e n w = record { each = λ p h. rw e (w.each p (omega (arith, n))) }

  add_client-IsBounded :
      (c : Client) (cx : Clients)
      → InBounds lo hi c
      → IsBounded lo hi cx
      → IsBounded lo hi (add_client c cx)
  unfolding add_client
  add_client-IsBounded c cx new w = record {
    each = λ p h. elim (Bool-cases (cx.next == p)) [
      | inl e ↦
          let same : cx.next ≡ p = (==_iff cx.next p).0 e in
          rw (← same, write_self cx.next c cx.cell) new
      | inr e ↦
          let apart : cx.next ≢ p = λ s. differ p s e in
          rw (write_ne cx.next c cx.cell p apart) (w.each p (omega arith))
    ];
  }
    where
      differ : (p : ℕ) → cx.next ≡ p → (cx.next == p) ≡ false → ⊥
      differ p s e = ground arith

  write_lease-IsBounded :
      (p leased_until : ℕ) (cx : Clients)
      → IsBounded lo hi cx
      → IsBounded lo hi (write_lease p leased_until cx)
  write_lease-IsBounded p leased_until cx w = record {
    each = λ q h.
        let (ei, ed) = write_lease-names p leased_until cx q in
        let b = w.each q (unfold write_lease in h) in
        record { above = rw ei b.above; below = rw ei b.below; bytes = rw ed b.bytes };
  }

  module _ {now : ℕ} {cx : Clients} (w : IsBounded lo hi cx) where
    pub LookedBoth-IsBounded :
        {ip : Uip} {duid : Duid} {r : Option ℕ × Option ℕ × Clients}
        → LookedBoth now ip duid cx r
        → IsBounded lo hi r.2
    LookedBoth-IsBounded l = let (e, n) = LookedBoth-cell l in IsBounded-same e n w

    pub Injected-IsBounded :
        {c : Client} {r : Option ClientError × Clients}
        → Injected now c cx r
        → InBounds lo hi c
        → IsBounded lo hi r.1
    Injected-IsBounded (refused e l _) new = LookedBoth-IsBounded l
    Injected-IsBounded {c} (added {r} l ha hb) new =
        add_client-IsBounded c r.2 new (LookedBoth-IsBounded l)

    pub LeaseSet-IsBounded :
        {ip : Uip} {duid : Duid} {leased_until : ℕ} {r : Option ClientError × Clients}
        → LeaseSet now ip duid leased_until cx r
        → IsBounded lo hi r.1
    LeaseSet-IsBounded (unset e l _) = LookedBoth-IsBounded l
    LeaseSet-IsBounded {leased_until} (renewed {r} p l ha hb) =
        write_lease-IsBounded p leased_until r.2 (LookedBoth-IsBounded l)

  module _ (now : ℕ) {cx : Clients} (w : IsBounded lo hi cx) where
    pub lookup-IsBounded : (ip : Uip) (duid : Duid) → IsBounded lo hi (lookup now ip duid cx).2
    lookup-IsBounded ip duid = LookedBoth-IsBounded w (lookup-LookedBoth now ip duid cx)

    pub inject_internal-IsBounded :
        (ip : Uip) (duid : Duid) (leased_until : ℕ) (permanent : Bool)
        → lo ≤ ip
        → ip ≤ hi
        → All IsByte duid
        → IsBounded lo hi (inject_internal now ip duid leased_until permanent cx).1
    inject_internal-IsBounded ip duid leased_until permanent a b d =
        Injected-IsBounded w
          (inject_internal-Injected now
            (record { ip = ip; duid = duid; leased_until = leased_until; permanent = permanent })
            cx)
          (record { above = a; below = b; bytes = d })

    pub set_lease-IsBounded :
        (ip : Uip) (duid : Duid) (leased_until : ℕ)
        → IsBounded lo hi (set_lease now ip duid leased_until cx).1
    set_lease-IsBounded ip duid leased_until =
        LeaseSet-IsBounded w (set_lease-LeaseSet now ip duid leased_until cx)

-- An entry under the key of an address is a client with that address, and so for identifiers.
module _ {now lo hi : ℕ} {cx : Clients} (w : IsConsistent now cx) (b : IsBounded lo hi cx) where
  pub ip_of_key :
      (ip : Uip) (p : ℕ)
      → hi < 2 ^ 32
      → ip < 2 ^ 32
      → cx.m (uip_string ip) ≡ some p
      → (cx.cell p).ip ≡ ip
  ip_of_key ip p hh hi32 e =
      let i = b.each p (w.made (uip_string ip) p e) in
      elim (w.keyed (uip_string ip) p e) [
        | inl k ↦ sym (uip_string-injective ip (cx.cell p).ip hi32 (omega (arith, i.below)) k)
        | inr k ↦ absurd (uip_string-ne-duid_string ip (cx.cell p).duid k)
      ]

  pub duid_of_key :
      (duid : Duid) (p : ℕ)
      → All IsByte duid
      → cx.m (duid_string duid) ≡ some p
      → (cx.cell p).duid ≡ duid
  duid_of_key duid p bytes e =
      let i = b.each p (w.made (duid_string duid) p e) in
      elim (w.keyed (duid_string duid) p e) [
        | inl k ↦ absurd (uip_string-ne-duid_string (cx.cell p).ip duid (sym k))
        | inr k ↦ sym (duid_string-injective duid (cx.cell p).duid bytes i.bytes k)
      ]
