-- ===== src/Server/Discover.antt =====
-- What a client that asks for an address gets.
use mathlib.Core.Path.{subst}
use psa_dhcp.Base.{
  ℕ, ◌+◌, ◌*◌, ◌<◌, ◌≤◌, ◌≡◌, refl, ap, ◌∙◌, true, none, List, [], ◌∷◌, ok, ◌⊎◌, inl, inr,
  Option-cases, Result-cases, Bool-cases, All,
}
use psa_dhcp.Base.Bytes.{IsByte}
use psa_dhcp.Net.{Ip, is_nil, ip_equal, ipv4_bcast}
use psa_dhcp.Dhcpmsg.{Message, DecodedOptions}
use psa_dhcp.Dhcpmsg.Options.{second}
use psa_dhcp.Ipdb.Uip.{Uip, to_v4}
use psa_dhcp.Ipdb.Duid.{Duid}
use psa_dhcp.Ipdb.Db.Range.{to_v4-to_uip}
use psa_dhcp.Ipdb.Db.{Ipdb, Round, to_uip, lookup_client_by_duid, update_client, find_ip}
use psa_dhcp.Ipdb.Db.WellFormed.{IsWellFormed}
use psa_dhcp.Ipdb.Db.Leases.{update_client-is_found}
use psa_dhcp.Ipdb.Db.Offers.Recorded.{
  find_ip-IsOwnOrFree, update_client-find_ip, find_ip-IsWellFormed,
}
use psa_dhcp.Server.State.{Server}
use psa_dhcp.Server.Replies.{assemble_offer}
use psa_dhcp.Server.Handlers.{World, Outcome, sent, rounds, send_msg, handle_discover}

-- How a discovery ends.
pub data Discovered (sx : Server) (w : World) (duid : Duid) (msg : Message) (opts : DecodedOptions)
    (ix : Ipdb) : Outcome × Ipdb → Type 0 where
  dropped : Discovered sx w duid msg opts ix (sent [], ix)
  unserved : (ix' : Ipdb) → Discovered sx w duid msg opts ix (sent [], ix')
  offered :
      (offer : Ip) (ix1 : Ipdb)
      → find_ip
          (w.clock 1)
          (rounds w msg.client_mac)
          w.perm
          opts.requested_ip
          duid
          (w.meanwhile 1 ix)
        ≡ (ok offer, ix1)
      → (update_client (w.clock 2) offer duid (15 * second) (w.meanwhile 2 ix1)).0 ≡ none
      → Discovered sx w duid msg opts ix (
        sent (send_msg sx msg offer assemble_offer ∷ []),
        (update_client (w.clock 2) offer duid (15 * second) (w.meanwhile 2 ix1)).1,
      )

pub handle_discover-Discovered :
    (sx : Server) (w : World) (dst : Ip) (duid : Duid) (msg : Message) (opts : DecodedOptions)
    (ix : Ipdb)
    → Discovered sx w duid msg opts ix (handle_discover sx w dst duid msg opts ix)
unfolding handle_discover
handle_discover-Discovered sx w dst duid msg opts ix = elim (Bool-cases (ip_equal dst ipv4_bcast)) [
  | inr other ↦ rw (handle_discover, other) dropped
  | inl cast ↦ elim (Bool-cases (is_nil opts.server_identifier)) [
    | inr other ↦ rw (handle_discover, cast, other) dropped
    | inl nil ↦
        let f =
          find_ip (w.clock 1) (rounds w msg.client_mac) w.perm opts.requested_ip duid
            (w.meanwhile 1 ix) in
        elim (Result-cases f.0) [
          | inr (e, h) ↦ rw (handle_discover, cast, nil, h) (unserved _)
          | inl (offer, h) ↦
              elim (Option-cases
                (update_client (w.clock 2) offer duid (15 * second) (w.meanwhile 2 f.1)).0) [
                  | inr (e, h') ↦ rw (handle_discover, cast, nil, h, h') (unserved _)
                  | inl h' ↦
                      rw (handle_discover, cast, nil, h, h')
                        (offered offer f.1 (λ i. (h i, f.1)) h')
                ]
        ]
  ]
]

-- An offer is the address of a number.
find_ip-to_v4 :
    (now : ℕ) (env : ℕ → Round) (perm : ℕ → List ℕ) (ip : Ip) (duid : Duid) (ix : Ipdb) {a : Ip}
    → (find_ip now env perm ip duid ix).0 ≡ ok a
    → (k : Uip) × (to_v4 k ≡ a)
find_ip-to_v4 now env perm ip duid ix h = elim (find_ip-IsOwnOrFree now env perm ip duid ix h) [
  | inl (p, _, _, e) ↦ ((ix.clients.cell p).ip, e)
  | inr (n, e, _, _, _) ↦ (n, e)
]

module _ (sx : Server) (w : World) (dst : Ip) (duid : Duid) (msg : Message) (opts : DecodedOptions)
    (ix : Ipdb) (well : IsWellFormed (w.clock 1) (w.meanwhile 1 ix)) (ticks : w.clock 1 ≤ w.clock 2)
    (round_ticks : (j : ℕ) → w.round_clock j ≤ w.clock 2) (bytes : All IsByte duid) where
  -- A discovery ends with nothing sent, or with one offer; and the offered address is the one that
  -- the database has for the client at any time in the next 15 seconds. The database is well
  -- formed at the search, the update is not earlier than the search and its rounds, other handlers
  -- keep the database well formed between the two, and the client's identifier is made of bytes.
  pub handle_discover-is_recorded :
      (keeps : (ix1 : Ipdb)
        → IsWellFormed (w.clock 2) ix1
        → IsWellFormed (w.clock 2) (w.meanwhile 2 ix1))
      (later : ℕ)
      → later ≤ w.clock 2 + 15 * second
      → ((handle_discover sx w dst duid msg opts ix).0 ≡ sent [])
        ⊎ ((offer : Ip) × ((handle_discover sx w dst duid msg opts ix).0
              ≡ sent (send_msg sx msg offer assemble_offer ∷ []))
            × ((lookup_client_by_duid later duid (handle_discover sx w dst duid msg opts ix).1).0
                ≡ ok offer))
  handle_discover-is_recorded keeps later h =
      go (handle_discover-Discovered sx w dst duid msg opts ix)
    where
      go :
          {r : Outcome × Ipdb}
          → Discovered sx w duid msg opts ix r
          → (r.0 ≡ sent [])
            ⊎ ((offer : Ip) × (r.0 ≡ sent (send_msg sx msg offer assemble_offer ∷ []))
                × ((lookup_client_by_duid later duid r.1).0 ≡ ok offer))
      go dropped = inl refl
      go (unserved ix') = inl refl
      go (offered offer ix1 e done) =
          let well1 =
            find_ip-IsWellFormed (w.clock 1) (w.clock 2) (rounds w msg.client_mac) w.perm
              opts.requested_ip duid (w.meanwhile 1 ix) well ticks round_ticks in
          let well2 = keeps ix1 (subst (IsWellFormed (w.clock 2)) (ap (λ r. r.1) e) well1) in
          let (n, hn, found) =
            update_client-is_found (w.clock 2) offer duid (15 * second) later (w.meanwhile 2 ix1)
              well2 bytes done h in
          let (k, hk) =
            find_ip-to_v4 (w.clock 1) (rounds w msg.client_mac) w.perm opts.requested_ip duid
              (w.meanwhile 1 ix) (ap (λ r. r.0) e) in
          let same : to_v4 n ≡ offer =
            to_v4-to_uip (w.meanwhile 2 ix1) k n (ap (to_uip (w.meanwhile 2 ix1)) hk ∙ hn) ∙ hk in
          inr (offer, refl, found ∙ ap ok same)

  -- If the database is well formed, the update is not earlier than the search and its rounds, no
  -- other handler comes between the two, `rand.Perm(k)` gives numbers below k, and the client's
  -- identifier is made of bytes, then a broadcast discovery without a server identifier for which
  -- the search finds an address is answered with the offer of it.
  pub handle_discover-offers :
      (quiet : (ix1 : Ipdb) → w.meanwhile 2 ix1 ≡ ix1)
      (perm_lt : (k : ℕ) → All (λ v. v < k) (w.perm k)) {offer : Ip}
      → ip_equal dst ipv4_bcast ≡ true
      → is_nil opts.server_identifier ≡ true
      → (find_ip
          (w.clock 1)
          (rounds w msg.client_mac)
          w.perm
          opts.requested_ip
          duid
          (w.meanwhile 1 ix)).0
        ≡ ok offer
      → (handle_discover sx w dst duid msg opts ix).0
        ≡ sent (send_msg sx msg offer assemble_offer ∷ [])
  unfolding handle_discover
  handle_discover-offers quiet perm_lt {offer} cast nil h =
      let f =
        find_ip (w.clock 1) (rounds w msg.client_mac) w.perm opts.requested_ip duid
          (w.meanwhile 1 ix) in
      let done : (update_client (w.clock 2) offer duid (15 * second) (w.meanwhile 2 f.1)).0 ≡ none =
        ap (λ x. (update_client (w.clock 2) offer duid (15 * second) x).0) (quiet f.1)
        ∙ update_client-find_ip (w.clock 1) (w.clock 2) (rounds w msg.client_mac) w.perm
            opts.requested_ip duid (w.meanwhile 1 ix) well perm_lt ticks round_ticks (15 * second)
            h in
      rw (handle_discover, cast, nil, h, done) refl
