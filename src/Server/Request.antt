-- ===== src/Server/Request.antt =====
-- What a client that requests an address gets.
use psa_dhcp.Base.{
  ℕ, ◌+◌, ◌≤◌, ◌≡◌, refl, sym, ap, ◌∙◌, true, false, Bool, not, ◌&&◌, Option, none, some, [], ◌∷◌,
  Result, ok, err, ◌⊎◌, inl, inr, Option-cases, Result-cases, Bool-cases, All,
}
use psa_dhcp.Base.Bytes.{IsByte}
use psa_dhcp.Net.{Ip, is_nil, ip_equal, ipv4_bcast}
use psa_dhcp.Dhcpmsg.{Message, DecodedOptions}
use psa_dhcp.Ipdb.Uip.{to_v4}
use psa_dhcp.Ipdb.Duid.{Duid}
use psa_dhcp.Ipdb.Db.{Ipdb, to_uip, in_managed_range, lookup_client_by_duid, update_client}
use psa_dhcp.Ipdb.Db.Range.{to_v4-to_uip}
use psa_dhcp.Ipdb.Db.WellFormed.{
  IsWellFormed, IsWellFormed-later, lookup_client_by_duid-IsWellFormed,
}
use psa_dhcp.Ipdb.Db.Leases.{update_client-is_found, lookup_client_by_duid-ok}
use psa_dhcp.Ipdb.Db.Offers.Recorded.{update_client-lookup_client_by_duid}
use psa_dhcp.Server.State.{Server, arp_verify}
use psa_dhcp.Server.Replies.{assemble_ack}
use psa_dhcp.Server.Handlers.{
  World, Outcome, sent, send_nack, send_msg, desired_ip, confirm, handle_request,
}

module _ (sx : Server) (w : World) (desired : Ip) (duid : Duid) (msg : Message) (ix : Ipdb) where
  abbrev pub looked : Result psa_dhcp.Ipdb.Db.IpdbError Ip × Ipdb
  looked = lookup_client_by_duid (w.clock 1) duid (w.meanwhile 1 ix)

  abbrev pub updated : Ip → Option psa_dhcp.Ipdb.Db.IpdbError × Ipdb
  updated lease =
      update_client (w.clock 2) lease duid sx.lopts.lease_duration (w.meanwhile 2 looked.1)

  -- How the confirmation of a request ends.
  pub data Confirmed : Outcome × Ipdb → Type 0 where
    no_lease :
        {e : psa_dhcp.Ipdb.Db.IpdbError}
        → looked.0 ≡ err e
        → Confirmed (sent (send_nack sx msg.xid msg.client_mac ∷ []), looked.1)
    another :
        (lease : Ip)
        → looked.0 ≡ ok lease
        → ip_equal desired lease ≡ false
        → Confirmed (sent (send_nack sx msg.xid msg.client_mac ∷ []), looked.1)
    occupied :
        (lease : Ip)
        → looked.0 ≡ ok lease
        → ip_equal desired lease ≡ true
        → arp_verify msg.client_mac (w.ping 0 lease) ≡ false
        → Confirmed (sent (send_nack sx msg.xid msg.client_mac ∷ []), looked.1)
    lost :
        (lease : Ip) {e : psa_dhcp.Ipdb.Db.IpdbError}
        → (updated lease).0 ≡ some e
        → Confirmed (sent [], (updated lease).1)
    acknowledged :
        (lease : Ip)
        → looked.0 ≡ ok lease
        → ip_equal desired lease ≡ true
        → arp_verify msg.client_mac (w.ping 0 lease) ≡ true
        → (updated lease).0 ≡ none
        → Confirmed (sent (send_msg sx msg lease assemble_ack ∷ []), (updated lease).1)

  pub confirm-Confirmed : Confirmed (confirm sx w desired duid msg ix)
  unfolding confirm
  confirm-Confirmed = elim (Result-cases looked.0) [
    | inr (e, h) ↦ rw (confirm, h) (no_lease h)
    | inl (lease, h) ↦ elim (Bool-cases (ip_equal desired lease)) [
      | inr other ↦ rw (confirm, h, other) (another lease h other)
      | inl same ↦ elim (Bool-cases (arp_verify msg.client_mac (w.ping 0 lease))) [
        | inr busy ↦ rw (confirm, h, same, busy) (occupied lease h same busy)
        | inl free ↦ elim (Option-cases (updated lease).0) [
          | inr (e, h') ↦ rw (confirm, h, same, free, h') (lost lease h')
          | inl h' ↦ rw (confirm, h, same, free, h') (acknowledged lease h same free h')
        ]
      ]
    ]
  ]

module _ (sx : Server) (w : World) (desired : Ip) (duid : Duid) (msg : Message) (ix : Ipdb)
    (well : IsWellFormed (w.clock 1) (w.meanwhile 1 ix)) (ticks : w.clock 1 ≤ w.clock 2) where
  -- A request that is confirmed ends with nothing sent, or with one NAK, or with one ACK; and the
  -- address of an ACK equals the desired one, passed the ARP check, and is the one that the
  -- database has for the client at any time until the announced duration ends. The database is
  -- well formed at the look-up, which is not later than the update, other handlers keep it so
  -- between the two, and the client's identifier is made of bytes.
  pub confirm-is_recorded :
      (keeps : (ix1 : Ipdb)
        → IsWellFormed (w.clock 2) ix1
        → IsWellFormed (w.clock 2) (w.meanwhile 2 ix1))
      (bytes : All IsByte duid) (later : ℕ)
      → later ≤ w.clock 2 + sx.lopts.lease_duration
      → ((confirm sx w desired duid msg ix).0 ≡ sent [])
        ⊎ (((confirm sx w desired duid msg ix).0 ≡ sent (send_nack sx msg.xid msg.client_mac ∷ []))
            ⊎ ((lease : Ip) × ((confirm sx w desired duid msg ix).0
                  ≡ sent (send_msg sx msg lease assemble_ack ∷ []))
                × (ip_equal desired lease ≡ true)
                × (arp_verify msg.client_mac (w.ping 0 lease) ≡ true)
                × ((lookup_client_by_duid later duid (confirm sx w desired duid msg ix).1).0
                    ≡ ok lease)))
  confirm-is_recorded keeps bytes later h = go (confirm-Confirmed sx w desired duid msg ix)
    where
      go :
          {r : Outcome × Ipdb}
          → Confirmed sx w desired duid msg ix r
          → (r.0 ≡ sent [])
            ⊎ ((r.0 ≡ sent (send_nack sx msg.xid msg.client_mac ∷ []))
                ⊎ ((lease : Ip) × (r.0 ≡ sent (send_msg sx msg lease assemble_ack ∷ []))
                    × (ip_equal desired lease ≡ true)
                    × (arp_verify msg.client_mac (w.ping 0 lease) ≡ true)
                    × ((lookup_client_by_duid later duid r.1).0 ≡ ok lease)))
      go (no_lease e) = inr (inl refl)
      go (another lease e _) = inr (inl refl)
      go (occupied lease e _ _) = inr (inl refl)
      go (lost lease e) = inl refl
      go (acknowledged lease e same free done) =
          let ix1 = (looked sx w desired duid msg ix).1 in
          let well1 = lookup_client_by_duid-IsWellFormed well duid in
          let well2 = keeps ix1 (IsWellFormed-later ticks well1) in
          let (n, hn, found) =
            update_client-is_found (w.clock 2) lease duid sx.lopts.lease_duration later
              (w.meanwhile 2 ix1) well2 bytes done h in
          let (p, _, _, hk) = lookup_client_by_duid-ok (w.clock 1) duid (w.meanwhile 1 ix) e in
          let same_address : to_v4 n ≡ lease =
            to_v4-to_uip (w.meanwhile 2 ix1) _ n (ap (to_uip (w.meanwhile 2 ix1)) hk ∙ hn) ∙ hk in
          inr (inr (lease, refl, same, free, found ∙ ap ok same_address))

  -- If the database is well formed, the update is not earlier than the look-up, and no other
  -- handler comes between them, then a client that desires the address of its lease, which passes
  -- the ARP check, is answered with the ACK of it.
  pub confirm-acknowledges :
      (quiet : (ix1 : Ipdb) → w.meanwhile 2 ix1 ≡ ix1) {lease : Ip}
      → (lookup_client_by_duid (w.clock 1) duid (w.meanwhile 1 ix)).0 ≡ ok lease
      → ip_equal desired lease ≡ true
      → arp_verify msg.client_mac (w.ping 0 lease) ≡ true
      → (confirm sx w desired duid msg ix).0 ≡ sent (send_msg sx msg lease assemble_ack ∷ [])
  unfolding confirm
  confirm-acknowledges quiet {lease} h same free =
      let ix1 = (lookup_client_by_duid (w.clock 1) duid (w.meanwhile 1 ix)).1 in
      let done : (update_client (w.clock 2) lease duid sx.lopts.lease_duration
            (w.meanwhile 2 ix1)).0
          ≡ none =
        ap (λ x. (update_client (w.clock 2) lease duid sx.lopts.lease_duration x).0) (quiet ix1)
        ∙ update_client-lookup_client_by_duid (w.clock 1) (w.clock 2) duid sx.lopts.lease_duration
            (w.meanwhile 1 ix) well ticks h in
      rw (confirm, h, same, free, done) refl

last_of_three : (a b c : Bool) → (a && b && not c) ≡ true → c ≡ false
last_of_three a b true h = cc (ends a b)
  where
    ends : (a b : Bool) → (a && b && false) ≡ false
    ends true true = refl
    ends true false = refl
    ends false b = refl
last_of_three a b false h = refl

desired_ip-not_nil :
    (sx : Server) (src dst : Ip) (opts : DecodedOptions) {desired : Ip}
    → is_nil src ≡ false
    → desired_ip sx src dst opts ≡ some desired
    → is_nil desired ≡ false
unfolding desired_ip
desired_ip-not_nil sx src dst opts {desired} source h = elim (Bool-cases reboot) [
  | inl e ↦
      ap is_nil (sym (some_ip (rw (desired_ip, e) at h)))
      ∙ last_of_three (ip_equal dst ipv4_bcast) (is_nil opts.server_identifier) _ e
  | inr e ↦ elim (Bool-cases selecting) [
    | inl e' ↦
        ap is_nil (sym (some_ip (rw (desired_ip, e, e') at h)))
        ∙ last_of_three (ip_equal dst ipv4_bcast) (ip_equal opts.server_identifier sx.self_ip) _ e'
    | inr e' ↦ elim (Bool-cases renewing) [
      | inl e'' ↦ ap is_nil (sym (some_ip (rw (desired_ip, e, e', e'') at h))) ∙ source
      | inr e'' ↦ elim (Bool-cases rebinding) [
        | inl e3 ↦ ap is_nil (sym (some_ip (rw (desired_ip, e, e', e'', e3) at h))) ∙ source
        | inr e3 ↦ cc (rw (desired_ip, e, e', e'', e3) at h)
      ]
    ]
  ]
]
  where
    some_ip : {a b : Ip} → ◌≡◌ {A = Option Ip} (some a) (some b) → a ≡ b
    some_ip h = cc

    reboot : Bool
    reboot =
        ip_equal dst ipv4_bcast && is_nil opts.server_identifier && not (is_nil opts.requested_ip)

    selecting : Bool
    selecting =
        ip_equal dst ipv4_bcast
        && ip_equal opts.server_identifier sx.self_ip
        && not (is_nil opts.requested_ip)

    renewing : Bool
    renewing = ip_equal dst sx.self_ip && is_nil opts.server_identifier && is_nil opts.requested_ip

    rebinding : Bool
    rebinding = ip_equal dst ipv4_bcast && is_nil opts.server_identifier && is_nil opts.requested_ip

-- A request whose packet has a source address is dropped, with no change by this handler, or it is
-- about one desired address, in the managed range, and is confirmed; so it does not panic before
-- that.
pub handle_request-confirms :
    (sx : Server) (w : World) (src dst : Ip) (duid : Duid) (msg : Message) (opts : DecodedOptions)
    (ix : Ipdb)
    → is_nil src ≡ false
    → (handle_request sx w src dst duid msg opts ix ≡ (sent [], ix))
      ⊎ ((handle_request sx w src dst duid msg opts ix ≡ (sent [], w.meanwhile 0 ix))
          ⊎ ((desired : Ip) × (desired_ip sx src dst opts ≡ some desired)
              × (in_managed_range (w.meanwhile 0 ix) desired ≡ true)
              × (handle_request sx w src dst duid msg opts ix
                  ≡ confirm sx w desired duid msg (w.meanwhile 0 ix))))
unfolding handle_request
handle_request-confirms sx w src dst duid msg opts ix source =
    elim (Option-cases (desired_ip sx src dst opts)) [
      | inl e ↦ inl (rw (handle_request, e) refl)
      | inr (desired, e) ↦ elim (Bool-cases (in_managed_range (w.meanwhile 0 ix) desired)) [
        | inr away ↦
            inr
              (inl (rw (handle_request, e, desired_ip-not_nil sx src dst opts source e, away) refl))
        | inl here ↦ inr (
            inr (
              desired,
              e,
              here,
              rw (handle_request, e, desired_ip-not_nil sx src dst opts source e, here) refl,
            ))
      ]
    ]
