-- ===== src/Server/OwnAddress.antt =====
-- The server's own address is never given away.
use mathlib.Core.Path.{subst}
use psa_dhcp.Base.{
  ℕ, ◌*◌, ◌≡◌, ◌≢◌, ◌==◌, sym, ap, false, List, [], ◌∷◌, inl, inr, Result-cases, Bool-cases, All,
  bytes_eq, bytes_eq_iff, ltb, arith, length, drop,
}
use psa_dhcp.Base.Bytes.{IsByte}
use psa_dhcp.Net.{Ip, HardwareAddr, is_nil, ip_equal, to4}
use psa_dhcp.Dhcpmsg.{Message, DecodedOptions, msg_type_discover, msg_type_request}
use psa_dhcp.Dhcpmsg.Options.{decode_options, second}
use psa_dhcp.Ipdb.Duid.{Duid, duid_string}
use psa_dhcp.Ipdb.Keys.{duid_string-injective}
use psa_dhcp.Ipdb.Db.{Ipdb, lookup_client_by_duid}
use psa_dhcp.Ipdb.Db.Reserved.{
  HasHolder, Calls, no_call, then_call, Calls-trans, Calls-HasHolder, looked_up, searched,
  update_client-holder,
}
use psa_dhcp.Server.State.{Server, duid_from_hw_addr, get_duid}
use psa_dhcp.Server.Replies.{assemble_offer, assemble_ack}
use psa_dhcp.Server.Handlers.{
  World, Outcome, sent, rounds, send_nack, send_msg, confirm, handle_discover, handle_request,
  handle_msg,
}
use psa_dhcp.Server.Discover.{Discovered, dropped, unserved, offered, handle_discover-Discovered}
use psa_dhcp.Server.Request.{
  Confirmed, no_lease, another, occupied, lost, acknowledged, confirm-Confirmed,
  handle_request-confirms,
}

-- An outcome in which no address but others than `self` is offered or acknowledged.
pub data Spares (self : Ip) (sx : Server) (msg : Message) : Outcome → Type 0 where
  silent : Spares self sx msg (sent [])
  refuses : Spares self sx msg (sent (send_nack sx msg.xid msg.client_mac ∷ []))
  offers :
      (ip : Ip)
      → to4 ip ≢ to4 self
      → Spares self sx msg (sent (send_msg sx msg ip assemble_offer ∷ []))
  acknowledges :
      (ip : Ip)
      → to4 ip ≢ to4 self
      → Spares self sx msg (sent (send_msg sx msg ip assemble_ack ∷ []))

-- What other handlers do are calls of the database's methods.
abbrev pub ByCalls : World → Type 0
ByCalls w = (i : ℕ) (ix : Ipdb) → Calls ix (w.meanwhile i ix)

module _ (sx : Server) (w : World) (others : ByCalls w) {self : Ip} {d : Duid} (duid : Duid)
    (apart : duid_string duid ≢ duid_string d) (msg : Message) (ix : Ipdb)
    (held : HasHolder self d ix) where
  handle_discover-Spares :
      (dst : Ip) (opts : DecodedOptions)
      → Spares self sx msg (handle_discover sx w dst duid msg opts ix).0
  handle_discover-Spares dst opts = go (handle_discover-Discovered sx w dst duid msg opts ix)
    where
      go : {r : Outcome × Ipdb} → Discovered sx w duid msg opts ix r → Spares self sx msg r.0
      go dropped = silent
      go (unserved ix') = silent
      go (offered offer ix1 e done) =
          let ix0 = w.meanwhile 1 ix in
          let one =
            then_call (others 1 ix)
              (searched (w.clock 1) (rounds w msg.client_mac) w.perm opts.requested_ip duid) in
          let two = Calls-trans (subst (Calls ix) (ap (λ r. r.1) e) one) (others 2 ix1) in
          offers offer (λ same.
            update_client-holder (Calls-HasHolder held two) (w.clock 2) offer duid (15 * second)
              same apart done)

  confirm-Spares : (desired : Ip) → Spares self sx msg (confirm sx w desired duid msg ix).0
  confirm-Spares desired = go (confirm-Confirmed sx w desired duid msg ix)
    where
      go : {r : Outcome × Ipdb} → Confirmed sx w desired duid msg ix r → Spares self sx msg r.0
      go (no_lease e) = refuses
      go (another lease e _) = refuses
      go (occupied lease e _ _) = refuses
      go (lost lease e) = silent
      go (acknowledged lease e same free done) =
          let one = then_call (others 1 ix) (looked_up (w.clock 1) duid) in
          let two = Calls-trans one (others 2 _) in
          acknowledges lease (λ same.
            update_client-holder (Calls-HasHolder held two) (w.clock 2) lease duid
              sx.lopts.lease_duration same apart done)

handle_request-Spares :
    (sx : Server) (w : World)
    → ByCalls w
    → {self : Ip} {d : Duid} (src dst : Ip) (duid : Duid) (msg : Message) (opts : DecodedOptions)
      (ix : Ipdb)
    → HasHolder self d ix
    → duid_string duid ≢ duid_string d
    → is_nil src ≡ false
    → Spares self sx msg (handle_request sx w src dst duid msg opts ix).0
handle_request-Spares sx w others {self} src dst duid msg opts ix held apart source =
    elim (handle_request-confirms sx w src dst duid msg opts ix source) [
      | inl e ↦ subst (λ r. Spares self sx msg r.0) (sym e) silent
      | inr (inl e) ↦ subst (λ r. Spares self sx msg r.0) (sym e) silent
      | inr (inr (desired, _, _, e)) ↦
          subst (λ r. Spares self sx msg r.0) (sym e)
            (confirm-Spares sx w others duid apart msg (w.meanwhile 0 ix)
              (Calls-HasHolder held (others 0 ix)) desired)
    ]

hw_addr-apart :
    (a b : HardwareAddr)
    → All IsByte a
    → All IsByte b
    → a ≢ b
    → duid_string (duid_from_hw_addr a) ≢ duid_string (duid_from_hw_addr b)
unfolding duid_from_hw_addr
hw_addr-apart a b ha hb ne e =
    ne (ap (drop 4) (duid_string-injective _ _ (internal a ha) (internal b hb) e))
  where
    internal : (l : List ℕ) → All IsByte l → All IsByte (0 ∷ 3 ∷ 0 ∷ 0 ∷ l)
    internal l h = (omega arith, (omega arith, (omega arith, (omega arith, h))))

-- The identifier that a client is given is not the server's own.
get_duid-apart :
    (sx : Server) (now : ℕ) (mac : HardwareAddr) (cid : List ℕ) (ix : Ipdb)
    → All IsByte mac
    → All IsByte sx.iface_addr
    → bytes_eq sx.iface_addr mac ≡ false
    → duid_string cid ≢ duid_string (duid_from_hw_addr sx.iface_addr)
    → duid_string (get_duid now mac cid ix).0 ≢ duid_string (duid_from_hw_addr sx.iface_addr)
unfolding get_duid
get_duid-apart sx now mac cid ix bytes own_bytes apart other =
    elim (Result-cases (lookup_client_by_duid now (duid_from_hw_addr mac) ix).0) [
      | inl (ip, e) ↦ rw (e, get_duid) not_own
      | inr (er, e) ↦ elim (Bool-cases (ltb (length cid) 4)) [
        | inl short ↦ rw (e, get_duid, short) not_own
        | inr long ↦ rw (e, get_duid, long) other
      ]
    ]
  where
    apart_ne : sx.iface_addr ≢ mac
    apart_ne e = cc ((bytes_eq_iff sx.iface_addr mac).1 e)

    not_own : duid_string (duid_from_hw_addr mac) ≢ duid_string (duid_from_hw_addr sx.iface_addr)
    not_own = hw_addr-apart mac sx.iface_addr bytes own_bytes (λ e. apart_ne (sym e))

get_duid-Calls :
    (now : ℕ) (mac : HardwareAddr) (cid : List ℕ) (ix : Ipdb) → Calls ix (get_duid now mac cid ix).1
unfolding get_duid
get_duid-Calls now mac cid ix =
    elim (Result-cases (lookup_client_by_duid now (duid_from_hw_addr mac) ix).0) [
      | inl (ip, e) ↦ rw (e, get_duid) (then_call no_call (looked_up now (duid_from_hw_addr mac)))
      | inr (er, e) ↦ rw (e, get_duid) (then_call no_call (looked_up now (duid_from_hw_addr mac)))
    ]

-- A message whose client identifier does not spell the one that the server gives itself, in a packet
-- with a source address, does not get the server's own address, if the database holds that address
-- for the server's own identifier as a permanent client's: whatever is offered or acknowledged is
-- another one. Hardware addresses are made of bytes. Other handlers may make any calls of the
-- database between those of this one.
pub handle_msg-Spares :
    (sx : Server) (w : World) (src dst : Ip) (msg : Message) (ix : Ipdb)
    → HasHolder sx.self_ip (duid_from_hw_addr sx.iface_addr) ix
    → ByCalls w
    → is_nil src ≡ false
    → All IsByte msg.client_mac
    → All IsByte sx.iface_addr
    → duid_string (decode_options msg.options).client_identifier
      ≢ duid_string (duid_from_hw_addr sx.iface_addr)
    → Spares sx.self_ip sx msg (handle_msg sx w src dst msg ix).0
unfolding handle_msg
handle_msg-Spares sx w src dst msg ix held others source bytes own_bytes other =
    elim (Bool-cases (bytes_eq sx.iface_addr msg.client_mac)) [
      | inl mine ↦ rw (handle_msg, mine) silent
      | inr not_mine ↦ elim (Bool-cases (ip_equal sx.self_ip opts.requested_ip)) [
        | inl asks ↦ rw (handle_msg, not_mine, asks) silent
        | inr no_ask ↦
            let apart =
              get_duid-apart sx (w.clock 0) msg.client_mac opts.client_identifier ix bytes own_bytes
                not_mine other in
            let held1 =
              Calls-HasHolder held
                (get_duid-Calls (w.clock 0) msg.client_mac opts.client_identifier ix) in
            elim (Bool-cases (opts.message_type == msg_type_discover)) [
              | inl disc ↦
                  rw (handle_msg, not_mine, no_ask, disc)
                    (handle_discover-Spares sx w others got.0 apart msg got.1 held1 dst opts)
              | inr no_disc ↦ elim (Bool-cases (opts.message_type == msg_type_request)) [
                | inl req ↦
                    rw (handle_msg, not_mine, no_ask, no_disc, req)
                      (handle_request-Spares sx w others src dst got.0 msg opts got.1 held1 apart
                        source)
                | inr no_req ↦ rw (handle_msg, not_mine, no_ask, no_disc, no_req) silent
              ]
            ]
      ]
    ]
  where
    opts : DecodedOptions
    opts = decode_options msg.options

    got : Duid × Ipdb
    got = get_duid (w.clock 0) msg.client_mac opts.client_identifier ix
