-- ===== src/Client/Dclient/Leases.antt =====
-- The client's state machine of lib/client/dclient with the server of lib/server: from the discovery
-- to the lease, and its renewal.
use mathlib.Core.Path.{subst}
use psa_dhcp.Base.{ℕ, ◌≡◌, refl, sym, Bool, true, false, some, List, ◌∷◌, length, ◌⊎◌, inl, inr}
use psa_dhcp.Net.{Ip, HardwareAddr}
use psa_dhcp.Dhcpmsg.{Message, DecodedOptions}
use psa_dhcp.Dhcpmsg.Options.{decode_options}
use psa_dhcp.Dhcpmsg.RoundTrip.{as_read}
use psa_dhcp.Server.Replies.{ack_message, offer_message, assemble_ack, assemble_offer}
use psa_dhcp.Server.State.{Server, dhcp_options}
use psa_dhcp.Client.Announced.{IsLeaseReply, announced_duration}
use psa_dhcp.Client.Verify.{verify_selecting_ack, verify_renewing_ack, verify_rebinding_ack}
use psa_dhcp.Client.Verify.Sound.{IsHost}
use psa_dhcp.Client.Dclient.{
  Phase, Dclient, Event, Env, accept, run, run_state_discovering, run_state_selecting,
  run_state_renewing, run_state_rebinding, discovering, selecting, arp_check, renewing, rebinding,
}
use psa_dhcp.Client.Accepted.{
  CanLease, Fits, acked, offered, offered_options, acked_options, offer-caught, ack-caught,
}

-- A client whose last reply was for a lease of `ip` from the server `sx`.
pub record HasLease (sx : Server) (ip : Ip) (dx : Dclient) : Type 0 where
  pub address : dx.last_msg.your_ip ≡ as_read ip
  pub server : dx.last_opts.server_identifier ≡ as_read sx.self_ip
  pub duration : dx.last_opts.ip_address_lease_duration ≡ announced_duration sx
  pub router : length dx.last_opts.routers ≡ 1

-- The states in which a client asks the server of its lease, or any server, to acknowledge it.
pub data Asks (s : Phase) : Type 0 where
  in_selecting : s ≡ selecting → Asks s
  in_renewing : s ≡ renewing → Asks s
  in_rebinding : s ≡ rebinding → Asks s

module _ (env : Env) (e : Event) (sx : Server) (can : CanLease sx) (dx : Dclient) (ip : Ip)
    (host : IsHost (as_read ip)) (flags : ℕ) (packets : List (List ℕ)) where
  accept-HasLease :
      {type : ℕ} (s : Phase) (m : Message) (opts : DecodedOptions)
      → m.your_ip ≡ as_read ip
      → IsLeaseReply type (as_read sx.self_ip) (announced_duration sx) opts
      → HasLease sx ip (accept s m opts dx)
  accept-HasLease s m opts y l = record {
    address = y;
    server = l.is_reply.server_identifier;
    duration = l.is_reply.lease_duration;
    router = l.router;
  }

  -- A client that discovers takes the offer of a server that can lease, and requests it next.
  pub run-selects :
      dx.state ≡ discovering
      → Fits (offer_message e.xid flags sx.self_ip ip dx.iface_addr (dhcp_options sx dx.iface_addr))
      → e.packets
        ≡ assemble_offer e.xid flags sx.self_ip ip dx.iface_addr (dhcp_options sx dx.iface_addr)
          ∷ packets
      → (dx' : Dclient) × (run env e dx ≡ some dx')
        × (dx'.state ≡ selecting)
        × (dx'.iface_addr ≡ dx.iface_addr)
        × HasLease sx ip dx'
  unfolding run run_state_discovering
  run-selects at f read =
      let m = offered sx can dx.iface_addr ip host e.xid flags in
      let opts = decode_options m.options in
      (
        accept selecting m opts dx,
        rw
            (
              run,
              at,
              run_state_discovering,
              read,
              offer-caught sx can dx.iface_addr ip host e.xid flags packets f,
            )
            refl,
        refl,
        refl,
        accept-HasLease selecting m opts refl
            (offered_options sx can dx.iface_addr ip host e.xid flags),
      )

  -- A client that requests, renews or rebinds the lease of a server that can lease takes the server's
  -- ACK of it where that is the first packet, has the lease on record again, and checks it by ARP next.
  pub run-acquires :
      Asks dx.state
      → HasLease sx ip dx
      → Fits (ack_message e.xid flags sx.self_ip ip dx.iface_addr (dhcp_options sx dx.iface_addr))
      → e.packets
        ≡ assemble_ack e.xid flags sx.self_ip ip dx.iface_addr (dhcp_options sx dx.iface_addr)
          ∷ packets
      → (dx' : Dclient) × (run env e dx ≡ some dx') × (dx'.state ≡ arp_check) × HasLease sx ip dx'
  unfolding run run_state_selecting run_state_renewing run_state_rebinding verify_selecting_ack
      verify_renewing_ack verify_rebinding_ack
  run-acquires asks l f read =
      let m = acked sx can dx.iface_addr ip host e.xid flags in
      let opts = decode_options m.options in
      let caught =
        λ (v : Bool) (s : (v ≡ false) ⊎ (dx.last_opts.server_identifier ≡ as_read sx.self_ip)).
          ack-caught sx can dx.iface_addr ip host e.xid flags dx.last_msg dx.last_opts v packets
            l.address s f in
      (
        accept arp_check m opts dx,
        elim asks [
          | in_selecting at ↦
              rw
                (
                  run,
                  at,
                  run_state_selecting,
                  verify_selecting_ack,
                  read,
                  caught true (inr l.server),
                )
                refl
          | in_renewing at ↦
              rw
                (run, at, run_state_renewing, verify_renewing_ack, read, caught true (inr l.server))
                refl
          | in_rebinding at ↦
              rw (run, at, run_state_rebinding, verify_rebinding_ack, read, caught false (inl refl))
                refl
        ],
        refl,
        accept-HasLease arp_check m opts refl
            (acked_options sx can dx.iface_addr ip host e.xid flags),
      )

-- A client that discovers takes, in two rounds whose first packets are the offer of a server that can
-- lease and that server's ACK, the lease: it checks the address by ARP next, and has on record the
-- address, the server, the announced duration in whole seconds and one router.
pub run-leases :
    (env : Env) (e e' : Event) (sx : Server)
    → CanLease sx
    → (dx : Dclient) (ip : Ip) → IsHost (as_read ip)
    → (flags : ℕ) (packets packets' : List (List ℕ)) → dx.state ≡ discovering
    → Fits (offer_message e.xid flags sx.self_ip ip dx.iface_addr (dhcp_options sx dx.iface_addr))
    → Fits (ack_message e'.xid flags sx.self_ip ip dx.iface_addr (dhcp_options sx dx.iface_addr))
    → e.packets
      ≡ assemble_offer e.xid flags sx.self_ip ip dx.iface_addr (dhcp_options sx dx.iface_addr)
        ∷ packets
    → e'.packets
      ≡ assemble_ack e'.xid flags sx.self_ip ip dx.iface_addr (dhcp_options sx dx.iface_addr)
        ∷ packets'
    → (dx1 dx2 : Dclient) × (run env e dx ≡ some dx1)
      × (run env e' dx1 ≡ some dx2)
      × (dx2.state ≡ arp_check)
      × HasLease sx ip dx2
run-leases env e e' sx can dx ip host flags packets packets' at f f' read read' =
    let (dx1, r1, s1, a1, l1) = run-selects env e sx can dx ip host flags packets at f read in
    let g : HardwareAddr → Type 0 = λ (mac : HardwareAddr).
      Fits (ack_message e'.xid flags sx.self_ip ip mac (dhcp_options sx mac)) in
    let h : HardwareAddr → Type 0 = λ (mac : HardwareAddr).
      e'.packets ≡ assemble_ack e'.xid flags sx.self_ip ip mac (dhcp_options sx mac) ∷ packets' in
    let (dx2, r2, s2, l2) =
      run-acquires env e' sx can dx1 ip host flags packets' (in_selecting s1) l1
        (subst g (sym a1) f') (subst h (sym a1) read') in
    (dx1, dx2, r1, r2, s2, l2)
