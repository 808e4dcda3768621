-- ===== src/Client/Verify/Sound.antt =====
-- What a reply that the client accepts is like.
use psa_dhcp.Base.{
  ℕ, ◌≤◌, ◌≡◌, ◌≢◌, ◌↔◌, refl, arith, true, false, Bool, not, ◌&&◌, ◌||◌, ◌==◌, ltb, length,
  Bool-cases, inl, inr, ==_iff, ne→not-==, le→not-ltb,
}
use psa_dhcp.Net.{Ip, ip_equal, is_nil, ipv4_zero, ipv4_bcast}
use psa_dhcp.Dhcpmsg.{Message, DecodedOptions, msg_type_offer, msg_type_ack, msg_type_nack}
use psa_dhcp.Client.Verify.{passed, min_lease, verify_common, verify_offer, verify_gen_ack}

-- An address that a host can have.
pub record IsHost (ip : Ip) : Type 0 where
  pub given : is_nil ip ≡ false
  pub not_zero : ip_equal ip ipv4_zero ≡ false
  pub not_bcast : ip_equal ip ipv4_bcast ≡ false

-- A lease that can be used: the transaction's, with a router, for a host, from a host, for a minute
-- or more.
pub record IsLease (xid : ℕ) (m : Message) (opt : DecodedOptions) : Type 0 where
  pub transaction : m.xid ≡ xid
  pub router : length opt.routers ≢ 0
  pub address : IsHost m.your_ip
  pub server : IsHost opt.server_identifier
  pub duration : min_lease ≤ opt.ip_address_lease_duration

no_test : (a b c : Bool) → (a || b || c) ≡ false → (a ≡ false) × (b ≡ false) × (c ≡ false)
no_test true b c h = cc
no_test false true c h = cc
no_test false false c h = (refl, refl, h)

no_test4 :
    (a b c d : Bool)
    → (a || b || c || d) ≡ false
    → (a ≡ false) × (b ≡ false) × (c ≡ false) × (d ≡ false)
no_test4 true b c d h = cc
no_test4 false b c d h = let (hb, hc, hd) = no_test b c d h in (refl, hb, hc, hd)

verify_common-passed :
    (xid : ℕ) (m : Message) (opt : DecodedOptions)
    → verify_common xid m opt ≡ passed
    → IsLease xid m opt
unfolding verify_common
verify_common-passed xid m opt h = elim (Bool-cases (m.xid == xid)) [
  | inr e ↦ cc (rw (verify_common, e) at h)
  | inl e ↦
      elim (Bool-cases (
        length opt.routers == 0
        || is_nil m.your_ip
        || ip_equal m.your_ip ipv4_zero
        || ip_equal m.your_ip ipv4_bcast)) [
          | inl bad ↦ cc (rw (verify_common, e, bad) at h)
          | inr good ↦
              elim (Bool-cases (
                is_nil opt.server_identifier
                || ip_equal opt.server_identifier ipv4_zero
                || ip_equal opt.server_identifier ipv4_bcast)) [
                  | inl bad ↦ cc (rw (verify_common, e, good, bad) at h)
                  | inr good' ↦ elim (Bool-cases (ltb opt.ip_address_lease_duration min_lease)) [
                    | inl bad ↦ cc (rw (verify_common, e, good, good', bad) at h)
                    | inr long ↦
                        let (r, a, b, c) =
                          no_test4 (length opt.routers == 0) (is_nil m.your_ip)
                            (ip_equal m.your_ip ipv4_zero) (ip_equal m.your_ip ipv4_bcast) good in
                        let (a', b', c') =
                          no_test (is_nil opt.server_identifier)
                            (ip_equal opt.server_identifier ipv4_zero)
                            (ip_equal opt.server_identifier ipv4_bcast) good' in
                        record {
                          transaction = (==_iff m.xid xid).0 e;
                          router = λ z. nonzero (length opt.routers) r z;
                          address = record { given = a; not_zero = b; not_bcast = c };
                          server = record { given = a'; not_zero = b'; not_bcast = c' };
                          duration = long_enough opt.ip_address_lease_duration long;
                        }
                  ]
                ]
        ]
]
  where
    nonzero : (n : ℕ) → (n == 0) ≡ false → n ≡ 0 → ⊥
    nonzero n h z = ground arith

    long_enough : (d : ℕ) → ltb d min_lease ≡ false → min_lease ≤ d
    long_enough d h = ground arith

verify_common-IsLease :
    (xid : ℕ) (m : Message) (opt : DecodedOptions)
    → IsLease xid m opt
    → verify_common xid m opt ≡ passed
unfolding verify_common
verify_common-IsLease xid m opt l =
    rw
      (
        verify_common,
        (==_iff m.xid xid).1 l.transaction,
        ne→not-== (length opt.routers) 0 l.router,
        l.address.given,
        l.address.not_zero,
        l.address.not_bcast,
        l.server.given,
        l.server.not_zero,
        l.server.not_bcast,
        le→not-ltb opt.ip_address_lease_duration min_lease l.duration,
      )
      refl

-- The client takes an offer if and only if it is an offer of a lease that it can use.
pub verify_offer_iff :
    (xid : ℕ) (m : Message) (opt : DecodedOptions)
    → (verify_offer xid m opt ≡ passed) ↔ ((opt.message_type ≡ msg_type_offer) × IsLease xid m opt)
unfolding verify_offer
verify_offer_iff xid m opt = (
  λ h. elim (Bool-cases (opt.message_type == msg_type_offer)) [
    | inr e ↦ cc (rw (verify_offer, e) at h)
    | inl e ↦ ((==_iff _ _).0 e, verify_common-passed xid m opt (rw (verify_offer, e) at h))
  ],
  λ (t, l).
      rw (verify_offer, (==_iff opt.message_type msg_type_offer).1 t)
        (verify_common-IsLease xid m opt l),
)

-- The client takes an acknowledgement if and only if it is one, for the address of its last message,
-- from the server of that message where this is to be checked, of a lease that it can use.
pub verify_gen_ack_iff :
    (lm : Message) (lopt : DecodedOptions) (xid : ℕ) (vrfysi : Bool) (m : Message)
    (opt : DecodedOptions)
    → (verify_gen_ack lm lopt xid vrfysi m opt ≡ passed) ↔ (
        (opt.message_type ≡ msg_type_ack)
        × (ip_equal m.your_ip lm.your_ip ≡ true)
        × ((vrfysi && not (ip_equal opt.server_identifier lopt.server_identifier)) ≡ false)
        × IsLease xid m opt)
unfolding verify_gen_ack
verify_gen_ack_iff lm lopt xid vrfysi m opt = (
  λ h. elim (Bool-cases (opt.message_type == msg_type_nack)) [
    | inl e ↦ cc (rw (verify_gen_ack, e) at h)
    | inr n ↦ elim (Bool-cases (opt.message_type == msg_type_ack)) [
      | inr e ↦ cc (rw (verify_gen_ack, n, e) at h)
      | inl t ↦ elim (Bool-cases (ip_equal m.your_ip lm.your_ip)) [
        | inr e ↦ cc (rw (verify_gen_ack, n, t, e) at h)
        | inl a ↦
            elim (Bool-cases
              (vrfysi && not (ip_equal opt.server_identifier lopt.server_identifier))) [
                | inl e ↦ cc (rw (verify_gen_ack, n, t, a, e) at h)
                | inr s ↦ (
                  (==_iff _ _).0 t,
                  a,
                  s,
                  verify_common-passed xid m opt (rw (verify_gen_ack, n, t, a, s) at h),
                )
              ]
      ]
    ]
  ],
  λ (t, a, s, l). rw (verify_gen_ack, t, a, s) (verify_common-IsLease xid m opt l),
)
