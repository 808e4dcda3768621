-- ===== src/Client/Announced.antt =====
-- What `DecodeOptions` of lib/dhcpmsg makes of the options that lib/server puts in an offer or an ACK.
use psa_dhcp.Base.{
  ℕ, ◌*◌, ◌/◌, ◌%◌, ◌^◌, ◌<◌, ◌≡◌, refl, ap, arith, Bool, false, Bool-cases, inl, inr, Option, none,
  some, List, [], ◌∷◌, ◌++◌, length,
}
use psa_dhcp.Base.Bytes.{be32, u32-be32}
use psa_dhcp.Net.{Ip, HardwareAddr, is_nil}
use psa_dhcp.Net.Laws.{ip4, ip4-length, four}
use psa_dhcp.Dhcpmsg.{DhcpOpt, DecodedOptions}
use psa_dhcp.Dhcpmsg.Assemble.{
  option_type, option_server_identifier, option_ip_address_lease_duration, option_subnet_mask,
  option_router, option_dns, option_ntp, option_domain_name,
}
use psa_dhcp.Dhcpmsg.Options.{
  second, no_options, decode_option, decode_from, decode_options, to_v4a, to_v4, to_duration,
}
use psa_dhcp.Dhcpmsg.RoundTrip.{as_read}
use psa_dhcp.Ipdb.Duid.{duid_string}
use psa_dhcp.Leaseopts.{LeaseOptions}
use psa_dhcp.Server.State.{Server, dhcp_options, chosen, is_empty, duid_from_hw_addr}

decode_from-append :
    (d : DecodedOptions) (xs ys : List DhcpOpt)
    → decode_from d (xs ++ ys) ≡ decode_from (decode_from d xs) ys
unfolding decode_from
decode_from-append d [] ys = refl
decode_from-append d (x ∷ xs) ys = decode_from-append (decode_option d x.option x.payload) xs ys

pub to_v4a-ip4 : (ip : Ip) → to_v4a (ip4 ip ++ []) ≡ as_read ip ∷ []
unfolding to_v4a
to_v4a-ip4 ip = let (a, b, c, d, e) = four (ip4 ip) (ip4-length ip) in rw e refl

to_duration-be32 : (v : ℕ) → v < 2 ^ 32 → to_duration (be32 v) ≡ second * v
unfolding to_duration
to_duration-be32 v h = ap (λ n. second * n) (u32-be32 v [] h)

-- Options of a reply of this type, of this server, for this many nanoseconds.
pub record IsReply (type : ℕ) (server : Ip) (duration : ℕ) (d : DecodedOptions) : Type 0 where
  pub message_type : d.message_type ≡ type
  pub server_identifier : d.server_identifier ≡ server
  pub lease_duration : d.ip_address_lease_duration ≡ duration

-- ... that name one router.
pub record IsLeaseReply (type : ℕ) (server : Ip) (duration : ℕ) (d : DecodedOptions) : Type 0 where
  pub is_reply : IsReply type server duration d
  pub router : length d.routers ≡ 1

-- What holds of no option and of every option of its kind holds of the one that is chosen.
chosen-cases {ℓ ℓ'} :
    {A : Type ℓ} (P : List DhcpOpt → Type ℓ') (unset : A → Bool) (opt : A → DhcpOpt)
    (field : LeaseOptions → A) (ov : Option LeaseOptions) (lopts : LeaseOptions)
    → P []
    → ((x : A) → P (opt x ∷ []))
    → P (chosen unset opt field ov lopts)
chosen-cases P unset opt field none lopts p q = elim (Bool-cases (unset (field lopts))) [
  | inl e ↦ rw e p
  | inr e ↦ rw e (q (field lopts))
]
chosen-cases P unset opt field (some ov) lopts p q = elim (Bool-cases (unset (field ov))) [
  | inr e ↦ rw e (q (field ov))
  | inl e ↦ elim (Bool-cases (unset (field lopts))) [
    | inl e' ↦ rw (e, e') p
    | inr e' ↦ rw (e, e') (q (field lopts))
  ]
]

-- An option that the server's own options set is chosen, with or without an override.
chosen-set {ℓ ℓ'} :
    {A : Type ℓ} (P : List DhcpOpt → Type ℓ') (unset : A → Bool) (opt : A → DhcpOpt)
    (field : LeaseOptions → A) (ov : Option LeaseOptions) (lopts : LeaseOptions)
    → unset (field lopts) ≡ false
    → ((x : A) → P (opt x ∷ []))
    → P (chosen unset opt field ov lopts)
chosen-set P unset opt field none lopts e q = rw e (q (field lopts))
chosen-set P unset opt field (some ov) lopts e q = elim (Bool-cases (unset (field ov))) [
  | inr e' ↦ rw e' (q (field ov))
  | inl e' ↦ rw (e', e) (q (field lopts))
]

module _ {type : ℕ} {server : Ip} {duration : ℕ} (d : DecodedOptions) where
  routed :
      (router : Ip)
      → IsReply type server duration d
      → IsLeaseReply type server duration (decode_from d (option_router router ∷ []))
  unfolding decode_from decode_option option_router
  routed router r = record {
    is_reply = record {
      message_type = r.message_type;
      server_identifier = r.server_identifier;
      lease_duration = r.lease_duration;
    };
    router = ap length (to_v4a-ip4 router);
  }

  -- An option that none of these fields is read of.
  dns_kept :
      (ips : List Ip)
      → IsLeaseReply type server duration d
      → IsLeaseReply type server duration (decode_from d (option_dns ips ∷ []))
  unfolding decode_from decode_option option_dns
  dns_kept ips l = record {
    is_reply = record {
      message_type = l.is_reply.message_type;
      server_identifier = l.is_reply.server_identifier;
      lease_duration = l.is_reply.lease_duration;
    };
    router = l.router;
  }

  ntp_kept :
      (ips : List Ip)
      → IsLeaseReply type server duration d
      → IsLeaseReply type server duration (decode_from d (option_ntp ips ∷ []))
  unfolding decode_from decode_option option_ntp
  ntp_kept ips l = l

  domain_kept :
      (name : List ℕ)
      → IsLeaseReply type server duration d
      → IsLeaseReply type server duration (decode_from d (option_domain_name name ∷ []))
  unfolding decode_from decode_option option_domain_name
  domain_kept name l = record {
    is_reply = record {
      message_type = l.is_reply.message_type;
      server_identifier = l.is_reply.server_identifier;
      lease_duration = l.is_reply.lease_duration;
    };
    router = l.router;
  }

-- The duration that the server announces: whole seconds.
abbrev pub announced_duration : Server → ℕ
announced_duration sx = second * (sx.lopts.lease_duration / second)

first_options :
    (type : ℕ) (server : Ip) (lopts : LeaseOptions)
    → lopts.lease_duration / second < 2 ^ 32
    → IsReply type (as_read server) (second * (lopts.lease_duration / second)) (
        decode_from no_options (
          option_type type
          ∷ option_server_identifier server
          ∷ option_ip_address_lease_duration lopts.lease_duration
          ∷ option_subnet_mask lopts.netmask
          ∷ []))
unfolding decode_from decode_option option_type option_server_identifier
    option_ip_address_lease_duration option_subnet_mask to_v4 psa_dhcp.Dhcpmsg.Options.to_uint8
first_options type server lopts small = record {
  message_type = refl;
  server_identifier = rw (to_v4a-ip4 server) refl;
  lease_duration = rw (seconds (lopts.lease_duration / second) small) (to_duration-be32 _ small);
}
  where
    seconds : (n : ℕ) → n < 2 ^ 32 → n % 2 ^ 32 ≡ n
    seconds n h = omega (arith, h)

-- The optional ones, one after the other.
chosen_options :
    {type : ℕ} {server : Ip} {duration : ℕ} (d : DecodedOptions) (first : List DhcpOpt)
    (ov : Option LeaseOptions) (lopts : LeaseOptions)
    → is_nil lopts.router ≡ false
    → IsReply type server duration (decode_from d first)
    → IsLeaseReply type server duration (
        decode_from d (
          first
          ++ chosen is_nil option_router (λ o. o.router) ov lopts
          ++ chosen is_empty option_dns (λ o. o.dns) ov lopts
          ++ chosen is_empty option_ntp (λ o. o.ntp) ov lopts
          ++ chosen is_nil option_domain_name (λ o. o.domain) ov lopts))
unfolding decode_from
chosen_options {type} {server} {duration} d first ov lopts router r =
    let d0 = decode_from d first in
    let routers = chosen is_nil option_router (λ (o : LeaseOptions). o.router) ov lopts in
    let dns = chosen is_empty option_dns (λ (o : LeaseOptions). o.dns) ov lopts in
    let ntp = chosen is_empty option_ntp (λ (o : LeaseOptions). o.ntp) ov lopts in
    let l1 =
      chosen-set (λ os. IsLeaseReply type server duration (decode_from d0 os)) is_nil option_router
        (λ o. o.router) ov lopts router (λ x. routed d0 x r) in
    let d1 = decode_from d0 routers in
    let l2 =
      chosen-cases (λ os. IsLeaseReply type server duration (decode_from d1 os)) is_empty option_dns
        (λ o. o.dns) ov lopts l1 (λ x. dns_kept d1 x l1) in
    let d2 = decode_from d1 dns in
    let l3 =
      chosen-cases (λ os. IsLeaseReply type server duration (decode_from d2 os)) is_empty option_ntp
        (λ o. o.ntp) ov lopts l2 (λ x. ntp_kept d2 x l2) in
    let d3 = decode_from d2 ntp in
    let l4 =
      chosen-cases (λ os. IsLeaseReply type server duration (decode_from d3 os)) is_nil
        option_domain_name (λ o. o.domain) ov lopts l3 (λ x. domain_kept d3 x l3) in
    rw
      (
        decode_from-append d (first ++ routers ++ dns ++ ntp) _,
        decode_from-append d (first ++ routers ++ dns) ntp,
        decode_from-append d (first ++ routers) dns,
        decode_from-append d first routers,
      )
      l4

-- A client reads of the server's options the type and the server that come before them, the lease
-- in whole seconds, and a router where the server's own options have one.
pub decode_options-dhcp_options :
    (type : ℕ) (server : Ip) (sx : Server) (mac : HardwareAddr)
    → is_nil sx.lopts.router ≡ false
    → sx.lopts.lease_duration / second < 2 ^ 32
    → IsLeaseReply type (as_read server) (announced_duration sx) (
        decode_options
          ((option_type type ∷ option_server_identifier server ∷ []) ++ dhcp_options sx mac))
unfolding decode_options dhcp_options decode_from
decode_options-dhcp_options type server sx mac router small =
    chosen_options
      (decode_from no_options (option_type type ∷ option_server_identifier server ∷ []))
      (option_ip_address_lease_duration sx.lopts.lease_duration
        ∷ option_subnet_mask sx.lopts.netmask
        ∷ [])
      (sx.overrides (duid_string (duid_from_hw_addr mac))) sx.lopts router
      (first_options type server sx.lopts small)
