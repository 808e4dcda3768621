-- ===== src/Client/Dclient/Safe.antt =====
-- A client is safe if it has a router whenever it has a lease; what it catches was verified.
use psa_dhcp.Base.{
  ℕ, ◌≡◌, ◌≢◌, refl, true, false, Bool, Option, some, List, [], ◌∷◌, length, ◌⊎◌, inl, inr,
  Option-cases,
}
use psa_dhcp.Net.{HardwareAddr}
use psa_dhcp.Dhcpmsg.{Message, DecodedOptions}
use psa_dhcp.Dhcpmsg.Options.{decode_options}
use psa_dhcp.Client.Verify.{
  Verdict, failed, passed, is_nack, verify_selecting_ack, verify_renewing_ack, verify_rebinding_ack,
}
use psa_dhcp.Client.Verify.Sound.{verify_gen_ack_iff}
use psa_dhcp.Client.Dclient.{
  Phase, invalid, purge_interface, discovering, selecting, arp_check, ifconfig, bound, renewing,
  rebinding, Dclient, Caught, reply, nack, nothing, message_of, catch_reply,
}

-- What is caught as a reply has passed the check.
pub catch_reply-passed :
    (hwaddr : HardwareAddr) (vrfy : Message → DecodedOptions → Verdict) (packets : List (List ℕ))
    {msg : Message} {opts : DecodedOptions}
    → catch_reply hwaddr vrfy packets ≡ reply msg opts
    → vrfy msg opts ≡ passed
unfolding catch_reply
catch_reply-passed hwaddr vrfy [] h = cc
catch_reply-passed hwaddr vrfy (b ∷ packets) h = elim (Option-cases (message_of hwaddr b)) [
  | inl e ↦ catch_reply-passed hwaddr vrfy packets (rw (e, catch_reply) at h)
  | inr (m, e) ↦ elim (Verdict-cases (vrfy m (decode_options m.options))) [
    | inl v ↦ same_reply m v (rw (e, catch_reply, v) at h)
    | inr (inl v) ↦ cc (rw (e, catch_reply, v) at h)
    | inr (inr v) ↦ catch_reply-passed hwaddr vrfy packets (rw (e, catch_reply, v) at h)
  ]
]
  where
    Verdict-cases : (v : Verdict) → (v ≡ passed) ⊎ ((v ≡ is_nack) ⊎ (v ≡ failed))
    Verdict-cases passed = inl refl
    Verdict-cases is_nack = inr (inl refl)
    Verdict-cases failed = inr (inr refl)

    same_reply :
        (m : Message) {msg : Message} {opts : DecodedOptions}
        → vrfy m (decode_options m.options) ≡ passed
        → ◌≡◌ {A = Caught} (reply m (decode_options m.options)) (reply msg opts)
        → vrfy msg opts ≡ passed
    same_reply m {msg} {opts} v h =
        let em : m ≡ msg = cc in let eo : decode_options m.options ≡ opts = cc in cc (em, eo, v)

-- The states in which there is a lease.
abbrev pub has_lease : Phase → Bool
has_lease invalid = false
has_lease purge_interface = false
has_lease discovering = false
has_lease selecting = true
has_lease arp_check = true
has_lease ifconfig = true
has_lease bound = true
has_lease renewing = true
has_lease rebinding = true

pub record IsSafe (dx : Dclient) : Type 0 where
  pub valid : dx.state ≢ invalid
  pub router : has_lease dx.state ≡ true → length dx.last_opts.routers ≢ 0

pub data Ran : Option Dclient → Type 0 where
  ran : {dx : Dclient} → IsSafe dx → Ran (some dx)

pub Caught-cases :
    (c : Caught)
    → ((m : Message) × (o : DecodedOptions) × (c ≡ reply m o))
      ⊎ (((m : Message) × (o : DecodedOptions) × (c ≡ nack m o)) ⊎ (c ≡ nothing))
Caught-cases (reply m o) = inl (m, o, refl)
Caught-cases (nack m o) = inr (inl (m, o, refl))
Caught-cases nothing = inr (inr refl)

pub selecting-router :
    (lm : Message) (lo : DecodedOptions) (xid : ℕ) (m : Message) (o : DecodedOptions)
    → verify_selecting_ack lm lo xid m o ≡ passed
    → length o.routers ≢ 0
unfolding verify_selecting_ack
selecting-router lm lo xid m o h =
    let (_, _, _, l) = (verify_gen_ack_iff lm lo xid true m o).0 h in l.router

pub renewing-router :
    (lm : Message) (lo : DecodedOptions) (xid : ℕ) (m : Message) (o : DecodedOptions)
    → verify_renewing_ack lm lo xid m o ≡ passed
    → length o.routers ≢ 0
unfolding verify_renewing_ack
renewing-router lm lo xid m o h =
    let (_, _, _, l) = (verify_gen_ack_iff lm lo xid true m o).0 h in l.router

pub rebinding-router :
    (lm : Message) (lo : DecodedOptions) (xid : ℕ) (m : Message) (o : DecodedOptions)
    → verify_rebinding_ack lm lo xid m o ≡ passed
    → length o.routers ≢ 0
unfolding verify_rebinding_ack
rebinding-router lm lo xid m o h =
    let (_, _, _, l) = (verify_gen_ack_iff lm lo xid false m o).0 h in l.router

-- No phase that a run goes to is the invalid one.
pub selecting-ne : selecting ≢ invalid
selecting-ne h = cc

pub arp_check-ne : arp_check ≢ invalid
arp_check-ne h = cc

pub ifconfig-ne : ifconfig ≢ invalid
ifconfig-ne h = cc

pub purge-ne : purge_interface ≢ invalid
purge-ne h = cc

pub discovering-ne : discovering ≢ invalid
discovering-ne h = cc

pub bound-ne : bound ≢ invalid
bound-ne h = cc

pub renewing-ne : renewing ≢ invalid
renewing-ne h = cc

pub rebinding-ne : rebinding ≢ invalid
rebinding-ne h = cc
