-- ===== src/Client/Verify.antt =====
-- lib/client/verify/verifyer.go: which replies the client accepts.
pub mod Sound
use psa_dhcp.Base.{
  ℕ, ◌==◌, ltb, ◌&&◌, ◌||◌, not, Bool, true, false, if◌then◌else◌, List, [], ◌∷◌, length,
}
use psa_dhcp.Net.{Ip, ip_equal, is_nil, ipv4_zero, ipv4_bcast}
use psa_dhcp.Dhcpmsg.{Message, DecodedOptions, msg_type_offer, msg_type_ack, msg_type_nack}

-- The type of the results of a check.
pub data Verdict : Type 0 where
  failed passed is_nack : Verdict

-- `time.Minute`, in nanoseconds.
abbrev pub min_lease : ℕ
min_lease = 60_000_000_000

unfoldable pub verify_common : ℕ → Message → DecodedOptions → Verdict
unfolding ip_equal
verify_common xid m opt =
    if not (m.xid == xid)
    then failed
    else if length opt.routers == 0
        || is_nil m.your_ip
        || ip_equal m.your_ip ipv4_zero
        || ip_equal m.your_ip ipv4_bcast
    then failed
    else if is_nil opt.server_identifier
        || ip_equal opt.server_identifier ipv4_zero
        || ip_equal opt.server_identifier ipv4_bcast
    then failed
    else if ltb opt.ip_address_lease_duration min_lease
    then failed
    else passed

unfoldable pub verify_offer : ℕ → Message → DecodedOptions → Verdict
unfolding verify_common
verify_offer xid m opt =
    if not (opt.message_type == msg_type_offer) then failed else verify_common xid m opt

unfoldable pub verify_gen_ack :
    (lm : Message) (lopt : DecodedOptions) (xid : ℕ) (vrfysi : Bool) (m : Message)
    (opt : DecodedOptions)
    → Verdict
unfolding verify_common ip_equal
verify_gen_ack lm lopt xid vrfysi m opt =
    if opt.message_type == msg_type_nack
    then is_nack
    else if not (opt.message_type == msg_type_ack)
    then failed
    else if not (ip_equal m.your_ip lm.your_ip)
    then failed
    else if vrfysi && not (ip_equal opt.server_identifier lopt.server_identifier)
    then failed
    else verify_common xid m opt

unfoldable pub verify_selecting_ack :
    Message → DecodedOptions → ℕ → Message → DecodedOptions → Verdict
unfolding verify_gen_ack
verify_selecting_ack lm lopt xid m opt = verify_gen_ack lm lopt xid true m opt

unfoldable pub verify_renewing_ack :
    Message → DecodedOptions → ℕ → Message → DecodedOptions → Verdict
unfolding verify_gen_ack
verify_renewing_ack lm lopt xid m opt = verify_gen_ack lm lopt xid true m opt

unfoldable pub verify_rebinding_ack :
    Message → DecodedOptions → ℕ → Message → DecodedOptions → Verdict
unfolding verify_gen_ack
verify_rebinding_ack lm lopt xid m opt = verify_gen_ack lm lopt xid false m opt
