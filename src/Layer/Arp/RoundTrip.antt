-- ===== src/Layer/Arp/RoundTrip.antt =====
-- What `DecodeARP` makes of the bytes that `ARP.Assemble` writes.
use psa_dhcp.Base.{ℕ, ◌≡◌, refl, ap, sym, ◌∙◌, arith, some, List, [], ◌∷◌, ◌++◌, length, ok}
use psa_dhcp.Base.Bytes.{copy_at, zeros}
use psa_dhcp.Net.{to4, v4_in_v6_prefix}
use psa_dhcp.Net.Laws.{four, to4-length, copy_ip4-some}
use psa_dhcp.Layer.Arp.{Arp, assemble, decode_arp}

six : (v : List ℕ) → length v ≡ 6 → (a b c d e f : ℕ) × (v ≡ a ∷ b ∷ c ∷ d ∷ e ∷ f ∷ [])
six [] h = absurd (omega arith)
six (a ∷ []) h = absurd (omega arith)
six (a ∷ b ∷ []) h = absurd (omega arith)
six (a ∷ b ∷ c ∷ []) h = absurd (omega arith)
six (a ∷ b ∷ c ∷ d ∷ []) h = absurd (omega arith)
six (a ∷ b ∷ c ∷ d ∷ e ∷ []) h = absurd (omega arith)
six (a ∷ b ∷ c ∷ d ∷ e ∷ f ∷ []) h = (a, b, c, d, e, f, refl)
six (a ∷ b ∷ c ∷ d ∷ e ∷ f ∷ g ∷ v) h = absurd (omega arith)

bytes_written :
    (u : Arp) (sip tip : List ℕ)
    → to4 u.sender_ip ≡ some sip
    → to4 u.target_ip ≡ some tip
    → assemble u
      ≡ copy_at 24 tip (
          copy_at 18 u.target_mac (
            copy_at 14 sip
              (copy_at 8 u.sender_mac (0 ∷ 1 ∷ 8 ∷ 0 ∷ 6 ∷ 4 ∷ 0 ∷ u.opcode ∷ zeros 20))))
unfolding assemble
bytes_written u sip tip es et =
    copy_ip4-some 24 u.target_ip _ et
    ∙ ap (λ b. copy_at 24 tip (copy_at 18 u.target_mac b)) (copy_ip4-some 14 u.sender_ip _ es)

-- An ARP packet with hardware addresses of six bytes and IPv4 addresses is read back, the IPv4
-- addresses in their form of 16 bytes.
pub decode_arp-assemble :
    (u : Arp) (sip tip : List ℕ)
    → length u.sender_mac ≡ 6
    → length u.target_mac ≡ 6
    → to4 u.sender_ip ≡ some sip
    → to4 u.target_ip ≡ some tip
    → decode_arp (assemble u)
      ≡ ok (record u { sender_ip = v4_in_v6_prefix ++ sip; target_ip = v4_in_v6_prefix ++ tip })
unfolding decode_arp
decode_arp-assemble u sip tip hs ht es et =
    let (s0, s1, s2, s3, s4, s5, em) = six u.sender_mac hs in
    let (t0, t1, t2, t3, t4, t5, en) = six u.target_mac ht in
    let (a0, a1, a2, a3, ea) = four sip (to4-length u.sender_ip es) in
    let (b0, b1, b2, b3, eb) = four tip (to4-length u.target_ip et) in
    ap decode_arp (bytes_written u sip tip es et)
    ∙ (λ i. decode_arp (
        copy_at 24 (eb i) (
          copy_at 18 (en i) (
            copy_at 14 (ea i)
              (copy_at 8 (em i) (0 ∷ 1 ∷ 8 ∷ 0 ∷ 6 ∷ 4 ∷ 0 ∷ u.opcode ∷ zeros 20))))))
    ∙ sym (λ i. ok (record {
      sender_mac = em i;
      sender_ip = v4_in_v6_prefix ++ ea i;
      target_mac = en i;
      target_ip = v4_in_v6_prefix ++ eb i;
      opcode = u.opcode;
    }))
