-- ===== src/Layer/Stack.antt =====
-- UDP in IPv4: what the program sends, as the receiver reads and checks it.
pub mod Sums
use psa_dhcp.Base.{
  ℕ, ◌+◌, ◌-◌, ◌*◌, ◌/◌, ◌%◌, ◌^◌, ◌<◌, ◌≤◌, ◌≡◌, refl, sym, ap, ◌∙◌, arith, List, [], ◌∷◌, ◌++◌,
  length, take, drop, All, ok, none, le→not-ltb, le→leb, ltb, leb, true, false, ==_iff, take_all,
  ◌==◌,
}
use psa_dhcp.Base.Bytes.{IsByte, at, be16, u16_at, u16-be16, zeros}
use psa_dhcp.Net
use psa_dhcp.Net.{v4_in_v6_prefix}
use psa_dhcp.Net.Laws.{ip4, ip4-length, four}
use psa_dhcp.Layer.Checksum.{ipv4csum, udp4csum, set_v4_checksum}
use psa_dhcp.Layer.Ip
use psa_dhcp.Layer.Ip.{Ipv4, decode_ipv4}
use psa_dhcp.Layer.Ip.Layout.{packet, without_checksums-packet, set_v4_checksum-shown}
use psa_dhcp.Layer.Udp
use psa_dhcp.Layer.Udp.{Udp, decode_udp}
use psa_dhcp.Layer.Udp.RoundTrip.{segment, assemble-segment, decode_udp-segment}

-- A UDP segment in an IPv4 packet whose fields fit.
pub record IsDatagram (h : Ipv4) (u : Udp) : Type 0 where
  pub udp : h.protocol ≡ 17
  pub payload : h.payload ≡ Udp.assemble u
  pub src_port : u.src_port < 2 ^ 16
  pub dst_port : u.dst_port < 2 ^ 16
  pub size : 28 + length u.payload < 2 ^ 16
  pub identification : h.identification < 2 ^ 16
  pub flags : h.flags < 2 ^ 16

-- The packet as it is sent, between the addresses `s` and `t`: `c` and `d` are the two checksums.
abbrev pub sent : Ipv4 → Udp → (s t : List ℕ) → (c d : ℕ) → List ℕ
sent h u s t c d = packet h s t (c / 256 % 256) (c % 256) (segment u (d / 256 % 256) (d % 256))

abbrev pub header_sum : Ipv4 → Udp → (s t : List ℕ) → ℕ
header_sum h u s t = ipv4csum (take 20 (packet h s t 0 0 (segment u 0 0))) 0

abbrev pub segment_sum : Ipv4 → Udp → (s t : List ℕ) → ℕ
segment_sum h u s t = udp4csum 20 (sent h u s t (header_sum h u s t) 0)

abbrev pub summed : Ipv4 → Udp → (s t : List ℕ) → List ℕ
summed h u s t = sent h u s t (header_sum h u s t) (segment_sum h u s t)

set_v4_checksum-summed :
    (h : Ipv4) (u : Udp) (s t : List ℕ)
    → length s ≡ 4
    → length t ≡ 4
    → set_v4_checksum (packet h s t 0 0 (segment u 0 0)) ≡ (summed h u s t, none)
set_v4_checksum-summed h u s t hs ht =
    let (s0, s1, s2, s3, es) = four s hs in
    let (t0, t1, t2, t3, et) = four t ht in
    let n = 8 + length u.payload in
    rw (es, et)
      (set_v4_checksum-shown h s0 s1 s2 s3 t0 t1 t2 t3 (u.src_port / 256 % 256) (u.src_port % 256)
        (u.dst_port / 256 % 256) (u.dst_port % 256) (n / 256 % 256) (n % 256) 0 0 u.payload)

pub assemble-summed :
    (h : Ipv4) (u : Udp)
    → IsDatagram h u
    → Ip.assemble h ≡ summed h u (ip4 h.source) (ip4 h.destination)
unfolding Ip.assemble
assemble-summed h u w =
    ap (λ b. (set_v4_checksum b).0)
      (without_checksums-packet h w.udp
        ∙ ap (packet h (ip4 h.source) (ip4 h.destination) 0 0) (w.payload ∙ assemble-segment u))
    ∙ ap (λ r. r.0)
        (set_v4_checksum-summed h u (ip4 h.source) (ip4 h.destination) (ip4-length h.source)
          (ip4-length h.destination))

-- What is read back: the addresses in 16 bytes, and the checksums.
abbrev pub received : Ipv4 → Udp → (s t : List ℕ) → (c d : ℕ) → Ipv4
received h u s t c d = record h {
  checksum = c;
  source = v4_in_v6_prefix ++ s;
  destination = v4_in_v6_prefix ++ t;
  payload = segment u (d / 256 % 256) (d % 256);
}

decode_ipv4-sent :
    (h : Ipv4) (u : Udp) (s t : List ℕ) (c d : ℕ)
    → IsDatagram h u
    → c < 2 ^ 16
    → length s ≡ 4
    → length t ≡ 4
    → decode_ipv4 (sent h u s t c d) ≡ ok (received h u s t c d)
unfolding decode_ipv4
decode_ipv4-sent h u s t c d w hc hs ht =
    let (s0, s1, s2, s3, es) = four s hs in
    let (t0, t1, t2, t3, et) = four t ht in
    let b = sent h u (s0 ∷ s1 ∷ s2 ∷ s3 ∷ []) (t0 ∷ t1 ∷ t2 ∷ t3 ∷ []) c d in
    let n : length h.payload ≡ length (segment u 0 0) =
      ap length (w.payload ∙ assemble-segment u) in
    let tlen : u16_at b 2 ≡ length b = omega (arith, w.size) in
    let long : ltb (length b) 20 ≡ false = le→not-ltb _ _ (omega arith) in
    let whole : (u16_at b 2 == length b) ≡ true = (==_iff _ _).1 tlen in
    let all : take (u16_at b 2) b ≡ b = take_all _ b (omega (arith, tlen)) in
    rw (es, et, long, whole, all)
      (λ i. ok (record {
        identification = u16-be16 h.identification [] w.identification i;
        flags = u16-be16 h.flags [] w.flags i;
        ttl = h.ttl;
        protocol = sym w.udp i;
        checksum = u16-be16 c [] hc i;
        source = v4_in_v6_prefix ++ (s0 ∷ s1 ∷ s2 ∷ s3 ∷ []);
        destination = v4_in_v6_prefix ++ (t0 ∷ t1 ∷ t2 ∷ t3 ∷ []);
        payload = segment u (d / 256 % 256) (d % 256);
      }))

pub ipv4csum-lt : (b : List ℕ) (acc : ℕ) → ipv4csum b acc < 2 ^ 16
unfolding ipv4csum
ipv4csum-lt b acc = omega arith

pub udp4csum-lt : (b : List ℕ) → udp4csum 20 b < 2 ^ 16
unfolding udp4csum
udp4csum-lt b = omega arith

-- A datagram is sent so that `DecodeIPv4` takes it apart into the same protocol, addresses (in
-- their form of 16 bytes) and fields, and `DecodeUDP` its data into the same segment.
pub decode-assemble_datagram :
    (h : Ipv4) (u : Udp)
    → IsDatagram h u
    → (v4 : Ipv4) × (decode_ipv4 (Ip.assemble h) ≡ ok v4)
      × (v4.protocol ≡ 17)
      × (v4.source ≡ v4_in_v6_prefix ++ ip4 h.source)
      × (v4.destination ≡ v4_in_v6_prefix ++ ip4 h.destination)
      × (decode_udp v4.payload ≡ ok u)
decode-assemble_datagram h u w =
    let s = ip4 h.source in
    let t = ip4 h.destination in
    let c = header_sum h u s t in
    let d = segment_sum h u s t in
    (
      received h u s t c d,
      ap decode_ipv4 (assemble-summed h u w)
          ∙ decode_ipv4-sent h u s t c d w (ipv4csum-lt _ 0) (ip4-length h.source)
              (ip4-length h.destination),
      w.udp,
      refl,
      refl,
      decode_udp-segment u (d / 256 % 256) (d % 256) w.src_port w.dst_port (omega (arith, w.size)),
    )
