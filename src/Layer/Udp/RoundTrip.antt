-- ===== src/Layer/Udp/RoundTrip.antt =====
-- What `DecodeUDP` makes of the bytes that `UDP.Assemble` writes.
use psa_dhcp.Base.{
  ℕ, ◌+◌, ◌^◌, ◌<◌, ◌≡◌, refl, ◌∙◌, arith, List, [], ◌∷◌, ◌++◌, length, append-nil, ok, le→not-ltb,
  ==_iff, ◌==◌, ltb, true, false,
}
use psa_dhcp.Base.Bytes.{be16, u16_at, u16-be16}
use psa_dhcp.Base.Fill.{put, skip, start}
use psa_dhcp.Layer.Udp.{Udp, assemble, decode_udp}

-- Ports, length, two bytes for the checksum, data.
abbrev pub segment : Udp → (c d : ℕ) → List ℕ
segment u c d =
    be16 u.src_port ++ (be16 u.dst_port ++ (be16 (8 + length u.payload) ++ (c ∷ d ∷ u.payload)))

pub assemble-segment : (u : Udp) → assemble u ≡ segment u 0 0
unfolding assemble
assemble-segment u =
    let n = length u.payload in
    let f = start (8 + n) in
    let f = put 2 (6 + n) (be16 u.src_port) f refl (omega arith) in
    let f = put 2 (4 + n) (be16 u.dst_port) f refl (omega arith) in
    let f = put 2 (2 + n) (be16 (8 + n)) f refl (omega arith) in
    let f = skip 2 n f (omega arith) in
    let f = put n 0 u.payload f refl (omega arith) in f.shape ∙ simp append-nil

-- Whatever the two bytes of the checksum say, a segment with 16-bit ports and at most 65527 bytes
-- of data is read back.
pub decode_udp-segment :
    (u : Udp) (c d : ℕ)
    → u.src_port < 2 ^ 16
    → u.dst_port < 2 ^ 16
    → 8 + length u.payload < 2 ^ 16
    → decode_udp (segment u c d) ≡ ok u
unfolding decode_udp
decode_udp-segment u c d hs hd hl =
    let n = length u.payload in
    let long : ltb (length (segment u c d)) 8 ≡ false = le→not-ltb _ _ (omega arith) in
    let whole : (u16_at (segment u c d) 4 == length (segment u c d)) ≡ true =
      (==_iff _ _).1 (omega arith) in
    rw (long, whole)
      (λ i. ok (record {
        src_port = u16-be16 u.src_port [] hs i;
        dst_port = u16-be16 u.dst_port [] hd i;
        payload = u.payload;
      }))
