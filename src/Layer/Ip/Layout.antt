-- ===== src/Layer/Ip/Layout.antt =====
-- The bytes that `IPv4.Assemble` writes around a UDP segment, and their checksums.
use psa_dhcp.Base.{
  ℕ, ◌+◌, ◌/◌, ◌%◌, ◌≡◌, refl, ◌∙◌, arith, List, [], ◌∷◌, ◌++◌, length, take, append-nil,
  append_assoc, none, le→not-ltb, le→leb, ltb, leb, true, false,
}
use psa_dhcp.Base.Bytes.{be16}
use psa_dhcp.Base.Fill.{put, skip, start}
use psa_dhcp.Net.Laws.{ip4, put_ip4}
use psa_dhcp.Layer.Checksum.{ipv4csum, udp4csum, set_v4_checksum}
use psa_dhcp.Layer.Ip.{Ipv4, without_checksums}

-- A UDP packet with the given addresses, checksum bytes and data.
abbrev pub packet : Ipv4 → (src dst : List ℕ) → (c d : ℕ) → List ℕ → List ℕ
packet h src dst c d x =
    0x45 ∷ 0 ∷ be16 (20 + length h.payload)
    ++ (be16 h.identification ++ (be16 h.flags ++ (h.ttl ∷ 17 ∷ c ∷ d ∷ src ++ (dst ++ x))))

pub without_checksums-packet :
    (h : Ipv4)
    → h.protocol ≡ 17
    → without_checksums h ≡ packet h (ip4 h.source) (ip4 h.destination) 0 0 h.payload
unfolding without_checksums
without_checksums-packet h udp =
    let n = length h.payload in
    let f = start (20 + n) in
    let f = put 1 (19 + n) (0x45 ∷ []) f refl (omega arith) in
    let f = put 1 (18 + n) (0 ∷ []) f refl (omega arith) in
    let f = put 2 (16 + n) (be16 (20 + n)) f refl (omega arith) in
    let f = put 2 (14 + n) (be16 h.identification) f refl (omega arith) in
    let f = put 2 (12 + n) (be16 h.flags) f refl (omega arith) in
    let f = put 1 (11 + n) (h.ttl ∷ []) f refl (omega arith) in
    let f = put 1 (10 + n) (h.protocol ∷ []) f refl (omega arith) in
    let f = skip 2 (8 + n) f (omega arith) in
    let f = put_ip4 (4 + n) h.source f (omega arith) in
    let f = put_ip4 n h.destination f (omega arith) in
    let f = put n 0 h.payload f refl (omega arith) in f.shape ∙ simp (append-nil, append_assoc, udp)

module _ (h : Ipv4) (s0 s1 s2 s3 t0 t1 t2 t3 : ℕ) where
  -- With its four address bytes each, and the first bytes of the segment.
  abbrev shown : (c d : ℕ) → List ℕ → List ℕ
  shown c d x = packet h (s0 ∷ s1 ∷ s2 ∷ s3 ∷ []) (t0 ∷ t1 ∷ t2 ∷ t3 ∷ []) c d x

  abbrev header_sum : List ℕ → ℕ
  header_sum x = ipv4csum (take 20 (shown 0 0 x)) 0

  abbrev shown_summed : List ℕ → List ℕ
  shown_summed x = shown (header_sum x / 256 % 256) (header_sum x % 256) x

  -- `setV4Checksum` writes the header's checksum, then that of the segment.
  pub set_v4_checksum-shown :
      (p0 p1 p2 p3 p4 p5 p6 p7 : ℕ) (x : List ℕ)
      → let y = p0 ∷ p1 ∷ p2 ∷ p3 ∷ p4 ∷ p5 ∷ p6 ∷ p7 ∷ x in
        let u = udp4csum 20 (shown_summed y) in
        set_v4_checksum (shown 0 0 y) ≡ (
          shown
              (header_sum y / 256 % 256)
              (header_sum y % 256)
              (p0 ∷ p1 ∷ p2 ∷ p3 ∷ p4 ∷ p5 ∷ (u / 256 % 256) ∷ (u % 256) ∷ x),
          none,
        )
  unfolding set_v4_checksum
  set_v4_checksum-shown p0 p1 p2 p3 p4 p5 p6 p7 x =
      let y = p0 ∷ p1 ∷ p2 ∷ p3 ∷ p4 ∷ p5 ∷ p6 ∷ p7 ∷ x in
      let e1 : ltb (length (shown 0 0 y)) 1 ≡ false = le→not-ltb _ _ (omega arith) in
      let e2 : ltb (length (shown 0 0 y)) 20 ≡ false = le→not-ltb _ _ (omega arith) in
      let e3 : leb 28 (length (shown 0 0 y)) ≡ true = le→leb _ _ (omega arith) in rw (e1, e2, e3)
