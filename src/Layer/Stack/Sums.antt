-- ===== src/Layer/Stack/Sums.antt =====
-- The checksums of a packet as it is sent.
use mathlib.Core.Path.{subst}
use psa_dhcp.Base.{
  ℕ, ◌+◌, ◌-◌, ◌/◌, ◌%◌, ◌^◌, ◌<◌, ◌≡◌, refl, ap, ◌∙◌, arith, List, ◌∷◌, ◌++◌, sym, length, take,
  drop, All,
}
use psa_dhcp.Base.Bytes.{IsByte, be16}
use psa_dhcp.Net.Laws.{ip4, ip4-length, four}
use psa_dhcp.Layer.Checksum.{ipv4csum, udp4csum, pseudohdrcsum, csum_loop, fold_loop}
use psa_dhcp.Layer.Checksum.Sums.{
  words, csum_loop-words, words-le, checksum_cancels, checksum_multiple,
}
use psa_dhcp.Layer.Ip
use psa_dhcp.Layer.Ip.{Ipv4}
use psa_dhcp.Layer.Ip.Layout.{packet}
use psa_dhcp.Layer.Udp.{Udp}
use psa_dhcp.Layer.Udp.RoundTrip.{segment}
use psa_dhcp.Layer.Stack.{
  IsDatagram, sent, ipv4csum-lt, udp4csum-lt, header_sum, segment_sum, summed, assemble-summed,
}

-- Two byte strings whose words differ by the checksum of the first.
ipv4csum_cancels :
    (b b' : List ℕ) (acc : ℕ)
    → acc + words b + 65535 < 2 ^ 32
    → words b' ≡ words b + ipv4csum b acc
    → ipv4csum b' acc ≡ 0
unfolding ipv4csum
ipv4csum_cancels b b' acc h e =
    let a = acc + words b in
    let eb : csum_loop b acc ≡ a = csum_loop-words b acc (omega arith) in
    let c = 0xffff - fold_loop 2 a % 2 ^ 16 in
    let e' : words b' ≡ words b + c =
      e ∙ ap (λ x. words b + (0xffff - fold_loop 2 x % 2 ^ 16)) eb in
    let eb' : csum_loop b' acc ≡ a + c = csum_loop-words b' acc (omega arith) ∙ omega arith in
    ap (λ x. 0xffff - fold_loop 2 x % 2 ^ 16) eb' ∙ checksum_cancels a c (omega arith) refl

-- All that goes into the packet is bytes.
pub record IsBytes (h : Ipv4) (u : Udp) (s t : List ℕ) : Type 0 where
  pub ttl : h.ttl < 256
  pub source : All IsByte s
  pub destination : All IsByte t
  pub payload : All IsByte u.payload

-- A checksum that comes to 0.
ipv4csum_multiple :
    (b : List ℕ) (acc : ℕ)
    → acc + words b < 2 ^ 32
    → ipv4csum b acc ≡ 0
    → (acc + words b) % 65535 ≡ 0
unfolding ipv4csum
ipv4csum_multiple b acc h e =
    checksum_multiple (acc + words b) h
      (ap (λ x. 0xffff - fold_loop 2 x % 2 ^ 16) (sym (csum_loop-words b acc h)) ∙ e)

module _ (h : Ipv4) (u : Udp) (s t : List ℕ) (hs : length s ≡ 4) (ht : length t ≡ 4) where
  header_words :
      (c : ℕ) (x y : List ℕ)
      → c < 2 ^ 16
      → words (take 20 (packet h s t (c / 256 % 256) (c % 256) x))
        ≡ words (take 20 (packet h s t 0 0 y)) + c
  header_words c x y hc =
      let (s0, s1, s2, s3, es) = four s hs in
      let (t0, t1, t2, t3, et) = four t ht in rw (es, et) (omega arith)

  header_small : (x : List ℕ) → IsBytes h u s t → words (take 20 (packet h s t 0 0 x)) < 2 ^ 24
  header_small x w =
      let (s0, s1, s2, s3, es) = four s hs in
      let (t0, t1, t2, t3, et) = four t ht in
      let bs = rw es at w.source in
      let bt = rw et at w.destination in rw (es, et) (omega (arith, w.ttl, bs, bt))

  header_verifies : IsBytes h u s t → ipv4csum (take 20 (summed h u s t)) 0 ≡ 0
  header_verifies w =
      let c = header_sum h u s t in
      ipv4csum_cancels (take 20 (packet h s t 0 0 (segment u 0 0))) _ 0
        (omega (arith, header_small (segment u 0 0) w))
        (header_words c _ (segment u 0 0) (ipv4csum-lt _ 0))

  udp_words :
      (d : ℕ) → d < 2 ^ 16 → words (segment u (d / 256 % 256) (d % 256)) ≡ words (segment u 0 0) + d
  udp_words d hd = omega arith

  udp_small : IsBytes h u s t → length u.payload < 65536 → words (segment u 0 0) < 2 ^ 31 + 2 ^ 24
  udp_small w hl = omega (arith, words-le u.payload w.payload)

  -- What the pseudo header adds, which does not depend on the checksums.
  abbrev pseudo : ℕ → ℕ
  pseudo c = pseudohdrcsum (sent h u s t c 0)

  pseudo_same : (c d : ℕ) → pseudohdrcsum (sent h u s t c d) ≡ pseudo c
  unfolding pseudohdrcsum
  pseudo_same c d =
      let (s0, s1, s2, s3, es) = four s hs in let (t0, t1, t2, t3, et) = four t ht in rw (es, et)

  pseudo_small : (c : ℕ) → IsBytes h u s t → pseudo c < 2 ^ 24
  unfolding pseudohdrcsum
  pseudo_small c w =
      let (s0, s1, s2, s3, es) = four s hs in
      let (t0, t1, t2, t3, et) = four t ht in
      let bs = rw es at w.source in let bt = rw et at w.destination in rw (es, et) (omega arith)

  length-sent : (c d : ℕ) → length (sent h u s t c d) - 20 ≡ 8 + length u.payload
  length-sent c d =
      let (s0, s1, s2, s3, es) = four s hs in
      let (t0, t1, t2, t3, et) = four t ht in rw (es, et) (omega arith)

  cut_sent : (c d : ℕ) → drop 20 (sent h u s t c d) ≡ segment u (d / 256 % 256) (d % 256)
  cut_sent c d =
      let (s0, s1, s2, s3, es) = four s hs in let (t0, t1, t2, t3, et) = four t ht in rw (es, et)

  abbrev start_sum : ℕ → ℕ
  start_sum c = let n = 8 + length u.payload in pseudo c + n % 2 ^ 16 + n / 2 ^ 16

  udp4csum-sent :
      (c d : ℕ)
      → udp4csum 20 (sent h u s t c d)
        ≡ ipv4csum (segment u (d / 256 % 256) (d % 256)) (start_sum c)
  unfolding udp4csum
  udp4csum-sent c d = rw (cut_sent c d, pseudo_same c d, length-sent c d)

  segment_verifies : IsBytes h u s t → length u.payload < 65536 → udp4csum 20 (summed h u s t) ≡ 0
  segment_verifies w hl =
      let c = header_sum h u s t in
      let d = segment_sum h u s t in
      udp4csum-sent c d
      ∙ ipv4csum_cancels (segment u 0 0) _ (start_sum c)
          (omega (arith, pseudo_small c w, udp_small w hl))
          (udp_words d (udp4csum-lt _) ∙ ap (λ x. words (segment u 0 0) + x) (udp4csum-sent c 0))

-- RFC 768: the addresses, a zero, the protocol and the length of the segment.
abbrev pub pseudo_header : (s t : List ℕ) → (size : ℕ) → List ℕ
pseudo_header s t size = s ++ (t ++ (0 ∷ 17 ∷ be16 size))

-- What a receiver checks, by RFC 1071: the ones' complement sum of the 16-bit words is 2 ^ 16 - 1,
-- that is, the sum is a multiple of it and is not 0.
pub record Verifies (b : List ℕ) : Type 0 where
  pub multiple : words b % 65535 ≡ 0
  pub nonzero : 0 < words b

module _ (h : Ipv4) (u : Udp) (s t : List ℕ) (hs : length s ≡ 4) (ht : length t ≡ 4)
    (w : IsDatagram h u) (bytes : IsBytes h u s t) where
  header-Verifies : Verifies (take 20 (summed h u s t))
  header-Verifies = record {
    multiple =
        ap (λ x. x % 65535) zero_add
        ∙ ipv4csum_multiple (take 20 (summed h u s t)) 0
            (omega (
              arith,
              header_small h u s t hs ht (segment u 0 0) bytes,
              header_words h u s t hs ht (header_sum h u s t) _ (segment u 0 0) (ipv4csum-lt _ 0),
              ipv4csum-lt (take 20 (packet h s t 0 0 (segment u 0 0))) 0,
            ))
            (header_verifies h u s t hs ht bytes);
    nonzero = omega arith;
  }
    where
      zero_add : words (take 20 (summed h u s t)) ≡ 0 + words (take 20 (summed h u s t))
      zero_add = omega arith

  -- The words of the pseudo header and the segment, as the sender sums them.
  words_received :
      (c d : ℕ)
      → words (pseudo_header s t (8 + length u.payload) ++ segment u (d / 256 % 256) (d % 256))
        ≡ start_sum h u s t hs ht c + words (segment u (d / 256 % 256) (d % 256))
  unfolding pseudohdrcsum
  words_received c d =
      let (s0, s1, s2, s3, es) = four s hs in
      let (t0, t1, t2, t3, et) = four t ht in rw (es, et) (omega (arith, w.size))

  segment-Verifies : Verifies (pseudo_header s t (8 + length u.payload) ++ drop 20 (summed h u s t))
  segment-Verifies =
      let c = header_sum h u s t in
      let d = segment_sum h u s t in
      let hl : length u.payload < 65536 = omega (arith, w.size) in
      let sum = words_received c d in
      let e = sym (udp4csum-sent h u s t hs ht c d) ∙ segment_verifies h u s t hs ht bytes hl in
      subst (λ x. Verifies (pseudo_header s t (8 + length u.payload) ++ x))
        (sym (cut_sent h u s t hs ht c d))
        (record {
          multiple =
              ap (λ x. x % 65535) sum
              ∙ ipv4csum_multiple (segment u (d / 256 % 256) (d % 256)) (start_sum h u s t hs ht c)
                  (omega (
                    arith,
                    pseudo_small h u s t hs ht c bytes,
                    udp_small h u s t hs ht bytes hl,
                    udp_words h u s t hs ht d (udp4csum-lt _),
                    udp4csum-lt (sent h u s t c 0),
                    hl,
                  ))
                  e;
          nonzero = omega (arith, sum, w.size);
        })

-- A datagram that is made of bytes is sent with checksums that a receiver finds right: the words of
-- the header, and those of the pseudo header of RFC 768 and the segment, have the ones' complement
-- sum 2 ^ 16 - 1 with the checksums in place.
pub checksums_verify :
    (h : Ipv4) (u : Udp)
    → IsDatagram h u
    → IsBytes h u (ip4 h.source) (ip4 h.destination)
    → Verifies (take 20 (Ip.assemble h))
      × Verifies (
          pseudo_header (ip4 h.source) (ip4 h.destination) (8 + length u.payload)
          ++ drop 20 (Ip.assemble h))
checksums_verify h u w bytes =
    let s = ip4 h.source in
    let t = ip4 h.destination in
    let hs = ip4-length h.source in
    let ht = ip4-length h.destination in
    rw (assemble-summed h u w)
      (header-Verifies h u s t hs ht w bytes, segment-Verifies h u s t hs ht w bytes)
