-- ===== src/Ipdb/Db/Range.antt =====
-- The addresses of the managed network.
use psa_dhcp.Base.{
  ℕ, ◌/◌, ◌%◌, ◌^◌, ◌<◌, ◌≤◌, ◌≡◌, refl, arith, [], ◌∷◌, Result, ok, err, Option-cases, inl, inr,
  ◌||◌, ltb, if◌then◌else◌, le→not-ltb,
}
use psa_dhcp.Base.Bytes.{u32_at}
use psa_dhcp.Net.{Ip, to4, ipv4}
use psa_dhcp.Net.Laws.{to4-ipv4}
use psa_dhcp.Ipdb.Uip.{Uip, to_v4}
use psa_dhcp.Ipdb.Db.{Ipdb, IpdbError, to_uip, not_in_range}

-- What `toUip` accepts lies in the network.
pub to_uip_range :
    (ix : Ipdb) (ip : Ip) {n : Uip} → to_uip ix ip ≡ ok n → (ix.net_from ≤ n) × (n ≤ ix.net_to)
unfolding to_uip
to_uip_range ix ip h = elim (Option-cases (to4 ip)) [
  | inl e ↦ cc (rw (e, to_uip) at h)
  | inr (v4, e) ↦ let h' = rw (e, to_uip) at h in ground arith
]

-- The range test on a number that is in range.
in_range :
    (ix : Ipdb) (u n : ℕ)
    → u ≡ n
    → ix.net_from ≤ n
    → n ≤ ix.net_to
    → (let e : Result IpdbError Uip =
          if ltb u ix.net_from || ltb ix.net_to u then err not_in_range else ok u in
        e)
      ≡ ok n
in_range ix u n e lo hi =
    rw (le→not-ltb u ix.net_from (omega (arith, e)), le→not-ltb ix.net_to u (omega (arith, e)), e)
      refl

-- The address that a number stands for is read as that number.
pub to_uip-to_v4 :
    (ix : Ipdb) (n : Uip)
    → n < 2 ^ 32
    → ix.net_from ≤ n
    → n ≤ ix.net_to
    → to_uip ix (to_v4 n) ≡ ok n
unfolding to_uip to_v4
to_uip-to_v4 ix n h lo hi =
    let whole : u32_at
          ((n / 2 ^ 24 % 256) ∷ (n / 2 ^ 16 % 256) ∷ (n / 2 ^ 8 % 256) ∷ (n % 256) ∷ []) 0
        ≡ n =
      omega arith in
    rw (to4-ipv4, to_uip) (in_range ix _ n whole lo hi)

-- The range test again, from its result.
range_ok :
    (ix : Ipdb) (u n : ℕ)
    → (let e : Result IpdbError Uip =
          if ltb u ix.net_from || ltb ix.net_to u then err not_in_range else ok u in
        e)
      ≡ ok n
    → u ≡ n
range_ok ix u n h = ground arith

-- The number that an address is read as stands for that address.
pub to_v4-to_uip : (ix : Ipdb) (k n : Uip) → to_uip ix (to_v4 k) ≡ ok n → to_v4 n ≡ to_v4 k
unfolding to_uip to_v4
to_v4-to_uip ix k n h =
    let e = range_ok ix _ n (rw (to4-ipv4, to_uip) at h) in
    let d : n ≡ k % 2 ^ 32 = omega (arith, e) in
    λ i. ipv4 (byte3 d i) (byte2 d i) (byte1 d i) (byte0 d i)
  where
    byte3 : n ≡ k % 2 ^ 32 → n / 2 ^ 24 % 256 ≡ k / 2 ^ 24 % 256
    byte3 d = omega (arith, d)

    byte2 : n ≡ k % 2 ^ 32 → n / 2 ^ 16 % 256 ≡ k / 2 ^ 16 % 256
    byte2 d = omega (arith, d)

    byte1 : n ≡ k % 2 ^ 32 → n / 2 ^ 8 % 256 ≡ k / 2 ^ 8 % 256
    byte1 d = omega (arith, d)

    byte0 : n ≡ k % 2 ^ 32 → n % 256 ≡ k % 256
    byte0 d = omega (arith, d)
