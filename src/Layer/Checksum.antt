-- ===== src/Layer/Checksum.antt =====
-- lib/layer/checksum.go: the checksums of IPv4 and of UDP over it.
pub mod Sums
use psa_dhcp.Base.{
  ℕ, zero, suc, ◌+◌, ◌-◌, ◌*◌, ◌/◌, ◌%◌, ◌^◌, ◌==◌, ltb, leb, Bool, true, false, ◌||◌, ◌&&◌, not,
  if◌then◌else◌, Option, none, some, List, [], ◌∷◌, length, take, drop,
}
use psa_dhcp.Base.Bytes.{at, be16, copy_at}

-- The loop over the 16-bit words and the odd byte behind them, in `uint32`.
unfoldable pub csum_loop : List ℕ → ℕ → ℕ
csum_loop [] acc = acc
csum_loop (x ∷ []) acc = (acc + x * 256) % 2 ^ 32
csum_loop (x ∷ y ∷ b) acc = csum_loop b ((acc + (x * 256 + y)) % 2 ^ 32)

-- `for acc > 0xFFFF`: two rounds are enough for a `uint32`.
unfoldable pub fold_loop : ℕ → ℕ → ℕ
fold_loop zero acc = acc
fold_loop (suc fuel) acc =
    let rest = fold_loop fuel (acc / 2 ^ 16 + acc % 2 ^ 16) in if ltb 0xffff acc then rest else acc

unfoldable pub ipv4csum : List ℕ → ℕ → ℕ
ipv4csum b acc = 0xffff - fold_loop 2 (csum_loop b acc) % 2 ^ 16

unfoldable pub pseudohdrcsum : List ℕ → ℕ
pseudohdrcsum b =
    at b 9
    + (at b 12 + at b 14) * 256
    + (at b 13 + at b 15)
    + (at b 16 + at b 18) * 256
    + (at b 17 + at b 19)

unfoldable pub udp4csum : ℕ → List ℕ → ℕ
unfolding ipv4csum pseudohdrcsum
udp4csum hlen b =
    let len = length b - hlen in
    ipv4csum (drop hlen b) (pseudohdrcsum b + len % 2 ^ 16 + len / 2 ^ 16)

pub data ChecksumError : Type 0 where
  not_v4 short_packet unable : ChecksumError

-- The buffer after the call, which is written also where the second checksum fails, and the error.
unfoldable pub set_v4_checksum : List ℕ → List ℕ × Option ChecksumError
set_v4_checksum b =
    if ltb (length b) 1 || not (at b 0 / 16 == 4)
    then (b, some not_v4)
    else let ihl = at b 0 % 16 * 4 in
      if ltb ihl 20 || ltb (length b) ihl
      then (b, some short_packet)
      else let b = copy_at 10 (be16 (ipv4csum (take ihl b) 0)) b in
        if at b 9 == 0x11 && leb (ihl + 8) (length b)
        then (copy_at (ihl + 6) (be16 (udp4csum ihl b)) b, none)
        else (b, some unable)
