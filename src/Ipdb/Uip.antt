-- ===== src/Ipdb/Uip.antt =====
-- lib/server/ipdb/uip/uip.go: an IPv4 address as a `uint32`.
use psa_dhcp.Base.{
  ℕ, zero, suc, ◌+◌, ◌/◌, ◌%◌, ◌^◌, ◌==◌, ltb, not, ◌&&◌, Bool, if◌then◌else◌, List, [], ◌∷◌, ◌++◌,
}
use psa_dhcp.Net.{Ip, ipv4}

abbrev pub Uip : Type 0
Uip = ℕ

unfoldable pub to_v4 : Uip → Ip
to_v4 ux = ipv4 (ux / 2 ^ 24 % 256) (ux / 2 ^ 16 % 256) (ux / 2 ^ 8 % 256) (ux % 256)

unfoldable pub is_valid : Uip → Bool
is_valid ux = not (ux % 256 == 0) && not (ux % 256 == 0xff)

-- A digit as `fmt` writes it under `%x`.
unfoldable pub hex_digit : ℕ → ℕ
hex_digit d = if ltb d 10 then b'0' + d else 87 + d

-- `%x` of a number below 16 ^ fuel: no leading zeros.
unfoldable pub hex : ℕ → ℕ → List ℕ
unfolding hex_digit
hex zero v = []
hex (suc fuel) v =
    let front = hex fuel (v / 16) in
    if ltb v 16 then hex_digit v ∷ [] else front ++ (hex_digit (v % 16) ∷ [])

-- `uip(%x)`, for a number of at most 8 hexadecimal digits.
unfoldable pub uip_string : Uip → List ℕ
unfolding hex
uip_string ux = b'u' ∷ b'i' ∷ b'p' ∷ b'(' ∷ hex 8 ux ++ (b')' ∷ [])
