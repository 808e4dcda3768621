-- ===== src/Net.antt =====
-- The parts of Go's package `net` that the program uses. An address is its bytes: 4 or 16 of them,
-- or none for `nil`; the program makes no other address with no bytes.
pub mod Laws
pub mod Print
use psa_dhcp.Base.{
  ℕ, Bool, true, false, ◌&&◌, ◌==◌, if◌then◌else◌, Option, none, some, List, [], ◌∷◌, ◌++◌, length,
  take, drop, bytes_eq,
}
use psa_dhcp.Base.Bytes.{copy_at}

abbrev pub Ip : Type 0
Ip = List ℕ

abbrev pub HardwareAddr : Type 0
HardwareAddr = List ℕ

abbrev pub IpMask : Type 0
IpMask = List ℕ

-- `ip == nil`.
abbrev pub is_nil : List ℕ → Bool
is_nil [] = true
is_nil (x ∷ xs) = false

abbrev pub v4_in_v6_prefix : List ℕ
v4_in_v6_prefix = 0 ∷ 0 ∷ 0 ∷ 0 ∷ 0 ∷ 0 ∷ 0 ∷ 0 ∷ 0 ∷ 0 ∷ 0xff ∷ 0xff ∷ []

-- `net.IPv4(a, b, c, d)`, in the form of 16 bytes.
abbrev pub ipv4 : (a b c d : ℕ) → Ip
ipv4 a b c d = v4_in_v6_prefix ++ (a ∷ b ∷ c ∷ d ∷ [])

abbrev pub ipv4_bcast : Ip
ipv4_bcast = ipv4 255 255 255 255

abbrev pub ipv4_zero : Ip
ipv4_zero = ipv4 0 0 0 0

-- `ip.To4()`.
unfoldable pub to4 : Ip → Option (List ℕ)
unfolding bytes_eq
to4 ip =
    if length ip == 4
    then some ip
    else if length ip == 16 && bytes_eq (take 12 ip) v4_in_v6_prefix
    then some (drop 12 ip)
    else none

-- `ip.Equal(x)`: an address in 4 bytes equals its form in 16.
unfoldable pub ip_equal : Ip → Ip → Bool
unfolding bytes_eq
ip_equal ip x =
    if length ip == length x
    then bytes_eq ip x
    else if length ip == 4 && length x == 16
    then bytes_eq (take 12 x) v4_in_v6_prefix && bytes_eq ip (drop 12 x)
    else if length ip == 16 && length x == 4
    then bytes_eq (take 12 ip) v4_in_v6_prefix && bytes_eq (drop 12 ip) x
    else false

-- `if v4 := ip.To4(); v4 != nil { copy(b[k:], v4) }`.
abbrev pub copy_ip4 : ℕ → Ip → List ℕ → List ℕ
copy_ip4 k ip b = elim (to4 ip) [ none ↦ b | some v4 ↦ copy_at k v4 b ]
