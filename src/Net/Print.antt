-- ===== src/Net/Print.antt =====
-- How package `net` prints addresses and masks.
use psa_dhcp.Base.{ℕ, none, some, List, [], ◌∷◌, ◌++◌, if◌then◌else◌}
use psa_dhcp.Base.Text.{codes, decimal}
use psa_dhcp.Net.{Ip, IpMask, is_nil, to4}
use psa_dhcp.Ipdb.Duid.{hex2}

-- Four numbers with dots between them.
abbrev pub dotted : List ℕ → List ℕ
dotted [] = []
dotted (b ∷ []) = decimal b
dotted (b ∷ c ∷ bs) = decimal b ++ (b'.' ∷ dotted (c ∷ bs))

-- `ip.String()`. The program makes IPv4 addresses alone; `v6` is how others are printed.
unfoldable pub ip_string : (v6 : Ip → List ℕ) → Ip → List ℕ
ip_string v6 ip =
    if is_nil ip then codes "<nil>" else elim (to4 ip) [ some v4 ↦ dotted v4 | none ↦ v6 ip ]

abbrev pub hex_bytes : List ℕ → List ℕ
hex_bytes [] = []
hex_bytes (b ∷ bs) = hex2 b ++ hex_bytes bs

-- `mask.String()`.
unfoldable pub mask_string : IpMask → List ℕ
mask_string mask = if is_nil mask then codes "<nil>" else hex_bytes mask
