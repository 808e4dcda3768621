-- ===== src/Ipdb/Duid.antt =====
-- lib/server/ipdb/duid/duid.go: the identifier of a client.
use psa_dhcp.Base.{ℕ, ◌/◌, ◌%◌, List, [], ◌∷◌, ◌++◌}
use psa_dhcp.Ipdb.Uip.{hex_digit}

abbrev pub Duid : Type 0
Duid = List ℕ

-- `%02x` of a byte.
abbrev pub hex2 : ℕ → List ℕ
hex2 b = hex_digit (b / 16) ∷ hex_digit (b % 16) ∷ []

-- The bytes behind the first, each after a dash.
unfoldable pub dashed : List ℕ → List ℕ
dashed [] = []
dashed (b ∷ d) = b'-' ∷ hex2 b ++ dashed d

-- The bytes of `<duid:`, and those of `nil>`.
abbrev pub duid_open : List ℕ
duid_open = b'<' ∷ b'd' ∷ b'u' ∷ b'i' ∷ b'd' ∷ b':' ∷ []

unfoldable pub duid_string : Duid → List ℕ
unfolding dashed
duid_string [] = duid_open ++ (b'n' ∷ b'i' ∷ b'l' ∷ b'>' ∷ [])
duid_string (b ∷ d) = duid_open ++ (hex2 b ++ (dashed d ++ (b'>' ∷ [])))
