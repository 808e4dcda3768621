-- ===== src/Oui.antt =====
-- lib/oui: the vendor of a hardware address, and gen-liboui.go, which makes the table. The table
-- itself, `regexp`, `strconv` and `sort.Ints` are parameters.
pub mod Generate
use psa_dhcp.Base.{
  ℕ, ◌+◌, ◌*◌, ◌%◌, ◌^◌, ◌<◌, ◌≤◌, ◌≡◌, refl, ap, arith, ltb, ◌-◌, if◌then◌else◌, Option, none,
  some, List, [], ◌∷◌, ◌++◌, length, All, take,
}
use psa_dhcp.Base.Bytes.{IsByte, at}
use psa_dhcp.Base.Text.{codes}
use psa_dhcp.Net.{HardwareAddr}

abbrev pub Db : Type 0
Db = ℕ → Option (List ℕ)

-- In `uint32`.
unfoldable pub oui_key : HardwareAddr → ℕ
oui_key hw = ((at hw 0 * 2 ^ 16 % 2 ^ 32 + at hw 1 * 2 ^ 8 % 2 ^ 32) % 2 ^ 32 + at hw 2) % 2 ^ 32

unfoldable pub lookup : Db → HardwareAddr → Option (List ℕ)
unfolding oui_key
lookup db hw = if ltb (length hw) 3 then none else db (oui_key hw)

-- `%-18s`: `width` counts the characters of a text.
abbrev pub spaces : ℕ → List ℕ
spaces Prim.Native.Nat.zero = []
spaces (Prim.Native.Nat.suc n) = b' ' ∷ spaces n

abbrev pub padded : (width : List ℕ → ℕ) → List ℕ → List ℕ
padded width s = s ++ spaces (18 - width s)

-- The prefix of lib/server/ylog/ylog.go; `mac_string` prints a hardware address.
unfoldable pub log_prefix :
    Db → (width : List ℕ → ℕ) → (mac_string : HardwareAddr → List ℕ) → HardwareAddr → List ℕ
unfolding lookup
log_prefix db width mac_string mac =
    let vid : List ℕ = elim (lookup db mac) [ some res ↦ res | none ↦ codes "UNKNOWN VENDOR" ] in
    codes "[" ++ mac_string mac ++ codes "] <" ++ padded width vid ++ codes "> "

-- The key is that of the first three bytes, without a wrap-around, and no other three bytes have it.
pub oui_key-injective :
    (a b c a' b' c' : ℕ) (rest rest' : List ℕ)
    → All IsByte (a ∷ b ∷ c ∷ [])
    → All IsByte (a' ∷ b' ∷ c' ∷ [])
    → oui_key (a ∷ b ∷ c ∷ rest) ≡ oui_key (a' ∷ b' ∷ c' ∷ rest')
    → (a ≡ a') × (b ≡ b') × (c ≡ c')
unfolding oui_key
oui_key-injective a b c a' b' c' rest rest' (ha, (hb, (hc, _))) (ha', (hb', (hc', _))) h =
    (omega arith, omega arith, omega arith)
