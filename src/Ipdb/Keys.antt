-- ===== src/Ipdb/Keys.antt =====
-- The keys of the map of clients: an address and a client never share one, and each key belongs to
-- one address or one client.
use psa_dhcp.Base.{
  ℕ, zero, suc, ◌+◌, ◌-◌, ◌*◌, ◌/◌, ◌%◌, ◌^◌, ◌<◌, ◌≤◌, ◌≡◌, ◌≢◌, refl, sym, ap, ap₂, arith, ltb,
  if◌then◌else◌, List, [], ◌∷◌, ◌++◌, All, drop, get_or, Bool-cases, inl, inr,
}
use psa_dhcp.Base.Bytes.{IsByte}
use psa_dhcp.Ipdb.Uip.{Uip, hex_digit, hex, uip_string}
use psa_dhcp.Ipdb.Duid.{Duid, hex2, dashed, duid_string}

head : List ℕ → ℕ
head l = get_or l 0 0

-- The key of an address is not the key of any client.
pub uip_string-ne-duid_string : (ip : Uip) (d : Duid) → uip_string ip ≢ duid_string d
unfolding uip_string duid_string head
uip_string-ne-duid_string ip [] e = let h : ◌≡◌ {A = ℕ} 117 60 = ap head e in absurd (omega arith)
uip_string-ne-duid_string ip (b ∷ d) e =
    let h : ◌≡◌ {A = ℕ} 117 60 = ap head e in absurd (omega arith)

-- The value of a digit, and of a row of digits.
hex_value : ℕ → ℕ
hex_value c = if ltb c 58 then c - 48 else c - 87

hex_value-hex_digit : (d : ℕ) → d < 16 → hex_value (hex_digit d) ≡ d
unfolding hex_value hex_digit
hex_value-hex_digit d h = ground arith

read_hex : List ℕ → ℕ → ℕ
read_hex [] acc = acc
read_hex (c ∷ cs) acc = read_hex cs (acc * 16 + hex_value c)

read_hex-append :
    (cs : List ℕ) (c acc : ℕ) → read_hex (cs ++ (c ∷ [])) acc ≡ read_hex cs acc * 16 + hex_value c
unfolding read_hex
read_hex-append [] c acc = refl
read_hex-append (x ∷ cs) c acc = read_hex-append cs c (acc * 16 + hex_value x)

read_hex-hex : (fuel v : ℕ) → v < 16 ^ fuel → read_hex (hex fuel v) 0 ≡ v
unfolding hex
read_hex-hex zero v h = unfold read_hex in omega arith
read_hex-hex (suc fuel) v h = elim (Bool-cases (ltb v 16)) [
  | inl small ↦ unfold read_hex in rw small (omega (arith, hex_value-hex_digit v (ground arith)))
  | inr large ↦
      rw (large, read_hex-append, hex_value-hex_digit (v % 16) (omega arith))
        (omega (arith, read_hex-hex fuel (v / 16) (below (16 ^ fuel) (omega arith))))
]
  where
    below : (n : ℕ) → v < 16 * n → v / 16 < n
    below n h = omega arith

-- Each address has its own key.
pub uip_string-injective :
    (a b : Uip) → a < 2 ^ 32 → b < 2 ^ 32 → uip_string a ≡ uip_string b → a ≡ b
unfolding uip_string
uip_string-injective a b ha hb e = omega (
  arith,
  ap (λ l. read_hex (drop 4 l) 0) e,
  read_hex-append (hex 8 a) 41 0,
  read_hex-append (hex 8 b) 41 0,
  read_hex-hex 8 a ha,
  read_hex-hex 8 b hb,
)

hex2-injective :
    (a b : ℕ) (l l' : List ℕ) → a < 256 → b < 256 → hex2 a ++ l ≡ hex2 b ++ l' → (a ≡ b) × (l ≡ l')
hex2-injective a b l l' ha hb e =
    let hi = ap (λ x. hex_value (get_or x 0 0)) e in
    let lo = ap (λ x. hex_value (get_or x 1 0)) e in
    let a1 = hex_value-hex_digit (a / 16) (omega arith) in
    let a0 = hex_value-hex_digit (a % 16) (omega arith) in
    let b1 = hex_value-hex_digit (b / 16) (omega arith) in
    let b0 = hex_value-hex_digit (b % 16) (omega arith) in (omega arith, ap (drop 2) e)

dashed-injective :
    (d d' : Duid)
    → All IsByte d
    → All IsByte d'
    → dashed d ++ (62 ∷ []) ≡ dashed d' ++ (62 ∷ [])
    → d ≡ d'
unfolding dashed head
dashed-injective [] [] h h' e = refl
dashed-injective [] (b ∷ d') h h' e = let k : ◌≡◌ {A = ℕ} 62 45 = ap head e in absurd (omega arith)
dashed-injective (b ∷ d) [] h h' e = let k : ◌≡◌ {A = ℕ} 45 62 = ap head e in absurd (omega arith)
dashed-injective (a ∷ d) (b ∷ d') (ha, h) (hb, h') e =
    let (same, rest) = hex2-injective a b _ _ ha hb (ap (drop 1) e) in
    ap₂ ◌∷◌ same (dashed-injective d d' h h' rest)

hex_digit-le : (d : ℕ) → d < 16 → hex_digit d ≤ 102
unfolding hex_digit
hex_digit-le d h = ground arith

-- `n` is no digit of a byte.
nil_is_no_hex : (b : ℕ) (l : List ℕ) → b < 256 → b'n' ∷ b'i' ∷ b'l' ∷ b'>' ∷ [] ≢ hex2 b ++ l
unfolding head
nil_is_no_hex b l h e = absurd (omega (arith, ap head e, hex_digit-le (b / 16) (omega arith)))

-- Clients whose identifiers are made of bytes have the same key only if their identifiers are the
-- same.
pub duid_string-injective :
    (d d' : Duid) → All IsByte d → All IsByte d' → duid_string d ≡ duid_string d' → d ≡ d'
unfolding duid_string head
duid_string-injective [] [] h h' e = refl
duid_string-injective [] (b ∷ d') h h' e = absurd (nil_is_no_hex b _ h'.0 (ap (drop 6) e))
duid_string-injective (b ∷ d) [] h h' e = absurd (nil_is_no_hex b _ h.0 (sym (ap (drop 6) e)))
duid_string-injective (a ∷ d) (b ∷ d') (ha, h) (hb, h') e =
    let (same, rest) = hex2-injective a b _ _ ha hb (ap (drop 6) e) in
    ap₂ ◌∷◌ same (dashed-injective d d' h h' rest)
