-- ===== src/Net/Laws.antt =====
-- Addresses in 4 bytes.
use psa_dhcp.Base.{
  ℕ, ◌+◌, ◌++◌, ◌≡◌, refl, arith, none, some, List, [], ◌∷◌, length, drop, All, length-drop,
  Option-cases, ◌⊎◌, inl, inr, All-drop,
}
use psa_dhcp.Base.Bytes.{IsByte, copy_at, zeros}
use psa_dhcp.Base.Fill.{Filled, put, skip}
use psa_dhcp.Net.{Ip, to4, ipv4, copy_ip4}

-- The four bytes of an address, or 0.0.0.0 where it has none.
abbrev pub ip4 : Ip → List ℕ
ip4 ip = elim (to4 ip) [ none ↦ zeros 4 | some v ↦ v ]

pub to4-length : (ip : Ip) {v : List ℕ} → to4 ip ≡ some v → length v ≡ 4
unfolding to4
to4-length ip h = ground (arith, length-drop 12 ip)

to4_bytes : (ip : Ip) {v : List ℕ} → to4 ip ≡ some v → (v ≡ ip) ⊎ (v ≡ drop 12 ip)
unfolding to4
to4_bytes ip h = ground arith

pub to4-IsByte : (ip : Ip) {v : List ℕ} → All IsByte ip → to4 ip ≡ some v → All IsByte v
to4-IsByte ip b h = elim (to4_bytes ip h) [
  | inl e ↦ rw e b
  | inr e ↦ rw e (All-drop IsByte 12 ip b)
]

pub ip4-length : (ip : Ip) → length (ip4 ip) ≡ 4
ip4-length ip = elim (Option-cases (to4 ip)) [
  | inl e ↦ rw (e, ip4) refl
  | inr (v, e) ↦ rw (e, ip4) (to4-length ip e)
]

-- A list of four bytes, taken apart.
pub four : (v : List ℕ) → length v ≡ 4 → (a b c d : ℕ) × (v ≡ a ∷ b ∷ c ∷ d ∷ [])
four [] h = absurd (omega arith)
four (a ∷ []) h = absurd (omega arith)
four (a ∷ b ∷ []) h = absurd (omega arith)
four (a ∷ b ∷ c ∷ []) h = absurd (omega arith)
four (a ∷ b ∷ c ∷ d ∷ []) h = (a, b, c, d, refl)
four (a ∷ b ∷ c ∷ d ∷ e ∷ v) h = absurd (omega arith)

pub to4-ipv4 : (a b c d : ℕ) → to4 (ipv4 a b c d) ≡ some (a ∷ b ∷ c ∷ d ∷ [])
unfolding to4
to4-ipv4 a b c d = refl

pub put_ip4 :
    {k n : ℕ} {p b : List ℕ} (m : ℕ) (ip : Ip)
    → Filled k n p b
    → n ≡ 4 + m
    → Filled (k + 4) m (p ++ ip4 ip) (copy_ip4 k ip b)
put_ip4 m ip f h = elim (Option-cases (to4 ip)) [
  | inl e ↦ rw (e, ip4, copy_ip4) (skip 4 m f h)
  | inr (v, e) ↦ rw (e, ip4, copy_ip4) (put 4 m v f (to4-length ip e) h)
]

pub copy_ip4-some :
    (k : ℕ) (ip : Ip) (b : List ℕ) {v : List ℕ} → to4 ip ≡ some v → copy_ip4 k ip b ≡ copy_at k v b
copy_ip4-some k ip b e = rw (e, copy_ip4)
