-- ===== src/Base/Bytes.antt =====
-- Byte strings: Go's `copy`, and `encoding/binary`'s big-endian words.
use psa_dhcp.Base.Lists.{length, get_or, take, drop, get_or-drop, replicate}
use Prim.Native.Nat.{ℕ, zero, suc, ◌+◌, ◌*◌, ◌/◌, ◌%◌, ◌^◌, ◌<◌}
use mathlib.Core.Path.{◌≡◌, refl, ap}
use mathlib.Core.List.{List, [], ◌∷◌, ◌++◌}
use native.Mathlib.Omega.{arith}
use native.Mathlib.Nat.{add-zero}

abbrev pub IsByte : ℕ → Type 0
IsByte b = b < 256

-- `copy(dst, src)`: the shorter of the two decides how much is written.
abbrev pub copy : List ℕ → List ℕ → List ℕ
copy dst [] = dst
copy [] (s ∷ src) = []
copy (d ∷ dst) (s ∷ src) = s ∷ copy dst src

-- `copy(b[k:], src)`.
abbrev pub copy_at : ℕ → List ℕ → List ℕ → List ℕ
copy_at zero src b = copy b src
copy_at (suc k) src [] = []
copy_at (suc k) src (x ∷ b) = x ∷ copy_at k src b

-- `binary.BigEndian.PutUint16` and `PutUint32`, as the bytes that they write.
abbrev pub be16 : ℕ → List ℕ
be16 v = (v / 256 % 256) ∷ (v % 256) ∷ []

abbrev pub be32 : ℕ → List ℕ
be32 v = (v / 16777216 % 256) ∷ (v / 65536 % 256) ∷ (v / 256 % 256) ∷ (v % 256) ∷ []

-- The words of two and of four bytes.
abbrev pub u16 : ℕ → ℕ → ℕ
u16 a b = a * 256 + b

abbrev pub u32 : ℕ → ℕ → ℕ → ℕ → ℕ
u32 a b c d = ((a * 256 + b) * 256 + c) * 256 + d

abbrev pub at : List ℕ → ℕ → ℕ
at b i = get_or b i 0

-- `binary.BigEndian.Uint16(b[i:])` and `Uint32(b[i:])`.
abbrev pub u16_at : List ℕ → ℕ → ℕ
u16_at b i = u16 (at b i) (at b (i + 1))

abbrev pub u32_at : List ℕ → ℕ → ℕ
u32_at b i = u32 (at b i) (at b (i + 1)) (at b (i + 2)) (at b (i + 3))

-- `b[i:j]`.
abbrev pub slice : List ℕ → (i n : ℕ) → List ℕ
slice b i n = take n (drop i b)

abbrev pub zeros : ℕ → List ℕ
zeros n = replicate n 0

pub copy_into_nil : (src : List ℕ) → copy [] src ≡ []
copy_into_nil [] = refl
copy_into_nil (s ∷ src) = refl

pub length-copy : (dst src : List ℕ) → length (copy dst src) ≡ length dst
length-copy dst [] = refl
length-copy [] (s ∷ src) = refl
length-copy (d ∷ dst) (s ∷ src) = ap suc (length-copy dst src)

pub length-copy_at : (k : ℕ) (src b : List ℕ) → length (copy_at k src b) ≡ length b
length-copy_at zero src b = length-copy b src
length-copy_at (suc k) src [] = refl
length-copy_at (suc k) src (x ∷ b) = ap suc (length-copy_at k src b)

pub u32_at-drop : (k : ℕ) (b : List ℕ) → u32_at b k ≡ u32_at (drop k b) 0
u32_at-drop k b = rw (
  ← get_or-drop k 0 b 0,
  ← get_or-drop k 1 b 0,
  ← get_or-drop k 2 b 0,
  ← get_or-drop k 3 b 0,
  add-zero,
)

pub u32-be32 : (v : ℕ) (rest : List ℕ) → v < 2 ^ 32 → u32_at (be32 v ++ rest) 0 ≡ v
u32-be32 v rest h = omega arith

pub u16-be16 : (v : ℕ) (rest : List ℕ) → v < 2 ^ 16 → u16_at (be16 v ++ rest) 0 ≡ v
u16-be16 v rest h = omega arith
