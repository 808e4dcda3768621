-- ===== src/Layer/Checksum/Sums.antt =====
-- The checksum as a sum: no carry is lost in the `uint32`, and the folded sum is the sum modulo
-- 2 ^ 16 - 1.
use psa_dhcp.Base.{
  ℕ, ◌+◌, ◌-◌, ◌*◌, ◌%◌, ◌^◌, ◌≤◌, ◌<◌, ◌≡◌, ◌∙◌, arith, List, [], ◌∷◌, length, All,
}
use psa_dhcp.Base.Bytes.{IsByte}
use psa_dhcp.Layer.Checksum.{csum_loop, fold_loop}

-- The sum of the 16-bit words, an odd byte being the high half of the last one.
abbrev pub words : List ℕ → ℕ
words [] = 0
words (x ∷ []) = x * 256
words (x ∷ y ∷ b) = x * 256 + y + words b

pub csum_loop-words :
    (b : List ℕ) (acc : ℕ) → acc + words b < 2 ^ 32 → csum_loop b acc ≡ acc + words b
unfolding csum_loop
csum_loop-words [] acc h = omega arith
csum_loop-words (x ∷ []) acc h = omega arith
csum_loop-words (x ∷ y ∷ b) acc h =
    let e : (acc + (x * 256 + y)) % 2 ^ 32 ≡ acc + (x * 256 + y) = omega arith in
    rw e (csum_loop-words b (acc + (x * 256 + y)) (omega arith) ∙ omega arith)

pub words-le : (b : List ℕ) → All IsByte b → words b ≤ 32768 * (length b + 1)
words-le [] h = omega arith
words-le (x ∷ []) h = omega arith
words-le (x ∷ y ∷ b) (hx, (hy, h)) = omega (arith, words-le b h)

-- Two rounds fold every `uint32` to 16 bits; only 0 becomes 0.
fold_loop_range :
    (a : ℕ) → a < 2 ^ 32 → (fold_loop 2 a < 2 ^ 16) × (fold_loop 2 a % 65535 ≡ a % 65535)
unfolding fold_loop
fold_loop_range a h = ground arith

fold_loop_pos : (a : ℕ) → 0 < a → 0 < fold_loop 2 a
unfolding fold_loop
fold_loop_pos a h = ground arith

fold_loop-le : (a : ℕ) → fold_loop 2 a ≤ a
unfolding fold_loop
fold_loop-le a = ground arith

-- A sum with its own checksum added folds to 2 ^ 16 - 1, whose complement is 0.
pub checksum_cancels :
    (a c : ℕ)
    → a + 65535 < 2 ^ 32
    → c ≡ 0xffff - fold_loop 2 a % 2 ^ 16
    → 0xffff - fold_loop 2 (a + c) % 2 ^ 16 ≡ 0
checksum_cancels a c h e =
    let (r1, r2) = fold_loop_range a (omega arith) in
    let (s1, s2) = fold_loop_range (a + c) (omega arith) in
    let p = fold_loop_pos (a + c) (omega (arith, fold_loop-le a)) in omega arith

-- A sum whose checksum is 0 is a multiple of 2 ^ 16 - 1.
pub checksum_multiple : (a : ℕ) → a < 2 ^ 32 → 0xffff - fold_loop 2 a % 2 ^ 16 ≡ 0 → a % 65535 ≡ 0
checksum_multiple a h e =
    let (r1, r2) = fold_loop_range a h in
    let full : fold_loop 2 a ≡ 65535 = omega (arith, r1, e) in omega (arith, r2, full)
