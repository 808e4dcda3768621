-- ===== src/Base/Fill.antt =====
-- A buffer that is written from front to back: what is written so far, and zeros behind it.
use psa_dhcp.Base.Lists.{length, take, length-append, length-replicate}
use psa_dhcp.Base.Bytes.{copy, copy_into_nil, copy_at, zeros}
use Prim.Native.Nat.{ℕ, zero, suc, ◌+◌, ◌≤◌}
use mathlib.Core.Path.{◌≡◌, refl, ap, ◌∙◌}
use mathlib.Core.List.{List, [], ◌∷◌, ◌++◌, append_assoc}
use native.Mathlib.Omega.{arith}

-- The first `k` of the `k + n` bytes of `b` are `p`, and the rest is 0.
pub record Filled (k n : ℕ) (p b : List ℕ) : Type 0 where
  pub count : length p ≡ k
  pub shape : b ≡ p ++ zeros n

copy-zeros : (src : List ℕ) (n m : ℕ) → n ≡ length src + m → copy (zeros n) src ≡ src ++ zeros m
copy-zeros [] zero zero h = refl
copy-zeros [] zero (suc m) h = absurd (omega arith)
copy-zeros [] (suc n) zero h = absurd (omega arith)
copy-zeros [] (suc n) (suc m) h = let e : n ≡ m = omega arith in rw e
copy-zeros (s ∷ src) zero m h = absurd (omega arith)
copy-zeros (s ∷ src) (suc n) m h = ap (λ l. s ∷ l) (copy-zeros src n m (omega arith))

copy_at-append :
    (p b src : List ℕ) (k : ℕ) → length p ≡ k → copy_at k src (p ++ b) ≡ p ++ copy b src
copy_at-append [] b src zero h = refl
copy_at-append [] b src (suc k) h = absurd (omega arith)
copy_at-append (x ∷ p) b src zero h = absurd (omega arith)
copy_at-append (x ∷ p) b src (suc k) h = ap (λ l. x ∷ l) (copy_at-append p b src k (omega arith))

pub start : (n : ℕ) → Filled 0 n [] (zeros n)
start n = record { count = refl; shape = refl }

-- The next `j` bytes.
pub put :
    {k n : ℕ} {p b : List ℕ} (j m : ℕ) (src : List ℕ)
    → Filled k n p b
    → length src ≡ j
    → n ≡ j + m
    → Filled (k + j) m (p ++ src) (copy_at k src b)
put {k} {n} {p} j m src f hj hn = record {
  count = omega (arith, length-append p src, f.count);
  shape =
      rw (f.shape, append_assoc)
        (copy_at-append p (zeros n) src k f.count
          ∙ ap (λ l. p ++ l) (copy-zeros src n m (omega arith)));
}

zeros-add : (j m : ℕ) → zeros (j + m) ≡ zeros j ++ zeros m
zeros-add zero m = let e : zero + m ≡ m = omega arith in rw e
zeros-add (suc j) m =
    let e : suc j + m ≡ suc (j + m) = omega arith in rw e (ap (λ l. 0 ∷ l) (zeros-add j m))

-- `j` bytes that are left as they are.
pub skip :
    {k n : ℕ} {p b : List ℕ} (j m : ℕ)
    → Filled k n p b
    → n ≡ j + m
    → Filled (k + j) m (p ++ zeros j) b
skip {p} j m f hn = record {
  count = omega (arith, length-append p (zeros j), length-replicate {A = ℕ} j 0, f.count);
  shape = f.shape ∙ rw (hn, zeros-add, append_assoc);
}

-- `src` cut or padded with zeros to `j` bytes.
abbrev pub fit : ℕ → List ℕ → List ℕ
fit zero src = []
fit (suc j) [] = 0 ∷ fit j []
fit (suc j) (s ∷ src) = s ∷ fit j src

pub length-fit : (j : ℕ) (src : List ℕ) → length (fit j src) ≡ j
length-fit zero src = refl
length-fit (suc j) [] = ap suc (length-fit j [])
length-fit (suc j) (s ∷ src) = ap suc (length-fit j src)

fit-nil : (j : ℕ) → fit j [] ≡ zeros j
fit-nil zero = refl
fit-nil (suc j) = ap (λ l. 0 ∷ l) (fit-nil j)

copy-fit : (j m : ℕ) (src : List ℕ) → copy (zeros (j + m)) (take j src) ≡ fit j src ++ zeros m
copy-fit zero m src = let e : zero + m ≡ m = omega arith in rw e
copy-fit (suc j) m [] =
    let e : suc j + m ≡ suc (j + m) = omega arith in
    rw (e, fit-nil) (ap (λ l. 0 ∷ l) (zeros-add j m))
copy-fit (suc j) m (s ∷ src) =
    let e : suc j + m ≡ suc (j + m) = omega arith in rw e (ap (λ l. s ∷ l) (copy-fit j m src))

-- A copy into a window of `j` bytes.
pub put_fit :
    {k n : ℕ} {p b : List ℕ} (j m : ℕ) (src : List ℕ)
    → Filled k n p b
    → n ≡ j + m
    → Filled (k + j) m (p ++ fit j src) (copy_at k (take j src) b)
put_fit {k} {n} {p} j m src f hn = record {
  count = omega (arith, length-append p (fit j src), length-fit j src, f.count);
  shape =
      rw (f.shape, append_assoc)
        (copy_at-append p (zeros n) (take j src) k f.count
          ∙ ap (λ l. p ++ l) (rw hn (copy-fit j m src)));
}

-- What fits is kept.
pub take-fit :
    (j : ℕ) (src rest : List ℕ) → length src ≤ j → take (length src) (fit j src ++ rest) ≡ src
take-fit j [] rest h = refl
take-fit zero (s ∷ src) rest h = absurd (omega arith)
take-fit (suc j) (s ∷ src) rest h = ap (λ l. s ∷ l) (take-fit j src rest (omega arith))

pub copy-fit_back :
    (j : ℕ) (src rest : List ℕ)
    → length src ≤ j
    → copy (zeros (length src)) (fit j src ++ rest) ≡ src
copy-fit_back j [] rest h = copy_into_nil (fit j [] ++ rest)
copy-fit_back zero (s ∷ src) rest h = absurd (omega arith)
copy-fit_back (suc j) (s ∷ src) rest h = ap (λ l. s ∷ l) (copy-fit_back j src rest (omega arith))

pub copy-zeros_back :
    (n : ℕ) (src rest : List ℕ) → length src ≡ n → copy (zeros n) (src ++ rest) ≡ src
copy-zeros_back zero [] rest h = copy_into_nil rest
copy-zeros_back (suc n) [] rest h = absurd (omega arith)
copy-zeros_back zero (s ∷ src) rest h = absurd (omega arith)
copy-zeros_back (suc n) (s ∷ src) rest h =
    ap (λ l. s ∷ l) (copy-zeros_back n src rest (omega arith))
