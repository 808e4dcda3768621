-- ===== src/Base/Text.antt =====
-- Text as a list of bytes: literals, numbers in decimal, and what Go's package `strings` does.
use Prim.Native.Char.{code}
use Prim.Native.String.{String}
use Prim.Native.Nat.{ℕ, zero, suc, ◌+◌, ◌/◌, ◌%◌, ◌≤◌}
use mathlib.Core.Path.{◌≡◌, refl, ap, ◌∙◌}
use mathlib.Core.Logic.{◌≢◌, inl, inr}
use mathlib.Core.Bool.{Bool, true, ◌&&◌, ◌||◌}
use mathlib.Core.List.{List, [], ◌∷◌, ◌++◌}
use native.Mathlib.Omega.{arith}
use psa_dhcp.Base.Lists.{All, All-append}
use psa_dhcp.Base.Tests.{Bool-cases, ltb, leb, ◌==◌, if◌then◌else◌}

-- The bytes of an ASCII literal.
abbrev pub codes : String → List ℕ
codes String.[] = []
codes (String.◌∷◌ c s) = code c ∷ codes s

-- `%d`, on fuel: a number has fewer digits than it counts, but for 0.
unfoldable pub decimal_digits : ℕ → ℕ → List ℕ
decimal_digits zero n = []
decimal_digits (suc fuel) n =
    let front = decimal_digits fuel (n / 10) in
    if ltb n 10 then (48 + n) ∷ [] else front ++ ((48 + n % 10) ∷ [])

unfoldable pub decimal : ℕ → List ℕ
unfolding decimal_digits
decimal n = decimal_digits (suc n) n

abbrev pub is_digit : ℕ → Bool
is_digit c = leb 48 c && leb c 57

abbrev pub is_alnum : ℕ → Bool
is_alnum c = is_digit c || leb 65 c && leb c 90 || leb 97 c && leb c 122

-- What stands before the first separator, and what follows.
abbrev pub cons_first : ℕ → List (List ℕ) → List (List ℕ)
cons_first c [] = (c ∷ []) ∷ []
cons_first c (w ∷ ws) = (c ∷ w) ∷ ws

-- `strings.Split(s, sep)` and `strings.Join(ws, sep)`, for a separator of one byte.
unfoldable pub split : ℕ → List ℕ → List (List ℕ)
split sep [] = [] ∷ []
split sep (c ∷ s) = let rest = split sep s in if c == sep then [] ∷ rest else cons_first c rest

unfoldable pub join : ℕ → List (List ℕ) → List ℕ
join sep [] = []
join sep (w ∷ []) = w
join sep (w ∷ v ∷ ws) = w ++ (sep ∷ join sep (v ∷ ws))

abbrev pub Lacks : ℕ → List ℕ → Type 0
Lacks sep w = All (λ c. c ≢ sep) w

split-word : (sep : ℕ) (w : List ℕ) → Lacks sep w → split sep w ≡ w ∷ []
unfolding split
split-word sep [] h = refl
split-word sep (c ∷ w) (hc, h) = let rest = split-word sep w h in ground (arith, rest)

split-append : (sep : ℕ) (w s : List ℕ) → Lacks sep w → split sep (w ++ (sep ∷ s)) ≡ w ∷ split sep s
unfolding split
split-append sep [] s h = ground arith
split-append sep (c ∷ w) s (hc, h) = let rest = split-append sep w s h in ground (arith, rest)

-- What was joined is split into the same words, if none of them holds the separator.
pub split-join :
    (sep : ℕ) (w : List ℕ) (ws : List (List ℕ))
    → All (Lacks sep) (w ∷ ws)
    → split sep (join sep (w ∷ ws)) ≡ w ∷ ws
unfolding join
split-join sep w [] (h, _) = split-word sep w h
split-join sep w (v ∷ ws) (h, hs) =
    split-append sep w (join sep (v ∷ ws)) h ∙ ap (λ l. w ∷ l) (split-join sep v ws hs)

-- A byte of a number in decimal.
abbrev pub IsDigit : ℕ → Type 0
IsDigit c = (48 ≤ c) × (c ≤ 57)

decimal_digits-IsDigit : (fuel n : ℕ) → All IsDigit (decimal_digits fuel n)
unfolding decimal_digits
decimal_digits-IsDigit zero n = tt
decimal_digits-IsDigit (suc fuel) n = elim (Bool-cases (ltb n 10)) [
  | inl one ↦ rw (one, decimal_digits) ((omega arith, small n one), tt)
  | inr more ↦
      rw (more, decimal_digits)
        (All-append IsDigit (decimal_digits fuel (n / 10)) ((48 + n % 10) ∷ [])
          (decimal_digits-IsDigit fuel (n / 10)) ((omega arith, omega arith), tt))
]
  where
    small : (n : ℕ) → ltb n 10 ≡ true → 48 + n ≤ 57
    small n h = ground arith

pub decimal-IsDigit : (n : ℕ) → All IsDigit (decimal n)
unfolding decimal
decimal-IsDigit n = decimal_digits-IsDigit (suc n) n

pub decimal-not_nil : (n : ℕ) → decimal n ≢ []
unfolding decimal decimal_digits
decimal-not_nil n h = elim (Bool-cases (ltb n 10)) [
  | inl one ↦ cc (rw (one, decimal_digits) at h)
  | inr more ↦
      end-not_nil (decimal_digits n (n / 10)) (48 + n % 10) (rw (more, decimal_digits) at h)
]
  where
    end-not_nil : (l : List ℕ) (c : ℕ) → l ++ (c ∷ []) ≡ [] → ⊥
    end-not_nil [] c h = cc
    end-not_nil (x ∷ l) c h = cc
