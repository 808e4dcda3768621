-- ===== src/Tests/Sorting.antt =====
-- A run of the generator of the table of vendors with insertion sort, on lines that are out of order.
use psa_dhcp.Base.{
  ℕ, suc, ◌≤◌, ◌≡◌, ◌↔◌, refl, ap, ◌∙◌, arith, true, false, Option, none, some, List, [], ◌∷◌,
  length, leb, if◌then◌else◌, Bool-cases, inl, inr,
}
use psa_dhcp.Base.Text.{codes}
use psa_dhcp.Oui.Generate.{Entry, entries, generate, intended, IsSorted, generate-intended_iff}

insert_in : ℕ → List ℕ → List ℕ
insert_in x [] = x ∷ []
insert_in x (y ∷ l) = let rest = insert_in x l in if leb x y then x ∷ y ∷ l else y ∷ rest

sort_ints : List ℕ → List ℕ
sort_ints [] = []
sort_ints (x ∷ l) = insert_in x (sort_ints l)

length-insert_in : (x : ℕ) (l : List ℕ) → length (insert_in x l) ≡ suc (length l)
unfolding insert_in
length-insert_in x [] = refl
length-insert_in x (y ∷ l) = elim (Bool-cases (leb x y)) [
  | inl e ↦ rw (e, insert_in) refl
  | inr e ↦ rw (e, insert_in) (ap suc (length-insert_in x l))
]

length-sort_ints : (l : List ℕ) → length (sort_ints l) ≡ length l
unfolding sort_ints
length-sort_ints [] = refl
length-sort_ints (x ∷ l) = length-insert_in x (sort_ints l) ∙ ap suc (length-sort_ints l)

from_leb : (x y : ℕ) → leb x y ≡ true → x ≤ y
from_leb x y e = ground arith

from_not_leb : (x y : ℕ) → leb x y ≡ false → y ≤ x
from_not_leb x y e = ground arith

insert_in-IsSorted : (x : ℕ) (l : List ℕ) → IsSorted l → IsSorted (insert_in x l)
unfolding insert_in
insert_in-IsSorted x [] h = tt
insert_in-IsSorted x (y ∷ []) h = elim (Bool-cases (leb x y)) [
  | inl e ↦ rw (e, insert_in) (from_leb x y e, tt)
  | inr e ↦ rw (e, insert_in) (from_not_leb x y e, tt)
]
insert_in-IsSorted x (y ∷ z ∷ l) (yz, h) =
    let rest = insert_in-IsSorted x (z ∷ l) h in
    elim (Bool-cases (leb x y)) [
      | inl e ↦ rw (e, insert_in) (from_leb x y e, (yz, h))
      | inr e ↦ elim (Bool-cases (leb x z)) [
        | inl e' ↦ rw (e, e', insert_in) (from_not_leb x y e, (from_leb x z e', h))
        | inr e' ↦ rw (e, e', insert_in) (yz, rw (e', insert_in) at rest)
      ]
    ]

sort_ints-IsSorted : (l : List ℕ) → IsSorted (sort_ints l)
unfolding sort_ints
sort_ints-IsSorted [] = tt
sort_ints-IsSorted (x ∷ l) = insert_in-IsSorted x (sort_ints l) (sort_ints-IsSorted l)

to_leb : (x y : ℕ) → x ≤ y → leb x y ≡ true
to_leb x y h = ground arith

sort_ints-same : (l : List ℕ) → IsSorted l → sort_ints l ≡ l
unfolding sort_ints insert_in
sort_ints-same [] h = refl
sort_ints-same (x ∷ []) h = refl
sort_ints-same (x ∷ y ∷ l) (xy, h) =
    ap (insert_in x) (sort_ints-same (y ∷ l) h) ∙ rw (to_leb x y xy, insert_in) refl

-- A line is its number, and its name is always the same.
abbrev parse_line : List ℕ → Option Entry
parse_line [] = none
parse_line (x ∷ line) = some (x, line)

abbrev manuf : List (List ℕ)
manuf = (7 ∷ codes "Intel") ∷ (3 ∷ codes "Xerox") ∷ []

generate-intended_iff_example :
    (generate sort_ints parse_line manuf ≡ intended parse_line manuf)
    ↔ IsSorted (entries parse_line manuf).0
generate-intended_iff_example =
    generate-intended_iff sort_ints parse_line manuf sort_ints-IsSorted length-sort_ints
      sort_ints-same

mixed_up : generate sort_ints parse_line manuf ≡ (3, codes "Intel") ∷ (7, codes "Xerox") ∷ []
unfolding generate sort_ints insert_in
mixed_up = refl
