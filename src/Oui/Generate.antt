-- ===== src/Oui/Generate.antt =====
-- lib/oui/gen-liboui.go: the entries that are printed.
use mathlib.Core.Path.{subst}
use psa_dhcp.Base.{
  Option-cases, inl, inr, ℕ, ◌≤◌, ◌≡◌, ◌↔◌, suc, refl, sym, ap, ◌∙◌, arith, Option, none, some,
  List, [], ◌∷◌, map, length,
}

abbrev pub Entry : Type 0
Entry = ℕ × List ℕ

-- The lines that match the pattern, each with its number and its name, as two slices.
unfoldable pub entries :
    (parse_line : List ℕ → Option Entry) → List (List ℕ) → List ℕ × List (List ℕ)
entries parse_line [] = ([], [])
entries parse_line (line ∷ lines) =
    let rest = entries parse_line lines in
    elim (parse_line line) [ none ↦ rest | some (xid, name) ↦ (xid ∷ rest.0, name ∷ rest.1) ]

-- The loop that prints: the i-th number with the i-th name.
unfoldable pub print_entries : List ℕ → List (List ℕ) → List Entry
print_entries [] names = []
print_entries (id ∷ ids) [] = []
print_entries (id ∷ ids) (name ∷ names) = (id, name) ∷ print_entries ids names

-- `sort.Ints(k)` sorts the numbers alone.
unfoldable pub generate :
    (sort : List ℕ → List ℕ) → (parse_line : List ℕ → Option Entry) → List (List ℕ) → List Entry
unfolding entries print_entries
generate sort parse_line lines = let (k, v) = entries parse_line lines in print_entries (sort k) v

-- The entries of the lines themselves.
abbrev pub intended : (parse_line : List ℕ → Option Entry) → List (List ℕ) → List Entry
intended parse_line [] = []
intended parse_line (line ∷ lines) = elim (parse_line line) [
  | none ↦ intended parse_line lines
  | some e ↦ e ∷ intended parse_line lines
]

abbrev pub IsSorted : List ℕ → Type 0
IsSorted [] = Unit {0}
IsSorted (x ∷ []) = Unit {0}
IsSorted (x ∷ y ∷ l) = (x ≤ y) × IsSorted (y ∷ l)

module _ (parse_line : List ℕ → Option Entry) where
  print_entries-entries :
      (lines : List (List ℕ))
      → print_entries (entries parse_line lines).0 (entries parse_line lines).1
        ≡ intended parse_line lines
  unfolding entries print_entries
  print_entries-entries [] = refl
  print_entries-entries (line ∷ lines) = elim (Option-cases (parse_line line)) [
    | inl e ↦ rw (e, entries, intended) (print_entries-entries lines)
    | inr (x, e) ↦
        rw (e, entries, intended, print_entries) (ap (λ l. x ∷ l) (print_entries-entries lines))
  ]

  same_length :
      (lines : List (List ℕ))
      → length (entries parse_line lines).0 ≡ length (entries parse_line lines).1
  unfolding entries
  same_length [] = refl
  same_length (line ∷ lines) = elim (Option-cases (parse_line line)) [
    | inl e ↦ rw (e, entries) (same_length lines)
    | inr (x, e) ↦ rw (e, entries) (ap suc (same_length lines))
  ]

ids : List Entry → List ℕ
ids es = map (λ (e : Entry). e.0) es

ids-print_entries :
    (k : List ℕ) (v : List (List ℕ)) → length k ≡ length v → ids (print_entries k v) ≡ k
unfolding ids print_entries
ids-print_entries [] v h = refl
ids-print_entries (x ∷ k) [] h = absurd (omega arith)
ids-print_entries (x ∷ k) (y ∷ v) h = ap (λ l. x ∷ l) (ids-print_entries k v (omega arith))

-- If `sort.Ints` sorts, keeps the length and leaves a sorted slice as it is, then the printed table
-- is that of the lines exactly if their numbers are sorted already.
pub generate-intended_iff :
    (sort : List ℕ → List ℕ) (parse_line : List ℕ → Option Entry) (lines : List (List ℕ))
    → ((l : List ℕ) → IsSorted (sort l))
    → ((l : List ℕ) → length (sort l) ≡ length l)
    → ((l : List ℕ) → IsSorted l → sort l ≡ l)
    → (generate sort parse_line lines ≡ intended parse_line lines)
      ↔ IsSorted (entries parse_line lines).0
unfolding generate
generate-intended_iff sort parse_line lines sorts same_size keeps = (
  λ h.
      subst IsSorted
        (sym (ids-print_entries (sort k) v (same_size k ∙ same_length parse_line lines))
          ∙ ap ids (h ∙ sym (print_entries-entries parse_line lines))
          ∙ ids-print_entries k v (same_length parse_line lines))
        (sorts k),
  λ h. ap (λ l. print_entries l v) (keeps k h) ∙ print_entries-entries parse_line lines,
)
  where
    k : List ℕ
    k = (entries parse_line lines).0

    v : List (List ℕ)
    v = (entries parse_line lines).1
