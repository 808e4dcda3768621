-- ===== src/Ipdb/Db/Search.antt =====
-- How the search for a free address goes.
use mathlib.Core.Path.{subst}
use psa_dhcp.Base.{
  ℕ, ◌+◌, ◌%◌, ◌^◌, ◌≤◌, ◌≡◌, true, Option, none, some, List, [], ◌∷◌, inl, inr, Option-cases,
  Bool-cases, All,
}
use psa_dhcp.Ipdb.Uip.{Uip, to_v4, is_valid, uip_string}
use psa_dhcp.Ipdb.Clients.{Clients, lookup}
use psa_dhcp.Ipdb.Clients.Invariant.{IsConsistent, some_eq}
use psa_dhcp.Ipdb.Clients.Outcomes.{
  LookedBoth, lookup-LookedBoth, LookedBoth-IsConsistent-later, LookedBoth-keeps_none,
  LookedBoth-no_ip,
}
use psa_dhcp.Ipdb.Clients.Bounded.{IsBounded, LookedBoth-IsBounded}
use psa_dhcp.Ipdb.Db.{Round, find_loop}

-- The address at an offset of the range.
abbrev pub pick : ℕ → ℕ → Uip
pick dyn_from v = (dyn_from + v % 2 ^ 32) % 2 ^ 32

pub data Searched (env : ℕ → Round) (dyn_from : ℕ)
    : ℕ → List ℕ → Clients → Option Uip × Clients → Type 0 where
  gave_up : {i : ℕ} {p : List ℕ} {cx : Clients} → Searched env dyn_from i p cx (none, cx)
  chosen :
      {i v : ℕ} {p : List ℕ} {cx : Clients} {r : Option ℕ × Option ℕ × Clients}
      → LookedBoth (env i).now (pick dyn_from v) [] cx r
      → r.0 ≡ none
      → is_valid (pick dyn_from v) ≡ true
      → (env i).is_free (to_v4 (pick dyn_from v)) ≡ true
      → Searched env dyn_from i (v ∷ p) cx (some (pick dyn_from v), r.2)
  passed :
      {i v : ℕ} {p : List ℕ} {cx : Clients} {r : Option ℕ × Option ℕ × Clients}
      {s : Option Uip × Clients}
      → LookedBoth (env i).now (pick dyn_from v) [] cx r
      → Searched env dyn_from (i + 1) p r.2 s
      → Searched env dyn_from i (v ∷ p) cx s

pub find_loop-Searched :
    (env : ℕ → Round) (i dyn_from : ℕ) (p : List ℕ) (cx : Clients)
    → Searched env dyn_from i p cx (find_loop env i dyn_from p cx)
unfolding find_loop
find_loop-Searched env i dyn_from [] cx = gave_up
find_loop-Searched env i dyn_from (v ∷ p) cx =
    let l = lookup-LookedBoth (env i).now (pick dyn_from v) [] cx in
    let rest = passed l (find_loop-Searched env (i + 1) dyn_from p _) in
    elim (Bool-cases (env i).cancelled) [
      | inl e ↦ rw (e, find_loop) gave_up
      | inr e ↦ elim (Option-cases (lookup (env i).now (pick dyn_from v) [] cx).0) [
        | inr (q, h) ↦ rw (e, find_loop, h) rest
        | inl h ↦ elim (Bool-cases (is_valid (pick dyn_from v))) [
          | inr bad ↦ rw (e, find_loop, h, bad) rest
          | inl good ↦ elim (Bool-cases ((env i).is_free (to_v4 (pick dyn_from v)))) [
            | inr busy ↦ rw (e, find_loop, h, good, busy) rest
            | inl free ↦ rw (e, find_loop, h, good, free) (chosen l h good free)
          ]
        ]
      ]
    ]

module _ {env : ℕ → Round} {dyn_from : ℕ} where
  pub Searched-IsConsistent :
      {later i : ℕ} {p : List ℕ} {cx : Clients} {r : Option Uip × Clients}
      → ((j : ℕ) → (env j).now ≤ later)
      → Searched env dyn_from i p cx r
      → IsConsistent later cx
      → IsConsistent later r.1
  Searched-IsConsistent t gave_up w = w
  Searched-IsConsistent {i} t (chosen l _ _ _) w = LookedBoth-IsConsistent-later (t i) l w
  Searched-IsConsistent {i} t (passed l s) w =
      Searched-IsConsistent t s (LookedBoth-IsConsistent-later (t i) l w)

  pub Searched-IsBounded :
      {lo hi i : ℕ} {p : List ℕ} {cx : Clients} {r : Option Uip × Clients}
      → Searched env dyn_from i p cx r
      → IsBounded lo hi cx
      → IsBounded lo hi r.1
  Searched-IsBounded gave_up b = b
  Searched-IsBounded (chosen l _ _ _) b = LookedBoth-IsBounded b l
  Searched-IsBounded (passed l s) b = Searched-IsBounded s (LookedBoth-IsBounded b l)

  pub Searched-keeps_none :
      {i : ℕ} {p : List ℕ} {cx : Clients} {r : Option Uip × Clients} (k : List ℕ)
      → Searched env dyn_from i p cx r
      → cx.m k ≡ none
      → r.1.m k ≡ none
  Searched-keeps_none k gave_up h = h
  Searched-keeps_none k (chosen l _ _ _) h = LookedBoth-keeps_none k l h
  Searched-keeps_none k (passed l s) h = Searched-keeps_none k s (LookedBoth-keeps_none k l h)

  -- What is chosen is valid, free in some round, has no entry, and is one of the offsets.
  pub Searched-some :
      {i : ℕ} {p : List ℕ} {cx : Clients} {r : Option Uip × Clients} {n : Uip} (Good : Uip → Type 0)
      → Searched env dyn_from i p cx r
      → r.0 ≡ some n
      → All (λ v. Good (pick dyn_from v)) p
      → (is_valid n ≡ true)
        × ((j : ℕ) × ((env j).is_free (to_v4 n) ≡ true))
        × (r.1.m (uip_string n) ≡ none)
        × Good n
  Searched-some Good gave_up h all = cc
  Searched-some {i} {n} Good (chosen {v} {r} l e good free) h (ok_v, _) =
      let same : pick dyn_from v ≡ n = some_eq h in
      subst
        (λ u.
          (is_valid u ≡ true)
          × ((j : ℕ) × ((env j).is_free (to_v4 u) ≡ true))
          × (r.2.m (uip_string u) ≡ none)
          × Good u)
        same (good, (i, free), LookedBoth-no_ip l e, ok_v)
  Searched-some Good (passed l s) h (_, all) = Searched-some Good s h all
