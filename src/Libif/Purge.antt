-- ===== src/Libif/Purge.antt =====
-- What `Unconfigure` removes.
use psa_dhcp.Base.{
  ℕ, ◌≡◌, true, Option, none, some, List, [], ◌∷◌, map, All, All-append, Result, ok, inl, inr,
  Option-cases, Result-cases, Bool-cases, bytes_eq,
}
use psa_dhcp.Libif.{
  Addr, Route, Interface, Change, addr_del, route_del, NetError, Answers, is_default, first_default,
  default_route, labelled, unconfigure,
}

-- The removal of an address that carries the interface's own name, or of a default route.
pub data IsPurge (name : List ℕ) : Change → Type 0 where
  of_address : (x : Addr) → bytes_eq x.label name ≡ true → IsPurge name (addr_del x)
  of_route : (r : Route) → is_default r ≡ true → IsPurge name (route_del r)

labelled-IsPurge :
    (name : List ℕ) (xs : List Addr) → All (IsPurge name) (map addr_del (labelled name xs))
unfolding labelled
labelled-IsPurge name [] = tt
labelled-IsPurge name (x ∷ xs) = elim (Bool-cases (bytes_eq x.label name)) [
  | inl e ↦ rw (e, labelled) (of_address x e, labelled-IsPurge name xs)
  | inr e ↦ rw (e, labelled) (labelled-IsPurge name xs)
]

first_default-is_default :
    (rs : List Route) {r : Route} → first_default rs ≡ some r → is_default r ≡ true
unfolding first_default
first_default-is_default [] h = cc
first_default-is_default (x ∷ rs) {r} h = elim (Bool-cases (is_default x)) [
  | inl e ↦ cc (rw (e, first_default) at h)
  | inr e ↦ first_default-is_default rs (rw (e, first_default) at h)
]

default_route-is_default :
    (a : Answers) {r : Route} → default_route a ≡ ok (some r) → is_default r ≡ true
unfolding default_route
default_route-is_default a {r} h = elim (Option-cases a.route_link) [
  | inr (e, he) ↦ cc (rw (he, default_route) at h)
  | inl he ↦ elim (Result-cases a.routes) [
    | inr (e, hr) ↦ cc (rw (he, default_route, hr) at h)
    | inl (rs, hr) ↦ first_default-is_default rs (inner (rw (he, default_route, hr) at h))
  ]
]
  where
    inner :
        {o : Option Route}
        → ◌≡◌ {A = Result NetError (Option Route)} (ok o) (ok (some r))
        → o ≡ some r
    inner h = cc

-- Whatever netlink answers, `Unconfigure` removes nothing but addresses that carry the interface's
-- own name, so none of its aliases, and default routes.
pub unconfigure-IsPurge :
    (a : Answers) (iface : Interface) → All (IsPurge iface.name) (unconfigure a iface).1
unfolding unconfigure
unconfigure-IsPurge a iface = elim (Option-cases a.link) [
  | inr (e, h) ↦ rw (h, unconfigure) tt
  | inl h ↦ elim (Result-cases a.addrs) [
    | inr (e, h1) ↦ rw (h, unconfigure, h1) tt
    | inl (xs, h1) ↦ elim (Result-cases (default_route a)) [
      | inr (e, h2) ↦ rw (h, unconfigure, h1, h2) (labelled-IsPurge iface.name xs)
      | inl (none, h2) ↦ rw (h, unconfigure, h1, h2) (labelled-IsPurge iface.name xs)
      | inl (some r, h2) ↦
          rw (h, unconfigure, h1, h2)
            (All-append (IsPurge iface.name) (map addr_del (labelled iface.name xs))
              (route_del r ∷ []) (labelled-IsPurge iface.name xs)
              (of_route r (default_route-is_default a h2), tt))
    ]
  ]
]
