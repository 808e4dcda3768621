-- ===== src/Libif/Routes.antt =====
-- What `SetIface` configures.
use psa_dhcp.Base.{
  ℕ, ◌≡◌, if◌then◌else◌, ltb, Option, none, some, List, [], ◌∷◌, ◌++◌, All, ok, inl, inr,
  Option-cases, Bool-cases,
}
use psa_dhcp.Net.{Ip, is_nil, ip_equal}
use psa_dhcp.Client.Dclient.{Ifconfig}
use psa_dhcp.Libif.{
  Route, Interface, Change, addr_replace, route_del, route_add, link_set_mtu, NetError, Answers,
  Effect, then_change, default_route, address_to_set, new_route, set_mtu, set_router, set_iface,
}

-- The changes of the default route: nothing without a router or where the old route leads to it;
-- otherwise the old route is removed, if there is one, and then the new one is added.
abbrev pub route_plan : Interface → (router : Ip) → (old : Option Route) → List Change
route_plan iface router none = if is_nil router then [] else route_add (new_route iface router) ∷ []
route_plan iface router (some r) =
    if is_nil router
    then []
    else if ip_equal r.gw router
    then []
    else route_del r ∷ route_add (new_route iface router) ∷ []

abbrev pub mtu_plan : ℕ → List Change
mtu_plan mtu = if ltb 0 mtu then link_set_mtu mtu ∷ [] else []

abbrev pub plan : Interface → Ifconfig → (old : Option Route) → List Change
plan iface c old =
    addr_replace (address_to_set c) ∷ (route_plan iface c.router old ++ mtu_plan c.mtu)

-- How a list of changes ends: all succeed, or one fails and those behind it are not made.
pub data Performed (a : Answers) : List Change → Effect → Type 0 where
  complete : (cs : List Change) → All (λ c. a.changed c ≡ none) cs → Performed a cs (none, cs)
  stopped :
      (before : List Change) (c : Change) (after : List Change) (e : NetError)
      → All (λ c. a.changed c ≡ none) before
      → a.changed c ≡ some e
      → Performed a (before ++ (c ∷ after)) (some e, before ++ (c ∷ []))

module _ (a : Answers) where
  then_change-Performed :
      (c : Change) {cs : List Change} {r : Effect}
      → Performed a cs r
      → Performed a (c ∷ cs) (then_change a c r)
  unfolding then_change
  then_change-Performed c (complete cs h) = elim (Option-cases (a.changed c)) [
    | inl e ↦ rw (e, then_change) (complete (c ∷ cs) (e, h))
    | inr (er, e) ↦ rw (e, then_change) (stopped [] c cs er tt e)
  ]
  then_change-Performed c (stopped before d after er h hd) = elim (Option-cases (a.changed c)) [
    | inl e ↦ rw (e, then_change) (stopped (c ∷ before) d after er (e, h) hd)
    | inr (er', e) ↦ rw (e, then_change) (stopped [] c (before ++ (d ∷ after)) er' tt e)
  ]

  set_mtu-Performed : (mtu : ℕ) → Performed a (mtu_plan mtu) (set_mtu a mtu)
  unfolding set_mtu
  set_mtu-Performed mtu = elim (Bool-cases (ltb 0 mtu)) [
    | inl e ↦ rw (e, set_mtu) (then_change-Performed (link_set_mtu mtu) (complete [] tt))
    | inr e ↦ rw (e, set_mtu) (complete [] tt)
  ]

  set_router-Performed :
      (iface : Interface) (router : Ip) (old : Option Route) {cs : List Change} {r : Effect}
      → Performed a cs r
      → Performed a (route_plan iface router old ++ cs) (set_router a iface router old r)
  unfolding set_router
  set_router-Performed iface router none {cs} {r} p = elim (Bool-cases (is_nil router)) [
    | inl e ↦ rw (e, set_router) p
    | inr e ↦ rw (e, set_router) (then_change-Performed (route_add (new_route iface router)) p)
  ]
  set_router-Performed iface router (some old) {cs} {r} p = elim (Bool-cases (is_nil router)) [
    | inl e ↦ rw (e, set_router) p
    | inr e ↦ elim (Bool-cases (ip_equal old.gw router)) [
      | inl e' ↦ rw (e, e', set_router) p
      | inr e' ↦
          rw (e, e', set_router)
            (then_change-Performed (route_del old)
              (then_change-Performed (route_add (new_route iface router)) p))
    ]
  ]

  -- Where the interface and its old default route are found, `SetIface` makes the changes of the
  -- plan in their order, up to the first that fails, and returns that one's error: the address with
  -- its mask and lifetime, then the default route, then the MTU.
  pub set_iface-Performed :
      (iface : Interface) (c : Ifconfig) {old : Option Route}
      → a.link ≡ none
      → default_route a ≡ ok old
      → Performed a (plan iface c old) (set_iface a iface c)
  unfolding set_iface
  set_iface-Performed iface c {old} link route =
      simp (link, route, set_iface)
        (then_change-Performed (addr_replace (address_to_set c))
          (set_router-Performed iface c.router old (set_mtu-Performed c.mtu)))
