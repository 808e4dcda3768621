-- ===== src/Ipdb/Clients/Laws.antt =====
-- Who holds an address.
use psa_dhcp.Base.{ℕ, ◌≡◌, sym, ap, ◌∙◌, false, some, List}
use psa_dhcp.Ipdb.Uip.{uip_string}
use psa_dhcp.Ipdb.Duid.{duid_string}
use psa_dhcp.Ipdb.Clients.{Clients, expired}
use psa_dhcp.Ipdb.Clients.Invariant.{IsConsistent}

module _ {now : ℕ} {cx : Clients} (w : IsConsistent now cx) {k j : List ℕ} {p q : ℕ} where
  -- In a consistent map, of the entries that have not expired at most one client holds an address,
  -- and a client holds at most one address.
  pub one_holder :
      cx.m k ≡ some p
      → cx.m j ≡ some q
      → expired now (cx.cell p) ≡ false
      → expired now (cx.cell q) ≡ false
      → ((cx.cell p).ip ≡ (cx.cell q).ip → p ≡ q) × ((cx.cell p).duid ≡ (cx.cell q).duid → p ≡ q)
  one_holder hp hq lp lq =
      let (ui, di) = w.paired k p hp lp in
      let (uj, dj) = w.paired j q hq lq in
      (
        λ e. cc (sym ui ∙ ap (λ x. cx.m (uip_string x)) e ∙ uj),
        λ e. cc (sym di ∙ ap (λ x. cx.m (duid_string x)) e ∙ dj),
      )
