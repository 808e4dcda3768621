-- ===== src/Server/Started.antt =====
-- A server that was made: its own address is a permanent client's.
use mathlib.Core.Path.{subst}
use psa_dhcp.Base.{
  ℕ, ◌≡◌, ap, true, false, Bool, if◌then◌else◌, Option, none, some, List, [], ◌∷◌, Result, ok, err,
  inl, inr, ltb, Option-cases, Result-cases, Bool-cases,
}
use psa_dhcp.Net.{Ip, HardwareAddr, is_nil}
use psa_dhcp.Leaseopts.{LeaseOptions, ClientConfig, parse_config}
use psa_dhcp.Ipdb.Duid.{Duid}
use psa_dhcp.Ipdb.Clients.{Clients, ClientError, inject_permanent}
use psa_dhcp.Ipdb.Clients.Invariant.{IsConsistent, new_clients-IsConsistent}
use psa_dhcp.Ipdb.Clients.Kept.{inject_internal-IsConsistent}
use psa_dhcp.Ipdb.Db.{
  Ipdb, IpdbError, to_uip, new_ipdb, from_to, from_clients, set_dynamic_range, disable_dynamic,
  add_permanent_client,
}
use psa_dhcp.Ipdb.Db.Reserved.{HasHolder, added-HasHolder}
use psa_dhcp.Server.State.{Server, duid_from_hw_addr}
use psa_dhcp.Server.Config.{
  Config, Host, NewError, split_at_dash, range_of_words, lift_ipdb, with_dynamic_range, overridden,
  Overrides, section_client, section_override, add_section, add_sections, own_client, new_server,
}

abbrev pub Consistent : ℕ → Ipdb → Type 0
Consistent now ix = IsConsistent now ix.clients

set_dynamic_range-clients :
    (begin end : Ip) (ix : Ipdb) {ix' : Ipdb}
    → set_dynamic_range begin end ix ≡ ok ix'
    → ix.clients ≡ ix'.clients
unfolding set_dynamic_range
set_dynamic_range-clients begin end ix {ix'} h = elim (Result-cases (to_uip ix begin)) [
  | inr (e, he) ↦ cc (rw (he, set_dynamic_range) at h)
  | inl (b, hb) ↦ elim (Result-cases (to_uip ix end)) [
    | inr (e, he) ↦ cc (rw (hb, set_dynamic_range, he) at h)
    | inl (e, he) ↦ elim (Bool-cases (ltb e b)) [
      | inl bad ↦ cc (rw (hb, set_dynamic_range, he, bad) at h)
      | inr good ↦ ap (λ (x : Ipdb). x.clients) (made (rw (hb, set_dynamic_range, he, good) at h))
    ]
  ]
]
  where
    made : {a b : Ipdb} → ◌≡◌ {A = Result IpdbError Ipdb} (ok a) (ok b) → a ≡ b
    made h = cc

module _ (now : ℕ) where
  new_ipdb-Consistent :
      (network mask : List ℕ) {ix : Ipdb} → new_ipdb network mask ≡ ok ix → Consistent now ix
  unfolding new_ipdb
  new_ipdb-Consistent network mask {ix} h = elim (Result-cases (from_to network mask)) [
    | inr (e, he) ↦ cc (rw (he, new_ipdb) at h)
    | inl ((f, t), he) ↦
        subst (Consistent now) (made (rw (he, new_ipdb) at h)) (new_clients-IsConsistent now)
  ]
    where
      made : {a b : Ipdb} → ◌≡◌ {A = Result IpdbError Ipdb} (ok a) (ok b) → a ≡ b
      made h = cc

  add_permanent_client-Consistent :
      (ip : Ip) (duid : Duid) (ix : Ipdb)
      → Consistent now ix
      → Consistent now (add_permanent_client now ip duid ix).1
  unfolding add_permanent_client inject_permanent
  add_permanent_client-Consistent ip duid ix w = elim (Result-cases (to_uip ix ip)) [
    | inr (e, h) ↦ rw (h, add_permanent_client) w
    | inl (n, h) ↦
        rw (h, add_permanent_client, inject_permanent)
          (kept _ (inject_internal-IsConsistent w n duid 0 true))
  ]
    where
      kept :
          (r : Option ClientError × Clients)
          → IsConsistent now r.1
          → Consistent now (from_clients ix r).1
      kept (none, cx) h = h
      kept (some e, cx) h = h

made : {a b : Ipdb} → ◌≡◌ {A = Result NewError Ipdb} (ok a) (ok b) → a ≡ b
made h = cc

lifted : (r : Result IpdbError Ipdb) {ix : Ipdb} → lift_ipdb r ≡ ok ix → r ≡ ok ix
lifted (ok db) h = ap ok (made h)
lifted (err e) h = cc

first :
    {a b : Ipdb × Overrides}
    → ◌≡◌ {A = Result NewError (Ipdb × Overrides)} (ok a) (ok b)
    → a.0 ≡ b.0
first h = cc

module _ (host : Host) where
  range_of_words-clients :
      (ws : List (List ℕ)) (ix : Ipdb) {ix' : Ipdb}
      → range_of_words host ws ix ≡ ok ix'
      → ix.clients ≡ ix'.clients
  unfolding range_of_words
  range_of_words-clients [] ix h = cc
  range_of_words-clients (a ∷ []) ix h = cc
  range_of_words-clients (a ∷ b ∷ c ∷ ws) ix h = cc
  range_of_words-clients (a ∷ b ∷ []) ix h = elim (Option-cases (host.parsers.parse_ip a)) [
    | inl e ↦ cc (rw (e, range_of_words) at h)
    | inr (ipa, e) ↦ elim (Option-cases (host.parsers.parse_ip b)) [
      | inl e' ↦ cc (rw (e, range_of_words, e') at h)
      | inr (ipb, e') ↦
          set_dynamic_range-clients ipa ipb ix (lifted _ (rw (e, range_of_words, e') at h))
    ]
  ]

  with_dynamic_range-clients :
      (dr : List ℕ) (ix : Ipdb) {ix' : Ipdb}
      → with_dynamic_range host dr ix ≡ ok ix'
      → ix.clients ≡ ix'.clients
  unfolding with_dynamic_range
  with_dynamic_range-clients dr ix {ix'} h = elim (Bool-cases (is_nil dr)) [
    | inl e ↦ ap (λ (x : Ipdb). x.clients) (made (rw (e, with_dynamic_range) at h))
    | inr e ↦ range_of_words-clients (split_at_dash dr) ix (rw (e, with_dynamic_range) at h)
  ]

  section_override-ok :
      (hw : HardwareAddr) (oopts : LeaseOptions) (overrides : Overrides)
      (c : Option IpdbError × Ipdb) {r : Ipdb × Overrides}
      → section_override host hw oopts overrides c ≡ ok r
      → c.1 ≡ r.0
  unfolding section_override
  section_override-ok hw oopts overrides (some e, db) h = cc
  section_override-ok hw oopts overrides (none, db) h =
      elim (Option-cases (overrides (host.mac_string hw))) [
        | inr (o, e) ↦ cc (rw (e, section_override) at h)
        | inl e ↦ first (rw (e, section_override) at h)
      ]

  section_client-Consistent :
      (hw : HardwareAddr) (ip : Ip) (ix : Ipdb)
      → Consistent host.now ix
      → Consistent host.now (section_client host hw ip ix).1
  unfolding section_client
  section_client-Consistent hw ip ix w = elim (Bool-cases (is_nil ip)) [
    | inl e ↦ rw (section_client, e) w
    | inr e ↦
        rw (section_client, e)
          (add_permanent_client-Consistent host.now ip (duid_from_hw_addr hw) ix w)
  ]

  add_section-Consistent :
      (lopts : LeaseOptions) (k : List ℕ) (section : ClientConfig) (ix : Ipdb)
      (overrides : Overrides) {r : Ipdb × Overrides}
      → Consistent host.now ix
      → add_section host lopts k section (ix, overrides) ≡ ok r
      → Consistent host.now r.0
  unfolding add_section
  add_section-Consistent lopts k section ix overrides {r} w h =
      elim (Option-cases (host.parse_mac k)) [
        | inl e ↦ cc (rw (e, add_section) at h)
        | inr (hw, e) ↦
            let oopts = overridden host lopts section in
            subst (λ x. Consistent host.now x)
              (section_override-ok hw oopts overrides (section_client host hw oopts.ip ix)
                (rw (e, add_section) at h))
              (section_client-Consistent hw oopts.ip ix w)
      ]

  add_sections-Consistent :
      (lopts : LeaseOptions) (sections : List (List ℕ × ClientConfig)) (made : Ipdb × Overrides)
      {r : Ipdb × Overrides}
      → Consistent host.now made.0
      → add_sections host lopts sections made ≡ ok r
      → Consistent host.now r.0
  unfolding add_sections
  add_sections-Consistent lopts [] made w h = subst (λ x. Consistent host.now x) (first h) w
  add_sections-Consistent lopts ((k, section) ∷ sections) (ix, overrides) w h =
      elim (Result-cases (add_section host lopts k section (ix, overrides))) [
        | inr (e, he) ↦ cc (rw (he, add_sections) at h)
        | inl (made', he) ↦
            add_sections-Consistent lopts sections made'
              (add_section-Consistent lopts k section ix overrides w he)
              (rw (he, add_sections) at h)
      ]

  server_eq :
      {a b : Server × Ipdb} → ◌≡◌ {A = Result NewError (Server × Ipdb)} (ok a) (ok b) → a ≡ b
  server_eq h = cc

  own_client-HasHolder :
      (self : Ip) (lopts : LeaseOptions) (made : Ipdb × Overrides) {r : Server × Ipdb}
      → Consistent host.now made.0
      → own_client host self lopts made ≡ ok r
      → HasHolder r.0.self_ip (duid_from_hw_addr r.0.iface_addr) r.1
  unfolding own_client
  own_client-HasHolder self lopts (ix, overrides) w h =
      let added = add_permanent_client host.now self (duid_from_hw_addr host.iface_addr) ix in
      elim (Option-cases added.0) [
        | inr (e, e1) ↦ cc (rw (e1, own_client) at h)
        | inl e1 ↦
            subst (λ r. HasHolder r.0.self_ip (duid_from_hw_addr r.0.iface_addr) r.1)
              (server_eq (rw (e1, own_client) at h))
              (added-HasHolder host.now self (duid_from_hw_addr host.iface_addr) ix w e1)
      ]

  static_only-Consistent :
      (static_only : Bool) (ix : Ipdb)
      → Consistent host.now ix
      → Consistent host.now (if static_only then disable_dynamic ix else ix)
  unfolding disable_dynamic
  static_only-Consistent true ix w = w
  static_only-Consistent false ix w = w

  -- A server that is made holds its own address, as a permanent client with the identifier that its
  -- own hardware address stands for.
  pub new_server-HasHolder :
      (conf : Config) {sx : Server} {ix : Ipdb}
      → new_server host conf ≡ ok (sx, ix)
      → HasHolder sx.self_ip (duid_from_hw_addr sx.iface_addr) ix
  unfolding new_server disable_dynamic
  new_server-HasHolder conf {sx} {ix} h = elim (Option-cases host.interface_ip) [
    | inl e ↦ cc (rw (e, new_server) at h)
    | inr (self, e) ↦ elim (Result-cases (parse_config host.parsers conf.lease)) [
      | inr (er, e1) ↦ cc (rw (e, new_server, e1) at h)
      | inl ((lopts, net, mask), e1) ↦ elim (Result-cases (new_ipdb net mask)) [
        | inr (er, e2) ↦ cc (rw (e, new_server, e1, e2) at h)
        | inl (db, e2) ↦ elim (Result-cases (with_dynamic_range host conf.dynamic_range db)) [
          | inr (er, e3) ↦ cc (rw (e, new_server, e1, e2, e3) at h)
          | inl (db1, e3) ↦
              let db2 = if conf.static_only then disable_dynamic db1 else db1 in
              elim (Result-cases (add_sections host lopts conf.sections (db2, λ k. none))) [
                | inr (er, e4) ↦ cc (rw (e, new_server, e1, e2, e3, e4) at h)
                | inl (made, e4) ↦
                    own_client-HasHolder self lopts made
                      (add_sections-Consistent lopts conf.sections (db2, λ k. none)
                        (static_only-Consistent conf.static_only db1 (
                          subst (IsConsistent host.now)
                            (with_dynamic_range-clients conf.dynamic_range db e3)
                            (new_ipdb-Consistent host.now net mask e2)))
                        e4)
                      (rw (e, new_server, e1, e2, e3, e4) at h)
              ]
        ]
      ]
    ]
  ]
