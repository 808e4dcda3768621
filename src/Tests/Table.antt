-- ===== src/Tests/Table.antt =====
-- The table of leases of the network 192.168.1.0/24.
use psa_dhcp.Base.{◌≡◌, refl, arith, ok}
use psa_dhcp.Net.{to4}
use psa_dhcp.Ipdb.Clients.{new_clients}
use psa_dhcp.Ipdb.Clients.Invariant.{new_clients-IsConsistent}
use psa_dhcp.Ipdb.Db.{to_uip, update_client, lookup_client_by_duid, find_ip}
use psa_dhcp.Ipdb.Table.{table}
use psa_dhcp.Ipdb.Table.Refines.{
  Assigns, succeeded, address_of, update_client-Assigns, lookup_client_by_duid-table,
}
use psa_dhcp.Tests.Leases.{alice, lan, home, leased, env, draw}

home_is_in_range : to_uip lan home ≡ ok 0xC0A8_0107
unfolding to_uip to4
home_is_in_range = refl

update_client-Assigns_example :
    Assigns 0xC0A8_0107 alice 160
      (table 100 new_clients)
      (succeeded (update_client 100 home alice 60 lan).0)
      (table 100 leased.clients)
update_client-Assigns_example =
    update_client-Assigns 100 home alice 60 lan (new_clients-IsConsistent 100) home_is_in_range

lookup_client_by_duid-table_example :
    ((lookup_client_by_duid 110 alice leased).0 ≡ address_of (table 110 leased.clients alice))
    × (table 130 (lookup_client_by_duid 110 alice leased).1.clients alice
        ≡ table 130 leased.clients alice)
    × (table 130 (find_ip 110 env draw home alice leased).1.clients alice
        ≡ table 130 leased.clients alice)
lookup_client_by_duid-table_example =
    lookup_client_by_duid-table 110 130 alice alice leased env draw home (omega arith)
      (λ j. omega arith)
