-- ===== src/Tests/Leases.antt =====
-- Addresses, identifiers and leases, in the network 192.168.1.0/24.
use psa_dhcp.Base.{
  zero, suc, ℕ, ◌+◌, ◌<◌, ◌≤◌, ◌≡◌, ◌≢◌, refl, sym, ap, arith, List, [], ◌∷◌, Option, some, none,
  ok, All, false, true, ◌⊎◌,
}
use psa_dhcp.Base.Bytes.{IsByte}
use psa_dhcp.Net.{Ip, ipv4}
use psa_dhcp.Ipdb.Uip.{Uip, uip_string, to_v4, is_valid}
use psa_dhcp.Ipdb.Duid.{Duid, duid_string}
use psa_dhcp.Ipdb.Keys.{duid_string-injective}
use psa_dhcp.Ipdb.Clients.{new_clients, expired, write, insert, delete}
use psa_dhcp.Ipdb.Db.{
  Ipdb, Round, from_to, new_ipdb, to_uip, update_client, lookup_client_by_duid, find_ip,
}
use psa_dhcp.Ipdb.Db.WellFormed.{
  IsWellFormed, IsWellFormed-later, new_ipdb-IsWellFormed, update_client-IsWellFormed,
}
use psa_dhcp.Ipdb.Db.Reached.{
  Reached, started, waited, updated, Reached-IsWellFormed, lookup_client_by_duid-apart,
}
use psa_dhcp.Ipdb.Db.Leases.{update_client-is_found, update_client-excludes}
use psa_dhcp.Ipdb.Db.Offers.Recorded.{IsOwnOrFree, update_client-find_ip, find_ip-IsOwnOrFree}

abbrev pub alice : Duid
alice = 0 ∷ 3 ∷ 0 ∷ 0 ∷ []

abbrev bob : Duid
bob = 0 ∷ 3 ∷ 0 ∷ 1 ∷ []

pub alice_bytes : All IsByte alice
alice_bytes = (omega arith, (omega arith, (omega arith, (omega arith, tt))))

bob_bytes : All IsByte bob
bob_bytes = (omega arith, (omega arith, (omega arith, (omega arith, tt))))

duid_string-injective_example : alice ≡ alice
duid_string-injective_example = duid_string-injective alice alice alice_bytes alice_bytes refl

abbrev pub lan : Ipdb
lan = record {
  net_from = 0xC0A8_0101;
  net_to = 0xC0A8_01FE;
  dyn_from = 0xC0A8_0101;
  dyn_to = 0xC0A8_01FE;
  clients = new_clients;
}

abbrev pub network : Ip
network = 192 ∷ 168 ∷ 1 ∷ 0 ∷ []

abbrev pub netmask : List ℕ
netmask = 255 ∷ 255 ∷ 255 ∷ 0 ∷ []

lan_is_new : new_ipdb network netmask ≡ ok lan
unfolding new_ipdb from_to psa_dhcp.Net.to4
lan_is_new = refl

pub lan-IsWellFormed : IsWellFormed 100 lan
lan-IsWellFormed = new_ipdb-IsWellFormed 100 network netmask lan_is_new (omega arith)

abbrev pub home : Ip
home = ipv4 192 168 1 7

abbrev pub leased : Ipdb
leased = (update_client 100 home alice 60 lan).1

home_was_free : (update_client 100 home alice 60 lan).0 ≡ none
unfolding update_client psa_dhcp.Ipdb.Db.update_lease to_uip psa_dhcp.Ipdb.Clients.set_lease
    psa_dhcp.Ipdb.Clients.inject psa_dhcp.Ipdb.Clients.inject_internal psa_dhcp.Ipdb.Clients.lookup
    psa_dhcp.Ipdb.Clients.lookup_key psa_dhcp.Ipdb.Clients.add_client new_clients expired write
    insert delete psa_dhcp.Ipdb.Clients.write_lease uip_string duid_string psa_dhcp.Ipdb.Uip.hex
    psa_dhcp.Ipdb.Uip.hex_digit psa_dhcp.Ipdb.Duid.dashed psa_dhcp.Base.bytes_eq psa_dhcp.Net.to4
home_was_free = refl

update_client-is_found_example :
    (n : Uip) × (to_uip lan home ≡ ok n)
    × ((lookup_client_by_duid 130 alice (update_client 100 home alice 60 lan).1).0 ≡ ok (to_v4 n))
update_client-is_found_example =
    update_client-is_found 100 home alice 60 130 lan lan-IsWellFormed alice_bytes home_was_free
      (omega arith)

pub found_at_home : (lookup_client_by_duid 130 alice leased).0 ≡ ok home
unfolding lookup_client_by_duid update_client psa_dhcp.Ipdb.Db.update_lease to_uip
    psa_dhcp.Ipdb.Clients.set_lease psa_dhcp.Ipdb.Clients.inject
    psa_dhcp.Ipdb.Clients.inject_internal psa_dhcp.Ipdb.Clients.lookup
    psa_dhcp.Ipdb.Clients.lookup_key psa_dhcp.Ipdb.Clients.add_client new_clients expired write
    insert delete psa_dhcp.Ipdb.Clients.write_lease uip_string duid_string psa_dhcp.Ipdb.Uip.hex
    psa_dhcp.Ipdb.Uip.hex_digit psa_dhcp.Ipdb.Duid.dashed to_v4 psa_dhcp.Base.bytes_eq
    psa_dhcp.Net.to4
found_at_home = refl

differ : alice ≢ bob
differ e = let h : ◌≡◌ {A = ℕ} 0 1 = ap (λ l. psa_dhcp.Base.Bytes.at l 3) e in omega (arith, h)

pub leased-IsWellFormed : IsWellFormed 130 leased
leased-IsWellFormed =
    IsWellFormed-later (omega arith)
      (update_client-IsWellFormed lan-IsWellFormed home alice 60 alice_bytes)

update_client-excludes_example : (update_client 130 home bob 60 leased).0 ≢ none
update_client-excludes_example =
    update_client-excludes 130 home alice bob 60 leased leased-IsWellFormed alice_bytes bob_bytes
      differ found_at_home

pub lan-Reached : Reached lan 100 lan
lan-Reached = started

abbrev away : Ip
away = ipv4 192 168 1 8

abbrev both_leased : Ipdb
both_leased = (update_client 110 away bob 60 leased).1

both_leased-Reached : Reached lan 130 both_leased
both_leased-Reached =
    waited
      (updated away bob 60 bob_bytes
        (waited (updated home alice 60 alice_bytes lan-Reached) (omega arith)))
      (omega arith)

Reached-IsWellFormed_example : IsWellFormed 130 both_leased
Reached-IsWellFormed_example =
    Reached-IsWellFormed network netmask lan_is_new (omega arith) both_leased-Reached

still_at_home : (lookup_client_by_duid 130 alice both_leased).0 ≡ ok home
unfolding lookup_client_by_duid update_client psa_dhcp.Ipdb.Db.update_lease to_uip
    psa_dhcp.Ipdb.Clients.set_lease psa_dhcp.Ipdb.Clients.inject
    psa_dhcp.Ipdb.Clients.inject_internal psa_dhcp.Ipdb.Clients.lookup
    psa_dhcp.Ipdb.Clients.lookup_key psa_dhcp.Ipdb.Clients.add_client new_clients expired write
    insert delete psa_dhcp.Ipdb.Clients.write_lease uip_string duid_string psa_dhcp.Ipdb.Uip.hex
    psa_dhcp.Ipdb.Uip.hex_digit psa_dhcp.Ipdb.Duid.dashed to_v4 psa_dhcp.Base.bytes_eq
    psa_dhcp.Net.to4
still_at_home = refl

found_away : (lookup_client_by_duid 130 bob both_leased).0 ≡ ok away
unfolding lookup_client_by_duid update_client psa_dhcp.Ipdb.Db.update_lease to_uip
    psa_dhcp.Ipdb.Clients.set_lease psa_dhcp.Ipdb.Clients.inject
    psa_dhcp.Ipdb.Clients.inject_internal psa_dhcp.Ipdb.Clients.lookup
    psa_dhcp.Ipdb.Clients.lookup_key psa_dhcp.Ipdb.Clients.add_client new_clients expired write
    insert delete psa_dhcp.Ipdb.Clients.write_lease uip_string duid_string psa_dhcp.Ipdb.Uip.hex
    psa_dhcp.Ipdb.Uip.hex_digit psa_dhcp.Ipdb.Duid.dashed to_v4 psa_dhcp.Base.bytes_eq
    psa_dhcp.Net.to4
found_away = refl

lookup_client_by_duid-apart_example : home ≢ away
lookup_client_by_duid-apart_example =
    lookup_client_by_duid-apart network netmask alice bob lan_is_new (omega arith)
      both_leased-Reached alice_bytes bob_bytes differ still_at_home found_away

-- A search in which every address is free, and that draws 0 alone.
abbrev pub env : ℕ → Round
env i = record { now = 100; cancelled = false; is_free = λ ip. true }

abbrev pub draw : ℕ → List ℕ
draw zero = []
draw (suc k) = 0 ∷ []

pub draw_lt : (k : ℕ) → All (λ v. v < k) (draw k)
draw_lt zero = tt
draw_lt (suc k) = (omega arith, tt)

pub home_is_offered : (find_ip 100 env draw home alice lan).0 ≡ ok home
unfolding find_ip psa_dhcp.Ipdb.Db.find_loop to_uip psa_dhcp.Ipdb.Clients.lookup
    psa_dhcp.Ipdb.Clients.lookup_key new_clients expired uip_string duid_string
    psa_dhcp.Ipdb.Uip.hex psa_dhcp.Ipdb.Uip.hex_digit psa_dhcp.Ipdb.Duid.dashed to_v4 is_valid
    psa_dhcp.Base.bytes_eq psa_dhcp.Net.to4
home_is_offered = refl

update_client-find_ip_example :
    (update_client 100 home alice 15 (find_ip 100 env draw home alice lan).1).0 ≡ none
update_client-find_ip_example =
    update_client-find_ip 100 100 env draw home alice lan lan-IsWellFormed draw_lt (omega arith)
      (λ j. omega arith) 15 home_is_offered

find_ip-IsOwnOrFree_example :
    IsOwnOrFree 100 env alice lan home (find_ip 100 env draw home alice lan).1.clients
find_ip-IsOwnOrFree_example = find_ip-IsOwnOrFree 100 env draw home alice lan home_is_offered
