-- ===== src/Mesh/Tests.antt =====
-- Runs of the mesh functions, and their theorems at concrete inputs.
use rv_tx.Base.{◌≡◌, ◌≢◌, refl, String, some, List, [], ◌∷◌, Mem, arith, contains}
use rv_tx.Base.Text.{decimal}
use rv_tx.Db.Node.{Node}
use rv_tx.Net.{IpNet, parse_cidr, ip_string, net_contains, apply_mask, masked_net}
use rv_tx.Net.Parse.{parse_cidr-IsNet}
use rv_tx.Mesh.Range.{IsRange, net-IsRange}
use rv_tx.Mesh.Outcome.{
  IsHost, IsHostOf, allocate_ip_sound, allocate_ip_first, allocate_ip_exhausted,
  allocate_ip-ne-out_of_fuel,
}
use rv_tx.Mesh.{
  allocated, bad_cidr, exhausted, out_of_fuel, inc_ip, last_addr, ip_equal, alloc_loop, alloc_in,
  allocate_ip, peer_list_for,
}

abbrev small : String
small = "10.8.0.0/29"

abbrev small_net : IpNet
small_net = masked_net (10 ∷ 8 ∷ 0 ∷ 0 ∷ []) 3

small_parsed : parse_cidr small ≡ some small_net
unfolding parse_cidr apply_mask
small_parsed = refl

abbrev taken : List String
taken = "10.8.0.1" ∷ "10.8.0.2" ∷ "10.8.0.4" ∷ []

third : allocate_ip small taken ≡ allocated "10.8.0.3"
unfolding allocate_ip alloc_in alloc_loop inc_ip last_addr apply_mask parse_cidr ip_string decimal
    net_contains ip_equal contains
third = refl

abbrev all_six : List String
all_six = "10.8.0.1" ∷ "10.8.0.2" ∷ "10.8.0.3" ∷ "10.8.0.4" ∷ "10.8.0.5" ∷ "10.8.0.6" ∷ []

none_left : allocate_ip small all_six ≡ exhausted
unfolding allocate_ip alloc_in alloc_loop inc_ip last_addr apply_mask parse_cidr ip_string decimal
    net_contains ip_equal contains
none_left = refl

-- A /32 has no host, also at the end of the address space.
no_hosts : allocate_ip "255.255.255.255/32" [] ≡ exhausted
unfolding allocate_ip alloc_in alloc_loop inc_ip last_addr apply_mask parse_cidr ip_string decimal
    net_contains ip_equal contains
no_hosts = refl

not_a_cidr : allocate_ip "10.8.0.0" [] ≡ bad_cidr
unfolding allocate_ip parse_cidr
not_a_cidr = refl

allocate_ip_sound_example : IsHost small "10.8.0.3" × (¬ Mem {A = String} "10.8.0.3" taken)
allocate_ip_sound_example = allocate_ip_sound small taken "10.8.0.3" third

text_of_third : ip_string (10 ∷ 8 ∷ 0 ∷ 3 ∷ []) ≡ "10.8.0.3"
unfolding ip_string decimal
text_of_third = refl

second_host : IsHostOf small_net (10 ∷ 8 ∷ 0 ∷ 2 ∷ [])
unfolding apply_mask last_addr
second_host = record { is_ipv4 = omega arith; above = omega arith; below = omega arith }

allocate_ip_first_example : Mem (ip_string (10 ∷ 8 ∷ 0 ∷ 2 ∷ [])) taken
allocate_ip_first_example =
    allocate_ip_first small taken small_net (10 ∷ 8 ∷ 0 ∷ 3 ∷ []) (10 ∷ 8 ∷ 0 ∷ 2 ∷ []) small_parsed
      (omega arith) (rw text_of_third third) second_host (omega arith)

allocate_ip_exhausted_example : Mem (ip_string (10 ∷ 8 ∷ 0 ∷ 2 ∷ [])) all_six
allocate_ip_exhausted_example =
    allocate_ip_exhausted small all_six small_net (10 ∷ 8 ∷ 0 ∷ 2 ∷ []) small_parsed none_left
      second_host

allocate_ip-ne-out_of_fuel_example : allocate_ip "0.0.0.0/0" taken ≢ out_of_fuel
allocate_ip-ne-out_of_fuel_example = allocate_ip-ne-out_of_fuel "0.0.0.0/0" taken

net-IsRange_example : IsRange small_net
net-IsRange_example = net-IsRange small_net (parse_cidr-IsNet small small_parsed)

abbrev one_node : Node
one_node = record {
  id = 0;
  name = "node-a";
  public_key = "KA";
  mesh_ip = "10.8.0.1";
  last_endpoint = some "203.0.113.5:51820";
  last_seen = some 7;
  advertised_subnets = "192.168.7.0/24" ∷ [];
}

own_entry_left_out : peer_list_for "KA" (one_node ∷ []) ≡ []
unfolding peer_list_for
own_entry_left_out = refl
