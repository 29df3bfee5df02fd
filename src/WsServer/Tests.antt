-- ===== src/WsServer/Tests.antt =====
-- A history of two agents, and the theorems at it.
use rv_tx.Base.{ℕ, ◌≡◌, refl, String, true, some, none, List, [], ◌∷◌, contains}
use rv_tx.Base.Text.{pos, decimal, itoa}
use rv_tx.Base.Dict.{insert}
use rv_tx.Protocol.{RegisterPayload, register}
use rv_tx.Net.{parse_cidr, ip_string, apply_mask, net_contains}
use rv_tx.Mesh.{allocate_ip, alloc_in, alloc_loop, inc_ip, last_addr, ip_equal}
use rv_tx.Db.Node.{
  NodeTable, Upsert, new_node, used_mesh_ips, upsert_node, find_node, key_taken, ip_taken,
}
use rv_tx.Db.Node.Unique.{IsUnique}
use rv_tx.Db.Node.Address.{address_of}
use rv_tx.WsServer.Invariant.{Inv}
use rv_tx.WsServer.Addresses.{run-start-Inv, run-keeps_address}
use rv_tx.WsServer.{
  reading, allocating, closing, World, Env, upsert_of, endpoint_for, act, advance, receive, on_read,
  open_conn, Event, opens, reads, runs, run, start,
}

abbrev cidr : String
cidr = "10.8.0.0/24"

abbrev env : ℕ → Env
env now = record { now = now; db_ok = true; write_ok = λ _. true }

abbrev agent_a : RegisterPayload
agent_a = record {
  name = "node-a";
  public_key = "KA";
  port = pos 51820;
  endpoint = "";
  advertised_subnets = [];
}

abbrev agent_b : RegisterPayload
agent_b = record {
  name = "node-b";
  public_key = "KB";
  port = pos 51820;
  endpoint = "b.example:1";
  advertised_subnets = [];
}

abbrev six : ℕ → List Event
six c =
    runs c (env 1)
    ∷ runs c (env 1)
    ∷ runs c (env 1)
    ∷ runs c (env 1)
    ∷ runs c (env 1)
    ∷ runs c (env 1)
    ∷ []

abbrev no_nodes : NodeTable
no_nodes = record { rows = []; next_id = 0 }

-- Both read the table before either inserts, so both ask for the same address.
abbrev race : List Event
race =
    opens 1 "203.0.113.5"
    ∷ opens 2 "203.0.113.6"
    ∷ reads 1 (some (register agent_a))
    ∷ reads 2 (some (register agent_b))
    ∷ runs 1 (env 1)
    ∷ runs 2 (env 1)
    ∷ runs 1 (env 2)
    ∷ runs 2 (env 2)
    ∷ runs 1 (env 3)
    ∷ []

abbrev raced : World
raced = run cidr (start no_nodes) race

-- The unique column refuses the second insertion.
race_address : address_of "node-a" raced.nodes ≡ some "10.8.0.1"
unfolding run start open_conn receive on_read advance act used_mesh_ips allocate_ip alloc_in
    alloc_loop inc_ip last_addr ip_equal parse_cidr ip_string decimal apply_mask net_contains
    contains upsert_node find_node key_taken ip_taken
race_address = refl

race_refused : (address_of "node-b" raced.nodes ≡ none) × ((raced.session 2).phase ≡ reading)
unfolding run start open_conn receive on_read advance act used_mesh_ips allocate_ip alloc_in
    alloc_loop inc_ip last_addr ip_equal parse_cidr ip_string decimal apply_mask net_contains
    contains upsert_node find_node key_taken ip_taken insert
race_refused = (refl, refl)

no_nodes-IsUnique : IsUnique no_nodes.rows
no_nodes-IsUnique = record { names_distinct = tt; keys_distinct = tt; ips_distinct = tt }

run-start-Inv_example : Inv cidr raced
run-start-Inv_example = run-start-Inv cidr no_nodes race no_nodes-IsUnique tt

run-keeps_address_example :
    address_of "node-a" (run cidr raced (reads 2 (some (register agent_b)) ∷ six 2)).nodes
    ≡ some "10.8.0.1"
run-keeps_address_example =
    run-keeps_address cidr "node-a" "10.8.0.1" raced (reads 2 (some (register agent_b)) ∷ six 2)
      race_address

abbrev asking : World
asking = record {
  nodes = no_nodes;
  conns = [];
  session =
      λ _. record { remote_host = "203.0.113.5"; public_key = "KA"; phase = allocating agent_a };
  sent = [];
}

-- The agent's old connection 1 ends after its new one, 2, has registered.
abbrev stale : World
stale = record {
  nodes = no_nodes;
  conns = ("KA", 2) ∷ [];
  session = λ _. record { remote_host = "203.0.113.5"; public_key = "KA"; phase = closing };
  sent = [];
}

abbrev request_a : Upsert
request_a = upsert_of "203.0.113.5" 1 agent_a "10.8.0.1"

abbrev with_a : NodeTable
with_a = record { rows = new_node 0 request_a ∷ []; next_id = 1 }

auto_endpoint : endpoint_for "203.0.113.5" agent_a ≡ "203.0.113.5:51820"
unfolding endpoint_for itoa
auto_endpoint = refl
