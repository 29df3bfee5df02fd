-- ===== src/Db/Listing/Tests.antt =====
-- The listing of two resources, and the theorem at its rows.
use rv_tx.Base.{ℕ, ◌≡◌, refl, String, true, false, some, none, List, [], ◌∷◌}
use rv_tx.Base.Text.{pos}
use rv_tx.Db.Node.{Node, NodeTable}
use rv_tx.Db.Target.{TargetRow}
use rv_tx.Db.Resource.{Resource, ResourceTables}
use rv_tx.Db.Listing.{
  Target, ResourceWithTargets, Joined, node_by_id, join_node, join_row, join_targets, join_all,
  scan_target, new_entry, Entries, add_target, group_rows, entry_values,
  list_resources_with_targets,
}

abbrev edge : Node
edge = record {
  id = 7;
  name = "edge";
  public_key = "key";
  mesh_ip = "10.8.0.1";
  last_endpoint = none;
  last_seen = some 100;
  advertised_subnets = [];
}

abbrev nodes : NodeTable
nodes = record { rows = edge ∷ []; next_id = 8 }

abbrev resource : ℕ → String → Resource
resource id name = record {
  id = id;
  name = name;
  protocol = "tcp";
  domain = none;
  entry_point = "pg";
  cert_resolver = none;
  target_scheme = "http";
  target_skip_verify = false;
  sticky = false;
}

abbrev node_row : TargetRow
node_row = record {
  resource_id = 0;
  node_id = some 7;
  address = none;
  port = pos 5432;
  role = "primary";
}

abbrev lan_row : ℕ → TargetRow
lan_row id = record {
  resource_id = id;
  node_id = none;
  address = some "192.168.1.9";
  port = pos 5433;
  role = "backup";
}

abbrev node_target : Target
node_target = record {
  address = "10.8.0.1";
  port = pos 5432;
  role = "primary";
  external = false;
  last_seen = some 100;
  node_name = some "edge";
}

abbrev lan_target : Target
lan_target = record {
  address = "192.168.1.9";
  port = pos 5433;
  role = "backup";
  external = true;
  last_seen = none;
  node_name = none;
}

abbrev entry : String → List Target → ResourceWithTargets
entry name targets = record (new_entry (resource 0 name)) { targets = targets }

abbrev tables : ResourceTables
tables = record {
  resources = resource 0 "a" ∷ resource 1 "b" ∷ [];
  targets = lan_row 1 ∷ lan_row 0 ∷ node_row ∷ [];
  next_id = 2;
}

listed :
    list_resources_with_targets (λ rows. rows) nodes tables
    ≡ some (entry "a" (lan_target ∷ node_target ∷ []) ∷ entry "b" (lan_target ∷ []) ∷ [])
unfolding list_resources_with_targets join_all join_targets join_row join_node node_by_id group_rows
    scan_target add_target entry_values
listed = refl

-- The rows of the two resources, mixed.
abbrev rows : List Joined
rows =
    join_row nodes (resource 1 "b") (lan_row 1)
    ∷ join_row nodes (resource 0 "a") node_row
    ∷ join_row nodes (resource 1 "b") (lan_row 1)
    ∷ []

abbrev grouped : Entries
grouped = (1, entry "b" (lan_target ∷ lan_target ∷ [])) ∷ (0, entry "a" (node_target ∷ [])) ∷ []

groups : group_rows rows [] ≡ some grouped
unfolding group_rows scan_target join_row join_node node_by_id add_target
groups = refl
