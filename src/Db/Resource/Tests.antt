-- ===== src/Db/Resource/Tests.antt =====
-- A service with a primary and a backup, its update, and the theorems at them.
use rv_tx.Base.{◌≡◌, ◌≢◌, ◌↔◌, refl, false, some, none, List, [], ◌∷◌, All, map}
use rv_tx.Base.Text.{pos}
use rv_tx.Db.Node.{Node, NodeTable, find_node}
use rv_tx.Db.Target.{
  TargetSpec, TargetRow, ok, err, has_role, role_of, validate_backends, validate_targets,
  target_row, insert_targets, delete_targets, node_not_found,
}
use rv_tx.Db.Target.Validate.{IsOne, IsServed, validate_targets_iff}
use rv_tx.Db.Resource.{
  Resource, ResourceSpec, ResourceTables, resource_row, find_resource, insert_resource,
  normalize_target_scheme, create_resource, replace_resource, returned_resource, update_resource,
  ResourceOp, create, update, delete, run_ops, no_resources, remove_resource, delete_resource,
}
use rv_tx.Db.Resource.Catalogue.{view, replay}
use rv_tx.Db.Resource.Catalogue.Refines.{run_ops-replay}
use rv_tx.Db.Resource.Sound.{IsSound}
use rv_tx.Db.Resource.History.{run_ops-IsSound}

abbrev edge : Node
edge = record {
  id = 7;
  name = "edge";
  public_key = "key";
  mesh_ip = "10.8.0.1";
  last_endpoint = none;
  last_seen = some 100;
  advertised_subnets = [];
}

abbrev nodes : NodeTable
nodes = record { rows = edge ∷ []; next_id = 8 }

abbrev node_target : TargetSpec
node_target = record { node_name = "edge"; address = ""; port = pos 5432; role = "" }

abbrev lan_target : TargetSpec
lan_target = record { node_name = ""; address = "192.168.1.9"; port = pos 5433; role = "backup" }

abbrev service : List TargetSpec → ResourceSpec
service targets = record {
  name = "postgres";
  protocol = "tcp";
  domain = none;
  entry_point = "pg";
  cert_resolver = none;
  target_scheme = "";
  target_skip_verify = false;
  sticky = false;
  targets = targets;
}

abbrev two : ResourceSpec
two = service (node_target ∷ lan_target ∷ [])

abbrev one : ResourceSpec
one = service (lan_target ∷ [])

abbrev row : Resource
row = resource_row 0 "http" two

abbrev node_row : TargetRow
node_row = record {
  resource_id = 0;
  node_id = some 7;
  address = none;
  port = pos 5432;
  role = "primary";
}

abbrev lan_row : TargetRow
lan_row = record {
  resource_id = 0;
  node_id = none;
  address = some "192.168.1.9";
  port = pos 5433;
  role = "backup";
}

abbrev before : ResourceTables
before = record { resources = row ∷ []; targets = node_row ∷ lan_row ∷ []; next_id = 1 }

abbrev after : ResourceTables
after = record { resources = row ∷ []; targets = lan_row ∷ []; next_id = 1 }

created : create_resource two nodes no_resources ≡ ok before
unfolding create_resource validate_targets validate_backends has_role normalize_target_scheme
    insert_resource find_resource insert_targets target_row find_node
created = refl

updated : update_resource one nodes before ≡ ok after
unfolding update_resource validate_targets validate_backends has_role normalize_target_scheme
    returned_resource replace_resource find_resource insert_targets target_row find_node
    delete_targets
updated = refl

deleted : delete_resource "postgres" after ≡ ok (record no_resources { next_id = 1 })
unfolding delete_resource returned_resource find_resource remove_resource delete_targets
deleted = refl

-- A node that is not there refuses the whole creation.
refused :
    create_resource (service (record node_target { node_name = "other" } ∷ [])) nodes no_resources
    ≡ err node_not_found
unfolding create_resource validate_targets validate_backends has_role normalize_target_scheme
    insert_resource find_resource insert_targets target_row find_node
refused = refl

-- A creation under a taken name is refused.
abbrev ops : List (NodeTable × ResourceOp)
ops =
    (nodes, create two)
    ∷ (nodes, create one)
    ∷ (nodes, update one)
    ∷ (nodes, delete "postgres")
    ∷ []

run_ops-IsSound_example : IsSound (run_ops ops no_resources)
run_ops-IsSound_example = run_ops-IsSound ops

run_ops-replay_example : view (run_ops ops no_resources) ≡ replay ops (λ name. none)
run_ops-replay_example = run_ops-replay ops

found : find_resource "postgres" (row ∷ []) ≡ some row
unfolding find_resource
found = refl

validate_targets_iff_example : (validate_targets "udp" (node_target ∷ lan_target ∷ []) ≡ none) ↔ (
    (node_target ∷ lan_target ∷ [] ≢ [])
    × All IsOne (node_target ∷ lan_target ∷ [])
    × IsServed "udp" (map role_of (node_target ∷ lan_target ∷ [])))
validate_targets_iff_example = validate_targets_iff "udp" (node_target ∷ lan_target ∷ [])
