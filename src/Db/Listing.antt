-- ===== src/Db/Listing.antt =====
-- internal/controlplane/db/resources.go: ListResourcesWithTargets, the join of resources, their targets
-- and the targets' nodes, grouped by resource. The order of the rows (ORDER BY r.name, rt.role under
-- the database's collation) is an argument.
pub mod Groups
pub mod Links
pub mod Total
pub mod Tests
use rv_tx.Base.{
  ℕ, ◌≡◌, String, Bool, true, false, Option, none, some, List, [], ◌∷◌, ◌++◌, eqb, if◌then◌else◌,
}
use rv_tx.Base.Text.{ℤ}
use rv_tx.Db.Node.{Node, NodeTable}
use rv_tx.Db.Target.{TargetRow}
use rv_tx.Db.Resource.{Resource, ResourceTables}

pub record Target : Type 0 where
  pub address : String
  pub port : ℤ
  pub role : String
  pub external : Bool
  pub last_seen : Option ℕ
  pub node_name : Option String

pub record ResourceWithTargets : Type 0 where
  pub name : String
  pub protocol : String
  pub domain : Option String
  pub entry_point : String
  pub cert_resolver : Option String
  pub target_scheme : String
  pub target_skip_verify : Bool
  pub sticky : Bool
  pub targets : List Target

-- A row of the query: its resource's columns, and the columns of its target, with the address that
-- COALESCE gives, if any.
pub record Joined : Type 0 where
  pub resource : Resource
  pub address : Option String
  pub row : TargetRow
  pub node : Option Node

unfoldable pub node_by_id : ℕ → List Node → Option Node
node_by_id id [] = none
node_by_id id (n ∷ rows) = if eqb n.id id then some n else node_by_id id rows

-- `LEFT JOIN nodes n ON n.id = rt.node_id`
unfoldable pub join_node : NodeTable → TargetRow → Option Node
join_node nodes row = elim row.node_id [ none ↦ none | some id ↦ node_by_id id nodes.rows ]

unfoldable pub join_row : NodeTable → Resource → TargetRow → Joined
join_row nodes r row = record {
  resource = r;
  address = elim (join_node nodes row) [ some n ↦ some n.mesh_ip | none ↦ row.address ];
  row = row;
  node = join_node nodes row;
}

-- `JOIN resource_targets rt ON rt.resource_id = r.id`, for one resource and for all.
unfoldable pub join_targets : NodeTable → Resource → List TargetRow → List Joined
join_targets nodes r [] = []
join_targets nodes r (row ∷ rows) =
    let rest = join_targets nodes r rows in
    if eqb row.resource_id r.id then join_row nodes r row ∷ rest else rest

unfoldable pub join_all : NodeTable → List Resource → List TargetRow → List Joined
join_all nodes [] rows = []
join_all nodes (r ∷ rs) rows = join_targets nodes r rows ++ join_all nodes rs rows

-- `rows.Scan`: a NULL address is no string.
unfoldable pub scan_target : Joined → Option Target
scan_target j = elim j.address [
  | none ↦ none
  | some a ↦ some (record {
    address = a;
    port = j.row.port;
    role = j.row.role;
    external = elim j.row.node_id [ none ↦ true | some id ↦ false ];
    last_seen = elim j.node [ none ↦ none | some n ↦ n.last_seen ];
    node_name = elim j.node [ none ↦ none | some n ↦ some n.name ];
  })
]

-- The entry that the first row of a resource makes.
abbrev pub new_entry : Resource → ResourceWithTargets
new_entry r = record {
  name = r.name;
  protocol = r.protocol;
  domain = r.domain;
  entry_point = r.entry_point;
  cert_resolver = r.cert_resolver;
  target_scheme = r.target_scheme;
  target_skip_verify = r.target_skip_verify;
  sticky = r.sticky;
  targets = [];
}

abbrev pub with_target : Target → ResourceWithTargets → ResourceWithTargets
with_target x w = record w { targets = w.targets ++ x ∷ [] }

-- The map `byID` and the slice `order`, as the entries in that order.
abbrev pub Entries : Type 0
Entries = List (ℕ × ResourceWithTargets)

-- One round of the loop.
unfoldable pub add_target : Resource → Target → Entries → Entries
add_target r x [] = (r.id, with_target x (new_entry r)) ∷ []
add_target r x (entry ∷ entries) =
    let rest = add_target r x entries in
    if eqb entry.0 r.id then (entry.0, with_target x entry.1) ∷ entries else entry ∷ rest

unfoldable pub group_rows : List Joined → Entries → Option Entries
group_rows [] entries = some entries
group_rows (j ∷ js) entries = elim (scan_target j) [
  | none ↦ none
  | some x ↦ group_rows js (add_target j.resource x entries)
]

unfoldable pub entry_values : Entries → List ResourceWithTargets
entry_values [] = []
entry_values (entry ∷ entries) = entry.1 ∷ entry_values entries

-- `ListResourcesWithTargets`; `none` is a row that does not scan.
unfoldable pub list_resources_with_targets :
    (List Joined → List Joined) → NodeTable → ResourceTables → Option (List ResourceWithTargets)
list_resources_with_targets order_by nodes t =
    elim (group_rows (order_by (join_all nodes t.resources t.targets)) []) [
      | none ↦ none
      | some entries ↦ some (entry_values entries)
    ]
