-- ===== src/Db/Resource/Catalogue.antt =====
-- What a client of the resources sees: under each name a resource with its targets, or nothing. The ids
-- that join the rows of the two tables are not part of it.
pub mod Accepts
pub mod Rows
pub mod View
pub mod Refines
use rv_tx.Base.{String, Option, none, some, List, [], ◌∷◌, map, if◌then◌else◌, ◌==◌}
use rv_tx.Db.Node.{NodeTable}
use rv_tx.Db.Target.{
  TargetRow, Outcome, ok, err, and_then, checked, validate_targets, insert_targets, targets_of,
}
use rv_tx.Db.Resource.{
  Resource, ResourceSpec, ResourceTables, resource_row, normalize_target_scheme, find_resource,
  ResourceOp, create, update, delete,
}

abbrev pub erase : TargetRow → TargetRow
erase x = record x { resource_id = 0 }

-- A resource without its id, and its targets without their owner's.
abbrev pub Entry : Type 0
Entry = Resource × List TargetRow

abbrev pub Catalogue : Type 0
Catalogue = String → Option Entry

abbrev pub entry_in : List TargetRow → Option Resource → Option Entry
entry_in targets none = none
entry_in targets (some r) = some (record r { id = 0 }, map erase (targets_of r.id targets))

-- The catalogue that tables stand for.
abbrev pub view : ResourceTables → Catalogue
view t name = entry_in t.targets (find_resource name t.resources)

-- The entry of a specification, if its targets, its scheme, its ports and its nodes are accepted.
unfoldable pub accepted : NodeTable → ResourceSpec → Outcome Entry
accepted nodes s = checked (validate_targets s.protocol s.targets) (
    and_then (normalize_target_scheme s.target_scheme) λ scheme.
      and_then (insert_targets nodes 0 s.targets [])
        λ rows. ok (resource_row 0 scheme s, map erase rows))

abbrev pub put : String → Outcome Entry → Catalogue → Catalogue
put name (ok entry) f n = if name == n then some entry else f n
put name (err e) f n = f n

abbrev pub when_unbound : Option Entry → Catalogue → Catalogue → Catalogue
when_unbound none new old = new
when_unbound (some entry) new old = old

abbrev pub drop : String → Catalogue → Catalogue
drop name f n = if name == n then none else f n

-- The three requests, on a catalogue.
abbrev pub revise : NodeTable → ResourceOp → Catalogue → Catalogue
revise nodes (create s) f = when_unbound (f s.name) (put s.name (accepted nodes s) f) f
revise nodes (update s) f = when_unbound (f s.name) f (put s.name (accepted nodes s) f)
revise nodes (delete name) f = drop name f

abbrev pub replay : List (NodeTable × ResourceOp) → Catalogue → Catalogue
replay [] f = f
replay ((nodes, op) ∷ ops) f = replay ops (revise nodes op f)
