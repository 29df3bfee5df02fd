-- ===== src/Db/Resource.antt =====
-- internal/controlplane/db/resources.go: the resources table of migrations/0002 to 0008 and the
-- transactions on it and on the targets. A refused statement is an error value, with which the
-- transaction is rolled back: the caller's tables stay. The listing is Db/Listing.antt.
pub mod Cases
pub mod Found
pub mod Sound
pub mod History
pub mod Catalogue
pub mod Tests
use rv_tx.Base.{
  ℕ, suc, ◌^◌, String, Bool, true, false, not, ◌&&◌, ◌||◌, Option, none, some, List, [], ◌∷◌, ◌++◌,
  any, all, length, ltb, leb, eqb, if◌then◌else◌, ◌==◌,
}
use rv_tx.Db.Node.{NodeTable}
use rv_tx.Db.Target.{
  TargetSpec, TargetRow, ResourceError, no_targets, ambiguous_target, wrong_scheme,
  resource_refused, resource_not_found, Outcome, ok, err, and_then, checked, validate_targets,
  insert_targets, delete_targets,
}

-- The arguments of `CreateResource` and `UpdateResource`.
pub record ResourceSpec : Type 0 where
  pub name : String
  pub protocol : String
  pub domain : Option String
  pub entry_point : String
  pub cert_resolver : Option String
  pub target_scheme : String
  pub target_skip_verify : Bool
  pub sticky : Bool
  pub targets : List TargetSpec

-- A row of `resources`; the generated `id` is the number of the insertion.
pub record Resource : Type 0 where
  pub id : ℕ
  pub name : String
  pub protocol : String
  pub domain : Option String
  pub entry_point : String
  pub cert_resolver : Option String
  pub target_scheme : String
  pub target_skip_verify : Bool
  pub sticky : Bool

pub record ResourceTables : Type 0 where
  pub resources : List Resource
  pub targets : List TargetRow
  pub next_id : ℕ

-- `normalizeTargetScheme`
unfoldable pub normalize_target_scheme : String → Outcome String
normalize_target_scheme scheme =
    if scheme == ""
    then ok "http"
    else (if not (scheme == "http") && not (scheme == "https") then err wrong_scheme else ok scheme)

unfoldable pub find_resource : String → List Resource → Option Resource
find_resource name [] = none
find_resource name (r ∷ rows) = if r.name == name then some r else find_resource name rows

-- The row of a specification under an id.
abbrev pub resource_row : ℕ → String → ResourceSpec → Resource
resource_row id scheme s = record {
  id = id;
  name = s.name;
  protocol = s.protocol;
  domain = s.domain;
  entry_point = s.entry_point;
  cert_resolver = s.cert_resolver;
  target_scheme = scheme;
  target_skip_verify = s.target_skip_verify;
  sticky = s.sticky;
}

-- The INSERT of `CreateResource`: `name` is unique, and `protocol` has a CHECK.
unfoldable pub insert_resource : String → ResourceSpec → ResourceTables → Outcome ResourceTables
insert_resource scheme s t = elim (find_resource s.name t.resources) [
  | some r ↦ err resource_refused
  | none ↦
      if s.protocol == "http" || s.protocol == "tcp" || s.protocol == "udp"
      then ok (record {
        resources = t.resources ++ resource_row t.next_id scheme s ∷ [];
        targets = t.targets;
        next_id = suc t.next_id;
      })
      else err resource_refused
]

unfoldable pub with_targets :
    NodeTable → ℕ → List TargetSpec → ResourceTables → Outcome ResourceTables
with_targets nodes id ts t =
    and_then (insert_targets nodes id ts t.targets) λ rows. ok (record t { targets = rows })

-- `CreateResource`
unfoldable pub create_resource : ResourceSpec → NodeTable → ResourceTables → Outcome ResourceTables
unfolding with_targets
create_resource s nodes t = checked (validate_targets s.protocol s.targets) (
    and_then (normalize_target_scheme s.target_scheme) λ scheme.
      and_then (insert_resource scheme s t) λ t'. with_targets nodes t.next_id s.targets t')

-- The UPDATE of the row of the name.
unfoldable pub replace_resource : String → ResourceSpec → List Resource → List Resource
replace_resource scheme s [] = []
replace_resource scheme s (r ∷ rows) =
    (if r.name == s.name then resource_row r.id scheme s else r) ∷ replace_resource scheme s rows

-- The UPDATE of `UpdateResource` and its RETURNING.
unfoldable pub returned_resource : String → ResourceTables → Outcome Resource
returned_resource name t = elim (find_resource name t.resources) [
  | none ↦ err resource_not_found
  | some r ↦ ok r
]

-- `UpdateResource`
unfoldable pub update_resource : ResourceSpec → NodeTable → ResourceTables → Outcome ResourceTables
unfolding with_targets
update_resource s nodes t = checked (validate_targets s.protocol s.targets) (
    and_then (normalize_target_scheme s.target_scheme) λ scheme.
      and_then (returned_resource s.name t) λ r. with_targets nodes r.id s.targets (record t {
        resources = replace_resource scheme s t.resources;
        targets = delete_targets r.id t.targets;
      }))

unfoldable pub remove_resource : String → List Resource → List Resource
remove_resource name [] = []
remove_resource name (r ∷ rows) =
    let rest = remove_resource name rows in if r.name == name then rest else r ∷ rest

-- `DeleteResource`; its targets go with it (ON DELETE CASCADE).
unfoldable pub delete_resource : String → ResourceTables → Outcome ResourceTables
delete_resource name t = and_then (returned_resource name t) λ r. ok (record t {
  resources = remove_resource name t.resources;
  targets = delete_targets r.id t.targets;
})

-- One request of the control plane on resources, and the tables after it: a refused one leaves them.
pub data ResourceOp : Type 0 where
  create : ResourceSpec → ResourceOp
  update : ResourceSpec → ResourceOp
  delete : String → ResourceOp

unfoldable pub perform : ResourceOp → NodeTable → ResourceTables → Outcome ResourceTables
perform (create s) nodes t = create_resource s nodes t
perform (update s) nodes t = update_resource s nodes t
perform (delete name) nodes t = delete_resource name t

unfoldable pub committed : Outcome ResourceTables → ResourceTables → ResourceTables
committed (ok t') t = t'
committed (err e) t = t

-- Requests in order, each with the nodes table of its time.
unfoldable pub run_ops : List (NodeTable × ResourceOp) → ResourceTables → ResourceTables
run_ops [] t = t
run_ops ((nodes, op) ∷ ops) t = run_ops ops (committed (perform op nodes t) t)

abbrev pub no_resources : ResourceTables
no_resources = record { resources = []; targets = []; next_id = 0 }
