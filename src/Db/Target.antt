-- ===== src/Db/Target.antt =====
-- internal/controlplane/db/resources.go: the targets of a resource, their checks in Go, and the
-- resource_targets table of migrations/0003 and 0004.
pub mod Rows
pub mod Validate
use rv_tx.Base.{
  ℕ, suc, ◌^◌, String, Bool, true, false, not, ◌&&◌, ◌||◌, Option, none, some, List, [], ◌∷◌, ◌++◌,
  any, all, length, ltb, leb, eqb, if◌then◌else◌, ◌==◌,
}
use rv_tx.Base.Text.{ℤ, pos, negsuc}
use rv_tx.Db.Node.{NodeTable, find_node}

pub record TargetSpec : Type 0 where
  pub node_name : String
  pub address : String
  pub port : ℤ
  pub role : String

-- A row of `resource_targets`.
pub record TargetRow : Type 0 where
  pub resource_id : ℕ
  pub node_id : Option ℕ
  pub address : Option String
  pub port : ℤ
  pub role : String

pub data ResourceError : Type 0 where
  no_targets : ResourceError
  ambiguous_target : ResourceError
  too_many_targets : ResourceError
  wrong_roles : ResourceError
  unknown_protocol : ResourceError
  wrong_scheme : ResourceError
  -- `insert resource`: the name is taken, or a CHECK fails.
  resource_refused : ResourceError
  -- The insertion of a target fails a CHECK.
  target_refused : ResourceError
  node_not_found : ResourceError
  resource_not_found : ResourceError

pub data Outcome {ℓ} (A : Type ℓ) : Type ℓ where
  ok : A → Outcome A
  err : ResourceError → Outcome A

-- `if err != nil { return err }` after a call with a result, and after one without.
abbrev pub and_then {ℓ κ} : {A : Type ℓ} {B : Type κ} → Outcome A → (A → Outcome B) → Outcome B
and_then (ok a) k = k a
and_then (err e) k = err e

abbrev pub checked {ℓ} : {A : Type ℓ} → Option ResourceError → Outcome A → Outcome A
checked none k = k
checked (some e) k = err e

-- The default of an empty role.
abbrev pub role_of : TargetSpec → String
role_of t = if t.role == "" then "primary" else t.role

-- `(t.NodeName == "") == (t.Address == "")`
abbrev pub is_ambiguous : TargetSpec → Bool
is_ambiguous t = if t.node_name == "" then t.address == "" else not (t.address == "")

-- The roles of two targets, as the map that the loop fills.
unfoldable pub has_role : String → List TargetSpec → Bool
has_role role ts = any (λ t. role_of t == role) ts

-- The switch of `validateTargets`; `none` is its nil.
unfoldable pub validate_backends : String → List TargetSpec → Option ResourceError
validate_backends protocol ts =
    if protocol == "http"
    then none
    else (if protocol == "tcp" || protocol == "udp"
        then (if ltb 2 (length ts)
            then some too_many_targets
            else (if eqb (length ts) 2
                then (if not (has_role "primary" ts) || not (has_role "backup" ts)
                    then some wrong_roles
                    else none)
                else none))
        else some unknown_protocol)

-- `validateTargets`
unfoldable pub validate_targets : String → List TargetSpec → Option ResourceError
validate_targets protocol ts =
    if eqb (length ts) 0
    then some no_targets
    else (if any is_ambiguous ts then some ambiguous_target else validate_backends protocol ts)

-- A number that the column type `integer` holds.
abbrev pub is_int4 : ℤ → Bool
is_int4 (pos n) = ltb n (2 ^ 31)
is_int4 (negsuc n) = ltb n (2 ^ 31)

-- The CHECKs of `resource_targets` and its column types.
unfoldable pub insert_row : TargetRow → Outcome TargetRow
insert_row row =
    if (row.role == "primary" || row.role == "backup") && is_int4 row.port
    then ok row
    else err target_refused

-- One round of the loop of `insertTargets`.
unfoldable pub target_row : NodeTable → ℕ → TargetSpec → Outcome TargetRow
unfolding insert_row
target_row nodes id t =
    if not (t.address == "")
    then insert_row (record {
      resource_id = id;
      node_id = none;
      address = some t.address;
      port = t.port;
      role = role_of t;
    })
    else (elim (find_node t.node_name nodes.rows) [
      | none ↦ err node_not_found
      | some n ↦ insert_row (record {
        resource_id = id;
        node_id = some n.id;
        address = none;
        port = t.port;
        role = role_of t;
      })
    ])

-- `insertTargets`
unfoldable pub insert_targets :
    NodeTable → ℕ → List TargetSpec → List TargetRow → Outcome (List TargetRow)
insert_targets nodes id [] rows = ok rows
insert_targets nodes id (t ∷ ts) rows =
    and_then (target_row nodes id t) λ row. insert_targets nodes id ts (rows ++ row ∷ [])

-- The targets of a resource id, and the others.
unfoldable pub targets_of : ℕ → List TargetRow → List TargetRow
targets_of id [] = []
targets_of id (row ∷ rows) =
    let rest = targets_of id rows in if eqb row.resource_id id then row ∷ rest else rest

unfoldable pub delete_targets : ℕ → List TargetRow → List TargetRow
delete_targets id [] = []
delete_targets id (row ∷ rows) =
    let rest = delete_targets id rows in if eqb row.resource_id id then rest else row ∷ rest
