-- ===== src/Db/Resource/History.antt =====
-- Histories of requests on resources, and what an update leaves under each resource.
use rv_tx.Base.{ℕ, ◌≡◌, ◌≢◌, refl, sym, subst, some, List, [], ◌∷◌, Pairwise, ◌∙◌}
use rv_tx.Db.Node.{NodeTable}
use rv_tx.Db.Target.{Outcome, ok, err, targets_of, delete_targets}
use rv_tx.Db.Target.Rows.{Stores, insert_targets-Stores, Resolves}
use rv_tx.Db.Resource.{
  Resource, ResourceSpec, ResourceTables, find_resource, update_resource, ResourceOp, create,
  update, delete, perform, committed, run_ops, no_resources,
}
use rv_tx.Db.Resource.Cases.{update_resource-ok}
use rv_tx.Db.Resource.Sound.{
  IsSound, deleted_own, deleted_others, create_resource-IsSound, update_resource-IsSound,
  delete_resource-IsSound,
}
use mathlib.Core.Option.{some-injective}

pub perform-IsSound :
    (op : ResourceOp) (nodes : NodeTable) (t : ResourceTables) {t' : ResourceTables}
    → IsSound t
    → perform op nodes t ≡ ok t'
    → IsSound t'
unfolding perform
perform-IsSound (create s) nodes t k e = create_resource-IsSound s nodes t k e
perform-IsSound (update s) nodes t k e = update_resource-IsSound s nodes t k e
perform-IsSound (delete name) nodes t k e = delete_resource-IsSound name t k e

pub committed-IsSound :
    (o : Outcome ResourceTables) (t : ResourceTables)
    → IsSound t
    → ((t' : ResourceTables) → o ≡ ok t' → IsSound t')
    → IsSound (committed o t)
unfolding committed
committed-IsSound (ok t') t k h = h t' refl
committed-IsSound (err e) t k h = k

run_ops-from :
    (ops : List (NodeTable × ResourceOp)) (t : ResourceTables) → IsSound t → IsSound (run_ops ops t)
unfolding run_ops
run_ops-from [] t k = k
run_ops-from ((nodes, op) ∷ ops) t k =
    run_ops-from ops _ (committed-IsSound _ t k (λ t' e. perform-IsSound op nodes t k e))

pub no_resources-IsSound : IsSound no_resources
no_resources-IsSound = record {
  names_distinct = tt;
  ids_distinct = tt;
  ids_bounded = tt;
  owners_bounded = tt;
  backed = tt;
}

-- After any creations, updates and deletions from empty tables, refused ones included, the names of
-- the resources differ, and so do their ids, which are below the next one, as are those in the
-- targets; and every resource has targets, whose roles are those that its protocol serves: one
-- target, or a primary and a backup, for tcp and udp.
pub run_ops-IsSound : (ops : List (NodeTable × ResourceOp)) → IsSound (run_ops ops no_resources)
run_ops-IsSound ops = run_ops-from ops no_resources no_resources-IsSound

module _ (s : ResourceSpec) (nodes : NodeTable) (t : ResourceTables) {t' : ResourceTables}
    {r : Resource} where
  stored :
      find_resource s.name t.resources ≡ some r
      → update_resource s nodes t ≡ ok t'
      → Stores nodes r.id s.targets (delete_targets r.id t.targets) t'.targets
  stored found e =
      let (_, q, rows, _, found', is_rows, same) = update_resource-ok s nodes t e in
      let is_r : q ≡ r = some-injective _ _ (sym found' ∙ found) in
      let st =
        insert_targets-Stores nodes q.id s.targets (delete_targets q.id t.targets)
          (deleted_own q.id t.targets) is_rows in
      rw same (
        subst (λ (r : Resource). Stores nodes r.id s.targets (delete_targets r.id t.targets) rows)
          is_r st)

  -- After a successful update, the targets of the resource are the requested ones, in order: each
  -- with its port and role, and its address or the node that its name finds.
  pub update_resource_targets :
      find_resource s.name t.resources ≡ some r
      → update_resource s nodes t ≡ ok t'
      → Pairwise (Resolves nodes r.id) s.targets (targets_of r.id t'.targets)
  update_resource_targets found e = (stored found e).own

  -- A successful update leaves the targets of every other resource id as they are.
  pub update_resource_others :
      (other : ℕ)
      → find_resource s.name t.resources ≡ some r
      → update_resource s nodes t ≡ ok t'
      → other ≢ r.id
      → targets_of other t'.targets ≡ targets_of other t.targets
  update_resource_others other found e d =
      (stored found e).others other d ∙ deleted_others r.id t.targets other d
