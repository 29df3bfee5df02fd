-- ===== src/Db/Listing/Links.antt =====
-- The targets of the tables, with their addresses or their nodes.
use rv_tx.Base.{
  ℕ, ◌≡◌, refl, inl, inr, Bool, true, false, String, Option, none, some, List, [], ◌∷◌, All, All-++,
  Pairwise, eqb, Bool-cases,
}
use rv_tx.Db.Node.{Node, NodeTable}
use rv_tx.Db.Node.Ids.{has_id, KeepsIds, found-has_id}
use rv_tx.Db.Target.{TargetRow, TargetSpec, ok, insert_targets, delete_targets}
use rv_tx.Db.Target.Rows.{Resolves, insert_targets_lem}
use rv_tx.Db.Resource.{ResourceTables, ResourceOp, create, update, delete, perform}
use rv_tx.Db.Resource.Cases.{create_resource-ok, update_resource-ok, delete_resource-ok}

-- The node of a target is there, or it has an address.
abbrev pub linked : List Node → Option ℕ → Option String → Bool
linked rows (some id) address = has_id id rows
linked rows none (some address) = true
linked rows none none = false

abbrev pub IsLinked : NodeTable → TargetRow → Type 0
IsLinked nodes row = linked nodes.rows row.node_id row.address ≡ true

abbrev pub AreLinked : NodeTable → ResourceTables → Type 0
AreLinked nodes t = All (IsLinked nodes) t.targets

resolved-IsLinked :
    (nodes : NodeTable) (id : ℕ) (t : TargetSpec) (row : TargetRow)
    → Resolves nodes id t row
    → IsLinked nodes row
resolved-IsLinked nodes id t row (_, _, _, inl (_, no_node, address)) = rw (no_node, address) refl
resolved-IsLinked nodes id t row (_, _, _, inr (n, found, is_id, _)) =
    rw is_id (found-has_id t.node_name nodes.rows found)

all_resolved :
    (nodes : NodeTable) (id : ℕ) (ts : List TargetSpec) (rows : List TargetRow)
    → Pairwise (Resolves nodes id) ts rows
    → All (IsLinked nodes) rows
all_resolved nodes id [] [] h = tt
all_resolved nodes id [] (r ∷ rows) h = absurd h
all_resolved nodes id (t ∷ ts) [] h = absurd h
all_resolved nodes id (t ∷ ts) (r ∷ rows) h =
    (resolved-IsLinked nodes id t r h.0, all_resolved nodes id ts rows h.1)

module _ (nodes : NodeTable) where
  inserted-AreLinked :
      (id : ℕ) (ts : List TargetSpec) (rows : List TargetRow) {rows' : List TargetRow}
      → All (IsLinked nodes) rows
      → insert_targets nodes id ts rows ≡ ok rows'
      → All (IsLinked nodes) rows'
  inserted-AreLinked id ts rows k e =
      let (new, same, all) = insert_targets_lem nodes id ts rows e in
      rw same (All-++ (IsLinked nodes) rows new k (all_resolved nodes id ts new all))

  deleted-AreLinked :
      (id : ℕ) (rows : List TargetRow)
      → All (IsLinked nodes) rows
      → All (IsLinked nodes) (delete_targets id rows)
  unfolding delete_targets
  deleted-AreLinked id [] k = tt
  deleted-AreLinked id (row ∷ rows) k =
      let rest = deleted-AreLinked id rows k.1 in
      elim (Bool-cases (eqb row.resource_id id)) [
        | inl own ↦ rw own rest
        | inr other ↦ rw other (k.0, rest)
      ]

  pub perform-AreLinked :
      (op : ResourceOp) (t : ResourceTables) {t' : ResourceTables}
      → AreLinked nodes t
      → perform op nodes t ≡ ok t'
      → AreLinked nodes t'
  unfolding perform
  perform-AreLinked (create s) t k e =
      let (_, rows, _, _, is_rows, same) = create_resource-ok s nodes t e in
      rw same (inserted-AreLinked t.next_id s.targets t.targets k is_rows)
  perform-AreLinked (update s) t k e =
      let (_, r, rows, _, _, is_rows, same) = update_resource-ok s nodes t e in
      rw same (inserted-AreLinked r.id s.targets _ (deleted-AreLinked r.id t.targets k) is_rows)
  perform-AreLinked (delete name) t k e =
      let (r, _, same) = delete_resource-ok name t e in rw same (deleted-AreLinked r.id t.targets k)

-- The nodes may change as long as no id goes.
pub AreLinked-later :
    (nodes nodes' : NodeTable) (rows : List TargetRow)
    → KeepsIds nodes nodes'
    → All (IsLinked nodes) rows
    → All (IsLinked nodes') rows
AreLinked-later nodes nodes' [] grows k = tt
AreLinked-later nodes nodes' (row ∷ rows) grows k =
    (at row.node_id row.address k.0, AreLinked-later nodes nodes' rows grows k.1)
  where
    at :
        (id : Option ℕ) (address : Option String)
        → linked nodes.rows id address ≡ true
        → linked nodes'.rows id address ≡ true
    at (some id) address h = grows id h
    at none (some address) h = refl
    at none none h = cc
