-- ===== src/Db/Listing/Total.antt =====
-- The rows of the listing, in any order, over targets with addresses or nodes.
use mathlib.Core.List.{Perm, mem-cons, mem-cons_self, mem-cons_of_mem, not-mem-nil}
use mathlib.Core.List.Perm
use mathlib.Core.Bool.{Bool-set}
use mathlib.Core.Logic.Or
use rv_tx.Base.{
  ℕ, ◌≡◌, refl, sym, subst, inl, inr, Bool, true, false, Option, none, some, List, [], ◌∷◌, All,
  All-++, Mem, eqb, arith, Bool-cases, Option-cases,
}
use rv_tx.Db.Node.{Node, NodeTable}
use rv_tx.Db.Node.Ids.{has_id}
use rv_tx.Db.Target.{TargetRow}
use rv_tx.Db.Resource.{Resource, ResourceTables}
use rv_tx.Db.Listing.{
  Target, ResourceWithTargets, Joined, node_by_id, join_node, join_row, join_targets, join_all,
  scan_target, add_target, Entries, group_rows, entry_values, list_resources_with_targets,
}
use rv_tx.Db.Listing.Links.{IsLinked, AreLinked}

-- ORDER BY, under any collation.
abbrev pub IsOrder : (List Joined → List Joined) → Type 0
IsOrder order_by = (rows : List Joined) → Perm (order_by rows) rows

abbrev is_some : Option Target → Bool
is_some none = false
is_some (some x) = true

-- The row of the query is read without an error.
abbrev Scans : Joined → Type 0
Scans j = is_some (scan_target j) ≡ true

node_by_id-has_id :
    (id : ℕ) (rows : List Node) → has_id id rows ≡ true → (n : Node) × (node_by_id id rows ≡ some n)
unfolding node_by_id
node_by_id-has_id id [] h = cc
node_by_id-has_id id (n ∷ rows) h = elim (Bool-cases (eqb n.id id)) [
  | inl same ↦ (n, rw same refl)
  | inr other ↦ let (m, found) = node_by_id-has_id id rows (ground arith) in (m, rw other found)
]

joined-Scans :
    (nodes : NodeTable) (r : Resource) (row : TargetRow)
    → IsLinked nodes row
    → Scans (join_row nodes r row)
unfolding scan_target join_row join_node
joined-Scans nodes r row k = elim (Option-cases row.node_id) [
  | inl no_node ↦ elim (Option-cases row.address) [
    | inl no_address ↦ let k' = rw (no_node, no_address) at k in cc
    | inr (address, e) ↦ rw (no_node, e, scan_target) refl
  ]
  | inr (id, e) ↦
      let (n, found) = node_by_id-has_id id nodes.rows (rw e at k) in
      rw (e, found, scan_target) refl
]

targets-Scan :
    (nodes : NodeTable) (r : Resource) (rows : List TargetRow)
    → All (IsLinked nodes) rows
    → All Scans (join_targets nodes r rows)
unfolding join_targets
targets-Scan nodes r [] k = tt
targets-Scan nodes r (row ∷ rows) k =
    let rest = targets-Scan nodes r rows k.1 in
    elim (Bool-cases (eqb row.resource_id r.id)) [
      | inl own ↦ rw own (joined-Scans nodes r row k.0, rest)
      | inr other ↦ rw other rest
    ]

all-Scan :
    (nodes : NodeTable) (rs : List Resource) (rows : List TargetRow)
    → All (IsLinked nodes) rows
    → All Scans (join_all nodes rs rows)
unfolding join_all
all-Scan nodes [] rows k = tt
all-Scan nodes (r ∷ rs) rows k =
    All-++ Scans (join_targets nodes r rows) _ (targets-Scan nodes r rows k)
      (all-Scan nodes rs rows k)

mem-Scans : (js : List Joined) (j : Joined) → All Scans js → Mem j js → Scans j
mem-Scans [] j k m = absurd (not-mem-nil m)
mem-Scans (x ∷ js) j k m =
    Or.elim (Bool-set _ _) (mem-cons.0 m) (λ e. subst Scans (sym e) k.0) (λ t. mem-Scans js j k.1 t)

grouped :
    (js : List Joined) (entries : Entries)
    → ((j : Joined) → Mem j js → Scans j)
    → (entries' : Entries) × (group_rows js entries ≡ some entries')
unfolding group_rows
grouped [] entries h = (entries, refl)
grouped (j ∷ js) entries h = elim (Option-cases (scan_target j)) [
  | inl missing ↦
      let k : is_some none ≡ true = subst (λ o. is_some o ≡ true) missing (h j mem-cons_self) in cc
  | inr (x, found) ↦
      let (entries', made) =
        grouped js (add_target j.resource x entries) (λ q m. h q (mem-cons_of_mem j m)) in
      (entries', rw (found, group_rows) made)
]

-- Where every target has an address or a node, ListResourcesWithTargets succeeds.
pub list_resources-made :
    (order_by : List Joined → List Joined) (nodes : NodeTable) (t : ResourceTables)
    → IsOrder order_by
    → AreLinked nodes t
    → (ws : List ResourceWithTargets) × (list_resources_with_targets order_by nodes t ≡ some ws)
unfolding list_resources_with_targets
list_resources-made order_by nodes t ordered k =
    let js = join_all nodes t.resources t.targets in
    let scanned = all-Scan nodes t.resources t.targets k in
    let (entries, made) =
      grouped (order_by js) [] (λ j m. mem-Scans js j scanned ((Perm.mem_iff (ordered js)).0 m)) in
    (entry_values entries, rw (made, list_resources_with_targets) refl)
