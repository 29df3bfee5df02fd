-- ===== src/Db/Target/Rows.antt =====
-- What the statements on resource_targets do to the rows of each resource.
use rv_tx.Base.{
  eqb_ne, eqb_refl, ℕ, ◌≡◌, ◌≢◌, ◌⊎◌, inl, inr, refl, sym, Option, none, some, List, [], ◌∷◌, ◌++◌,
  map, All, All-++, All-map, Pairwise, ◌<◌, arith, eqb, Bool-cases, if◌then◌else◌, ◌==◌,
  Option-cases, ne_of_eq-false, ◌∙◌,
}
use mathlib.Core.List.{append_assoc, append-nil}
use rv_tx.Db.Node.{Node, NodeTable, find_node}
use rv_tx.Db.Target.{
  TargetSpec, TargetRow, ResourceError, Outcome, and_then, checked, ok, err, role_of, insert_row,
  target_row, insert_targets, targets_of, delete_targets,
}

pub targets_of-append :
    (id : ℕ) (xs ys : List TargetRow)
    → targets_of id (xs ++ ys) ≡ targets_of id xs ++ targets_of id ys
unfolding targets_of
targets_of-append id [] ys = refl
targets_of-append id (x ∷ xs) ys = ground (arith, targets_of-append id xs ys)

pub targets_of-delete :
    (id other : ℕ) (rows : List TargetRow)
    → targets_of other (delete_targets id rows)
      ≡ (if eqb other id then [] else targets_of other rows)
unfolding targets_of delete_targets
targets_of-delete id other [] = ground arith
targets_of-delete id other (x ∷ rows) = ground (arith, targets_of-delete id other rows)

pub targets_of-All :
    (id other : ℕ) (rows : List TargetRow)
    → All (λ (x : TargetRow). x.resource_id ≡ id) rows
    → targets_of other rows ≡ (if eqb id other then rows else [])
unfolding targets_of
targets_of-All id other [] h = ground arith
targets_of-All id other (x ∷ rows) h = ground (arith, targets_of-All id other rows h.1)

pub targets_of-absent :
    (id : ℕ) (rows : List TargetRow)
    → All (λ (x : TargetRow). x.resource_id ≢ id) rows
    → targets_of id rows ≡ []
unfolding targets_of
targets_of-absent id [] h = refl
targets_of-absent id (x ∷ rows) h = ground (arith, targets_of-absent id rows h.1)

-- The row of a specification: its port and role, and its address or the node of its name.
abbrev pub Resolves : NodeTable → ℕ → TargetSpec → TargetRow → Type 0
Resolves nodes id t row =
    (row.resource_id ≡ id)
    × (row.port ≡ t.port)
    × (row.role ≡ role_of t)
    × (((t.address ≢ "") × (row.node_id ≡ none) × (row.address ≡ some t.address))
        ⊎ ((n : Node) × (find_node t.node_name nodes.rows ≡ some n)
            × (row.node_id ≡ some n.id)
            × (row.address ≡ none)))

inserted : (row : TargetRow) {row' : TargetRow} → insert_row row ≡ ok row' → row ≡ row'
unfolding insert_row
inserted row e = ground arith

pub resolved :
    (nodes : NodeTable) (id : ℕ) (t : TargetSpec) {row : TargetRow}
    → target_row nodes id t ≡ ok row
    → Resolves nodes id t row
unfolding target_row
resolved nodes id t {row} e = elim (Bool-cases (t.address == "")) [
  | inl empty ↦ elim (Option-cases (find_node t.node_name nodes.rows)) [
    | inl missing ↦ let e' = rw (empty, missing, target_row) at e in cc
    | inr (n, found) ↦
        let same = inserted _ (rw (empty, found, target_row) at e) in
        rw (sym same) (refl, refl, refl, inr (n, found, refl, refl))
  ]
  | inr other ↦
      let same = inserted _ (rw (other, target_row) at e) in
      rw (sym same) (refl, refl, refl, inl (ne_of_eq-false _ _ other, refl, refl))
]

-- The calls before a success succeeded.
pub and_then-ok {ℓ κ} :
    {A : Type ℓ} {B : Type κ} (o : Outcome A) {k : A → Outcome B} {b : B}
    → and_then o k ≡ ok b
    → (a : A) × (o ≡ ok a) × (k a ≡ ok b)
and_then-ok (ok a) e = (a, refl, e)
and_then-ok (err f) e = cc

pub checked-ok {ℓ} :
    {A : Type ℓ} (o : Option ResourceError) {k : Outcome A} {a : A}
    → checked o k ≡ ok a
    → (o ≡ none) × (k ≡ ok a)
checked-ok none e = (refl, e)
checked-ok (some f) e = cc

-- The rows are added at the end, one for each target.
pub insert_targets_lem :
    (nodes : NodeTable) (id : ℕ) (ts : List TargetSpec) (rows : List TargetRow)
    {rows' : List TargetRow}
    → insert_targets nodes id ts rows ≡ ok rows'
    → (new : List TargetRow) × (rows' ≡ rows ++ new) × Pairwise (Resolves nodes id) ts new
unfolding insert_targets
insert_targets_lem nodes id [] rows e = ([], ground (arith, append-nil rows), tt)
insert_targets_lem nodes id (t ∷ ts) rows e =
    let (row, is_row, rest) = and_then-ok (target_row nodes id t) e in
    let (new, same, all) = insert_targets_lem nodes id ts (rows ++ row ∷ []) rest in
    (row ∷ new, same ∙ append_assoc rows (row ∷ []) new, (resolved nodes id t is_row, all))

resolved-ids :
    (nodes : NodeTable) (id : ℕ) (ts : List TargetSpec) (rows : List TargetRow)
    → Pairwise (Resolves nodes id) ts rows
    → All (λ (x : TargetRow). x.resource_id ≡ id) rows
resolved-ids nodes id [] [] h = tt
resolved-ids nodes id [] (r ∷ rows) h = absurd h
resolved-ids nodes id (t ∷ ts) [] h = absurd h
resolved-ids nodes id (t ∷ ts) (r ∷ rows) h = (h.0.0, resolved-ids nodes id ts rows h.1)

pub resolved-roles :
    (nodes : NodeTable) (id : ℕ) (ts : List TargetSpec) (rows : List TargetRow)
    → Pairwise (Resolves nodes id) ts rows
    → map (λ (x : TargetRow). x.role) rows ≡ map role_of ts
resolved-roles nodes id [] [] h = refl
resolved-roles nodes id [] (r ∷ rows) h = absurd h
resolved-roles nodes id (t ∷ ts) [] h = absurd h
resolved-roles nodes id (t ∷ ts) (r ∷ rows) h = cc (h.0.2, resolved-roles nodes id ts rows h.1)

-- What the insertion of targets for an id without any leaves under every id, and that every row is
-- of an id under a bound.
pub record Stores (nodes : NodeTable) (id : ℕ) (ts : List TargetSpec) (rows rows' : List TargetRow)
    : Type 0 where
  pub own : Pairwise (Resolves nodes id) ts (targets_of id rows')
  pub others : (other : ℕ) → other ≢ id → targets_of other rows' ≡ targets_of other rows
  pub bounded :
      (bound : ℕ)
      → id < bound
      → All (λ (x : TargetRow). x.resource_id < bound) rows
      → All (λ (x : TargetRow). x.resource_id < bound) rows'

pub insert_targets-Stores :
    (nodes : NodeTable) (id : ℕ) (ts : List TargetSpec) (rows : List TargetRow)
    {rows' : List TargetRow}
    → targets_of id rows ≡ []
    → insert_targets nodes id ts rows ≡ ok rows'
    → Stores nodes id ts rows rows'
insert_targets-Stores nodes id ts rows fresh e =
    let (new, same, all) = insert_targets_lem nodes id ts rows e in
    let ids = resolved-ids nodes id ts new all in
    rw same (record {
      own = rw (targets_of-append id rows new, fresh, targets_of-All id id new ids, eqb_refl) all;
      others = λ other d.
          rw
            (
              targets_of-append other rows new,
              targets_of-All id other new ids,
              eqb_ne id other (λ p. d (sym p)),
            )
            (append-nil _);
      bounded = λ bound under h. All-++ _ rows new h (All-map (λ x p. ground (arith)) new ids);
    })
