-- ===== src/Db/Resource/Cases.antt =====
-- What a success of each transaction on resources says: the calls before it succeeded, and the
-- tables are theirs.
use rv_tx.Base.{
  ℕ, suc, ◌≡◌, inl, inr, subst, String, none, some, List, [], ◌∷◌, ◌++◌, ◌||◌, Bool-cases, ◌==◌,
  Option-cases,
}
use rv_tx.Db.Node.{NodeTable}
use rv_tx.Db.Target.{TargetRow, ok, validate_targets, insert_targets, delete_targets}
use rv_tx.Db.Target.Rows.{and_then-ok, checked-ok}
use rv_tx.Db.Resource.{
  ResourceSpec, Resource, ResourceTables, find_resource, resource_row, insert_resource,
  with_targets, normalize_target_scheme, create_resource, replace_resource, returned_resource,
  update_resource, remove_resource, delete_resource,
}

returned :
    (name : String) (t : ResourceTables) {r : Resource}
    → returned_resource name t ≡ ok r
    → find_resource name t.resources ≡ some r
unfolding returned_resource
returned name t e = elim (Option-cases (find_resource name t.resources)) [
  | inl missing ↦ let e' = rw (missing, returned_resource) at e in cc
  | inr (q, found) ↦ let e' = rw (found, returned_resource) at e in cc
]

inserted :
    (scheme : String) (s : ResourceSpec) (t : ResourceTables) {t' : ResourceTables}
    → insert_resource scheme s t ≡ ok t'
    → (find_resource s.name t.resources ≡ none)
      × (t' ≡ record {
        resources = t.resources ++ resource_row t.next_id scheme s ∷ [];
        targets = t.targets;
        next_id = suc t.next_id;
      })
unfolding insert_resource
inserted scheme s t e = elim (Option-cases (find_resource s.name t.resources)) [
  | inl missing ↦
      elim (Bool-cases (s.protocol == "http" || s.protocol == "tcp" || s.protocol == "udp")) [
        | inl known ↦ let e' = rw (missing, known, insert_resource) at e in (missing, cc)
        | inr other ↦ let e' = rw (missing, other, insert_resource) at e in cc
      ]
  | inr (q, found) ↦ let e' = rw (found, insert_resource) at e in cc
]

module _ (s : ResourceSpec) (nodes : NodeTable) (t : ResourceTables) {t' : ResourceTables} where
  stored :
      (id : ℕ) (t1 : ResourceTables)
      → with_targets nodes id s.targets t1 ≡ ok t'
      → (rows : List TargetRow) × (insert_targets nodes id s.targets t1.targets ≡ ok rows)
        × (t' ≡ record t1 { targets = rows })
  unfolding with_targets
  stored id t1 e =
      let (rows, is_rows, e) = and_then-ok (insert_targets nodes id s.targets t1.targets) e in
      (rows, is_rows, cc)

  pub create_resource-ok :
      create_resource s nodes t ≡ ok t'
      → (scheme : String) × (rows : List TargetRow) × (validate_targets s.protocol s.targets ≡ none)
        × (find_resource s.name t.resources ≡ none)
        × (insert_targets nodes t.next_id s.targets t.targets ≡ ok rows)
        × (t' ≡ record {
          resources = t.resources ++ resource_row t.next_id scheme s ∷ [];
          targets = rows;
          next_id = suc t.next_id;
        })
  unfolding create_resource
  create_resource-ok e =
      let (valid, e) = checked-ok (validate_targets s.protocol s.targets) e in
      let (scheme, _, e) = and_then-ok (normalize_target_scheme s.target_scheme) e in
      let (t1, is_t1, e) = and_then-ok (insert_resource scheme s t) e in
      let (missing, same) = inserted scheme s t is_t1 in
      let (rows, is_rows, e) =
        stored t.next_id _ (subst (λ q. with_targets nodes t.next_id s.targets q ≡ ok t') same e) in
      (scheme, rows, valid, missing, is_rows, e)

  pub update_resource-ok :
      update_resource s nodes t ≡ ok t'
      → (scheme : String) × (r : Resource) × (rows : List TargetRow) × (validate_targets s.protocol
            s.targets
          ≡ none)
        × (find_resource s.name t.resources ≡ some r)
        × (insert_targets nodes r.id s.targets (delete_targets r.id t.targets) ≡ ok rows)
        × (t' ≡ record {
          resources = replace_resource scheme s t.resources;
          targets = rows;
          next_id = t.next_id;
        })
  unfolding update_resource
  update_resource-ok e =
      let (valid, e) = checked-ok (validate_targets s.protocol s.targets) e in
      let (scheme, _, e) = and_then-ok (normalize_target_scheme s.target_scheme) e in
      let (r, found, e) = and_then-ok (returned_resource s.name t) e in
      let (rows, is_rows, e) = stored r.id _ e in
      (scheme, r, rows, valid, returned s.name t found, is_rows, e)

pub delete_resource-ok :
    (name : String) (t : ResourceTables) {t' : ResourceTables}
    → delete_resource name t ≡ ok t'
    → (r : Resource) × (find_resource name t.resources ≡ some r)
      × (t' ≡ record t {
        resources = remove_resource name t.resources;
        targets = delete_targets r.id t.targets;
      })
unfolding delete_resource
delete_resource-ok name t e =
    let (r, found, e) = and_then-ok (returned_resource name t) e in (r, returned name t found, cc)
