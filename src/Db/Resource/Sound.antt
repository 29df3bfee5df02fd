-- ===== src/Db/Resource/Sound.antt =====
-- The invariant of the resources and their targets: what CreateResource, UpdateResource and
-- DeleteResource keep, in any order and number.
use rv_tx.Base.{
  ℕ, suc, ◌<◌, ◌≡◌, ◌≢◌, inl, inr, refl, sym, subst, String, none, List, [], ◌∷◌, map, arith, All,
  All-append, All-map, Distinct, Distinct-append, Bool-cases, ◌==◌, eq_iff, eqb, ◌∙◌,
  ne_of_eq-false,
}
use mathlib.Core.List.{map-append}
use rv_tx.Db.Node.{NodeTable}
use rv_tx.Db.Target.{
  TargetRow, TargetSpec, ok, role_of, targets_of, delete_targets, validate_targets,
}
use rv_tx.Db.Target.Validate.{IsServed, validate_targets_iff}
use rv_tx.Db.Target.Rows.{
  targets_of-delete, targets_of-absent, resolved-roles, Stores, insert_targets-Stores,
}
use rv_tx.Db.Resource.{
  Resource, ResourceSpec, ResourceTables, resource_row, replace_resource, remove_resource,
  create_resource, update_resource, delete_resource,
}
use rv_tx.Db.Resource.Cases.{create_resource-ok, update_resource-ok, delete_resource-ok}
use rv_tx.Db.Resource.Found.{
  names, DistinctIds, DistinctIds-append, find_resource-none, found-All, IsOf, found-IsOf,
  names-replace, ids-replace, DistinctIds-replace, All-remove, Distinct-remove, DistinctIds-remove,
}

abbrev pub roles_of : ℕ → List TargetRow → List String
roles_of id rows = map (λ (x : TargetRow). x.role) (targets_of id rows)

-- The targets of a resource are what its protocol serves.
abbrev pub IsBacked : List TargetRow → Resource → Type 0
IsBacked rows r = (roles_of r.id rows ≢ []) × IsServed r.protocol (roles_of r.id rows)

pub record IsSound (t : ResourceTables) : Type 0 where
  pub names_distinct : Distinct (names t.resources)
  pub ids_distinct : DistinctIds t.resources
  pub ids_bounded : All (λ (r : Resource). r.id < t.next_id) t.resources
  pub owners_bounded : All (λ (x : TargetRow). x.resource_id < t.next_id) t.targets
  pub backed : All (IsBacked t.targets) t.resources

map-nonempty : (ts : List TargetSpec) → ts ≢ [] → map role_of ts ≢ []
map-nonempty [] h e = h refl
map-nonempty (t ∷ ts) h e = cc

-- The targets that are stored for a valid specification back its resource.
new-IsBacked :
    (nodes : NodeTable) (id : ℕ) (scheme : String) (s : ResourceSpec) {rows rows' : List TargetRow}
    → validate_targets s.protocol s.targets ≡ none
    → Stores nodes id s.targets rows rows'
    → IsBacked rows' (resource_row id scheme s)
new-IsBacked nodes id scheme s {rows} {rows'} valid st =
    let (some_target, _, served) = (validate_targets_iff s.protocol s.targets).0 valid in
    let roles = resolved-roles nodes id s.targets (targets_of id rows') st.own in
    rw roles (map-nonempty s.targets some_target, served)

-- Resources of other ids stay backed where only the targets of one id change.
module _ (id : ℕ) (rows rows' : List TargetRow)
    (same : (other : ℕ) → other ≢ id → targets_of other rows' ≡ targets_of other rows) where
  kept-IsBacked : (r : Resource) → r.id ≢ id → IsBacked rows r → IsBacked rows' r
  kept-IsBacked r d h = rw (same r.id d) h

  All-kept-IsBacked :
      (rs : List Resource)
      → All (λ (r : Resource). r.id ≢ id) rs
      → All (IsBacked rows) rs
      → All (IsBacked rows') rs
  All-kept-IsBacked [] d h = tt
  All-kept-IsBacked (r ∷ rs) d h = (kept-IsBacked r d.0 h.0, All-kept-IsBacked rs d.1 h.1)

  replaced-IsBacked :
      (scheme : String) (s : ResourceSpec) (q : Resource) (rs : List Resource)
      → q.id ≡ id
      → All (IsOf s.name q) rs
      → IsBacked rows' (resource_row id scheme s)
      → All (IsBacked rows) rs
      → All (IsBacked rows') (replace_resource scheme s rs)
  unfolding replace_resource
  replaced-IsBacked scheme s q [] is_id of_q new h = tt
  replaced-IsBacked scheme s q (r ∷ rs) is_id of_q new h =
      let rest = replaced-IsBacked scheme s q rs is_id of_q.1 new h.1 in
      elim (Bool-cases (r.name == s.name)) [
        | inl e ↦
            let own : id ≡ r.id = sym (of_q.0.0 ((eq_iff _ _).0 e) ∙ is_id) in
            rw e (subst (λ i. IsBacked rows' (resource_row i scheme s)) own new, rest)
        | inr e ↦
            let other : r.id ≢ id = λ p. absurd (ne_of_eq-false _ _ e (of_q.0.1 (p ∙ sym is_id))) in
            rw e (kept-IsBacked r other h.0, rest)
      ]

  removed-IsBacked :
      (name : String) (q : Resource) (rs : List Resource)
      → q.id ≡ id
      → All (IsOf name q) rs
      → All (IsBacked rows) rs
      → All (IsBacked rows') (remove_resource name rs)
  unfolding remove_resource
  removed-IsBacked name q [] is_id of_q h = tt
  removed-IsBacked name q (r ∷ rs) is_id of_q h =
      let rest = removed-IsBacked name q rs is_id of_q.1 h.1 in
      elim (Bool-cases (r.name == name)) [
        | inl e ↦ rw e rest
        | inr e ↦
            let other : r.id ≢ id = λ p. absurd (ne_of_eq-false _ _ e (of_q.0.1 (p ∙ sym is_id))) in
            rw e (kept-IsBacked r other h.0, rest)
      ]

All-delete :
    (P : TargetRow → Type 0) (id : ℕ) (rows : List TargetRow)
    → All P rows
    → All P (delete_targets id rows)
unfolding delete_targets
All-delete P id [] h = tt
All-delete P id (x ∷ rows) h = elim (Bool-cases (eqb x.resource_id id)) [
  | inl e ↦ rw e (All-delete P id rows h.1)
  | inr e ↦ rw e (h.0, All-delete P id rows h.1)
]

pub deleted_own : (id : ℕ) (rows : List TargetRow) → targets_of id (delete_targets id rows) ≡ []
deleted_own id rows = ground (arith, targets_of-delete id id rows)

pub deleted_others :
    (id : ℕ) (rows : List TargetRow) (other : ℕ)
    → other ≢ id
    → targets_of other (delete_targets id rows) ≡ targets_of other rows
deleted_others id rows other d = ground (arith, targets_of-delete id other rows)

module _ (s : ResourceSpec) (nodes : NodeTable) (t : ResourceTables) {t' : ResourceTables}
    (k : IsSound t) where
  pub create_resource-IsSound : create_resource s nodes t ≡ ok t' → IsSound t'
  create_resource-IsSound e =
      let (scheme, rows, valid, missing, is_rows, same) = create_resource-ok s nodes t e in
      let absent =
        targets_of-absent t.next_id t.targets
          (All-map (λ x p. ground arith) t.targets k.owners_bounded) in
      let st = insert_targets-Stores nodes t.next_id s.targets t.targets absent is_rows in
      subst IsSound (sym same) (record {
        names_distinct = rw (map-append _ t.resources _) (
            Distinct-append (names t.resources) s.name k.names_distinct
              (find_resource-none s.name t.resources missing));
        ids_distinct =
            DistinctIds-append t.resources (resource_row t.next_id scheme s) k.ids_distinct
              (All-map (λ x p. ground arith) t.resources k.ids_bounded);
        ids_bounded =
            All-append _ t.resources (All-map (λ x p. omega arith) t.resources k.ids_bounded)
              (omega arith);
        owners_bounded =
            st.bounded (suc t.next_id) (omega arith)
              (All-map (λ x p. omega arith) t.targets k.owners_bounded);
        backed =
            All-append _ t.resources
              (All-kept-IsBacked t.next_id t.targets rows st.others t.resources
                (All-map (λ x p. ground arith) t.resources k.ids_bounded) k.backed)
              (new-IsBacked nodes t.next_id scheme s valid st);
      })

  pub update_resource-IsSound : update_resource s nodes t ≡ ok t' → IsSound t'
  update_resource-IsSound e =
      let (scheme, r, rows, valid, found, is_rows, same) = update_resource-ok s nodes t e in
      let st =
        insert_targets-Stores nodes r.id s.targets (delete_targets r.id t.targets)
          (deleted_own r.id t.targets) is_rows in
      let bound : r.id < t.next_id =
        found-All (λ r. r.id < t.next_id) s.name t.resources k.ids_bounded found in
      subst IsSound (sym same) (record {
        names_distinct = rw (names-replace scheme s t.resources) k.names_distinct;
        ids_distinct = DistinctIds-replace scheme s t.resources k.ids_distinct;
        ids_bounded = ids-replace (λ i. i < t.next_id) scheme s t.resources k.ids_bounded;
        owners_bounded = st.bounded t.next_id bound (All-delete _ r.id t.targets k.owners_bounded);
        backed =
            replaced-IsBacked r.id t.targets rows
              (λ i d. st.others i d ∙ deleted_others r.id t.targets i d) scheme s r t.resources refl
              (found-IsOf s.name t.resources k.names_distinct k.ids_distinct found)
              (new-IsBacked nodes r.id scheme s valid st) k.backed;
      })

pub delete_resource-IsSound :
    (name : String) (t : ResourceTables) {t' : ResourceTables}
    → IsSound t
    → delete_resource name t ≡ ok t'
    → IsSound t'
delete_resource-IsSound name t k e =
    let (r, found, same) = delete_resource-ok name t e in
    subst IsSound (sym same) (record {
      names_distinct = Distinct-remove name t.resources k.names_distinct;
      ids_distinct = DistinctIds-remove name t.resources k.ids_distinct;
      ids_bounded = All-remove _ name t.resources k.ids_bounded;
      owners_bounded = All-delete _ r.id t.targets k.owners_bounded;
      backed =
          removed-IsBacked r.id t.targets (delete_targets r.id t.targets)
            (deleted_others r.id t.targets) name r t.resources refl
            (found-IsOf name t.resources k.names_distinct k.ids_distinct found) k.backed;
    })
