-- ===== src/Db/Resource/Catalogue/View.antt =====
-- The catalogue after each change of the tables.
use rv_tx.Base.{
  eqb_ne, eqb_refl, ℕ, ◌<◌, ◌≡◌, ◌≢◌, refl, sym, ap, ◌∙◌, subst, inl, inr, String, none, some, List,
  [], map, Bool-cases, Option-cases, ◌==◌, eq_iff, ne_of_eq-false, if◌then◌else◌, arith, All-map,
}
use rv_tx.Db.Target.{targets_of, delete_targets}
use rv_tx.Db.Target.Rows.{targets_of-absent, targets_of-delete}
use rv_tx.Db.Resource.{
  Resource, ResourceSpec, ResourceTables, resource_row, find_resource, replace_resource,
  remove_resource,
}
use rv_tx.Db.Resource.Found.{found-All, found-IsOf}
use rv_tx.Db.Resource.Sound.{IsSound}
use rv_tx.Db.Resource.Catalogue.{erase, Entry, entry_in, view}
use rv_tx.Db.Resource.Catalogue.Accepts.{added, replaced}
use rv_tx.Db.Resource.Catalogue.Rows.{
  find-append, find-replace, find-replace_self, find-remove, targets-other, targets-own,
}

module _ (t : ResourceTables) (k : IsSound t) where
  no_owner : targets_of t.next_id t.targets ≡ []
  no_owner =
      targets_of-absent t.next_id t.targets
        (All-map (λ x small. λ same. absurd (omega arith)) t.targets k.owners_bounded)

  deleted :
      (id other : ℕ)
      → id ≢ other
      → targets_of other (delete_targets id t.targets) ≡ targets_of other t.targets
  deleted id other d =
      targets_of-delete id other t.targets ∙ rw (eqb_ne other id (λ e. d (sym e))) refl

  pub view-added :
      (e : Entry)
      → find_resource e.0.name t.resources ≡ none
      → (name : String)
      → view (added t e) name
        ≡ (if e.0.name == name then some (record e.0 { id = 0 }, map erase e.1) else view t name)
  view-added e missing name = elim (Bool-cases (e.0.name == name)) [
    | inl same ↦
        let absent : find_resource name t.resources ≡ none =
          subst (λ n. find_resource n t.resources ≡ none) ((eq_iff _ _).0 same) missing in
        let found : find_resource name (added t e).resources ≡ some row =
          find-append name t.resources row ∙ rw absent (rw same refl) in
        rw found (
          rw same (
            ap (λ xs. some (record e.0 { id = 0 }, xs))
              (targets-own t.next_id t.targets e.1 no_owner)))
    | inr other ↦ elim (Option-cases (find_resource name t.resources)) [
      | inl absent ↦
          let found : find_resource name (added t e).resources ≡ none =
            find-append name t.resources row ∙ rw absent (rw other refl) in
          rw found (rw other (rw absent refl))
      | inr (q, there) ↦
          let found : find_resource name (added t e).resources ≡ some q =
            find-append name t.resources row ∙ rw there refl in
          rw found (rw other (rw there (others q (small q name there))))
    ]
  ]
    where
      row : Resource
      row = record e.0 { id = t.next_id }

      small :
          (q : Resource) (name : String)
          → find_resource name t.resources ≡ some q
          → t.next_id ≢ q.id
      small q name there same =
          let below =
            found-All (λ (r : Resource). r.id < t.next_id) name t.resources k.ids_bounded there in
          absurd (omega arith)

      others :
          (q : Resource)
          → t.next_id ≢ q.id
          → entry_in (added t e).targets (some q) ≡ entry_in t.targets (some q)
      others q d =
          ap (λ xs. some (record q { id = 0 }, map erase xs))
            (targets-other t.next_id q.id t.targets e.1 d)

  -- A resource under another name has another id.
  other_id :
      (name other : String) {r q : Resource}
      → find_resource name t.resources ≡ some r
      → find_resource other t.resources ≡ some q
      → name ≢ other
      → r.id ≢ q.id
  other_id name other {r} {q} found there d same =
      let of_q = found-IsOf other t.resources k.names_distinct k.ids_distinct there in
      let of_r = found-IsOf name t.resources k.names_distinct k.ids_distinct found in
      d (
        sym ((found-All _ name t.resources of_r found).1 refl)
        ∙ (found-All _ name t.resources of_q found).1 same)

  pub view-replaced :
      (s : ResourceSpec) (r : Resource) (e : Entry)
      → e.0 ≡ resource_row 0 e.0.target_scheme s
      → find_resource s.name t.resources ≡ some r
      → (name : String)
      → view (replaced s r.id t e) name
        ≡ (if s.name == name then some (record e.0 { id = 0 }, map erase e.1) else view t name)
  view-replaced s r e is_row found name = elim (Bool-cases (s.name == name)) [
    | inl same ↦
        let changed : find_resource name rows ≡ some row =
          subst (λ n. find_resource n rows ≡ some row) ((eq_iff _ _).0 same)
            (find-replace_self e.0.target_scheme s t.resources found) in
        rw changed (rw same (λ i. some (is_entry i, own_targets i)))
    | inr other ↦
        let d : s.name ≢ name = ne_of_eq-false s.name name other in
        elim (Option-cases (find_resource name t.resources)) [
          | inl absent ↦
              rw (find-replace name e.0.target_scheme s t.resources d ∙ absent)
                (rw other (rw absent refl))
          | inr (q, there) ↦
              rw (find-replace name e.0.target_scheme s t.resources d ∙ there)
                (rw other (rw there (others q (other_id s.name name found there d))))
        ]
  ]
    where
      rows : List Resource
      rows = replace_resource e.0.target_scheme s t.resources

      row : Resource
      row = resource_row r.id e.0.target_scheme s

      is_entry : record row { id = 0 } ≡ record e.0 { id = 0 }
      is_entry = ap (λ (q : Resource). record q { id = 0 }) (sym is_row)

      own_targets : map erase (targets_of r.id (replaced s r.id t e).targets) ≡ map erase e.1
      own_targets =
          targets-own r.id (delete_targets r.id t.targets) e.1
            (targets_of-delete r.id r.id t.targets ∙ rw (eqb_refl r.id) refl)

      others :
          (q : Resource)
          → r.id ≢ q.id
          → entry_in (replaced s r.id t e).targets (some q) ≡ entry_in t.targets (some q)
      others q d =
          ap (λ xs. some (record q { id = 0 }, map erase xs))
            (targets-other r.id q.id (delete_targets r.id t.targets) e.1 d ∙ deleted r.id q.id d)

  pub view-removed :
      (gone : String) (r : Resource)
      → find_resource gone t.resources ≡ some r
      → (name : String)
      → view
          (record t {
            resources = remove_resource gone t.resources;
            targets = delete_targets r.id t.targets;
          })
          name
        ≡ (if gone == name then none else view t name)
  view-removed gone r found name = elim (Bool-cases (gone == name)) [
    | inl same ↦ rw (find-remove gone name t.resources) (rw same refl)
    | inr other ↦ elim (Option-cases (find_resource name t.resources)) [
      | inl absent ↦ rw (find-remove gone name t.resources) (rw other (rw absent refl))
      | inr (q, there) ↦ rw (find-remove gone name t.resources) (
          rw other (
            rw there (
              ap (λ xs. some (record q { id = 0 }, map erase xs))
                (deleted r.id q.id
                  (other_id gone name found there (ne_of_eq-false gone name other))))))
    ]
  ]
