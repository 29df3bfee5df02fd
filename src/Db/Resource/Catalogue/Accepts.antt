-- ===== src/Db/Resource/Catalogue/Accepts.antt =====
-- The transactions in terms of the entry of the specification.
use mathlib.Core.List.{append_assoc, append-nil, map-append}
use rv_tx.Base.{
  ℕ, suc, ◌≡◌, refl, sym, ap, ◌∙◌, inl, inr, String, true, ◌&&◌, ◌||◌, Option, none, some, List, [],
  ◌∷◌, ◌++◌, map, Bool-cases, Option-cases, ◌==◌, arith,
}
use rv_tx.Db.Node.{NodeTable, find_node}
use rv_tx.Db.Target.{
  TargetSpec, TargetRow, ResourceError, Outcome, ok, err, and_then, checked, role_of, insert_row,
  target_row, validate_targets, validate_backends, insert_targets, delete_targets, is_int4,
}
use rv_tx.Db.Resource.{
  Resource, ResourceSpec, ResourceTables, resource_row, normalize_target_scheme, find_resource,
  insert_resource, with_targets, create_resource, replace_resource, returned_resource,
  update_resource,
}
use rv_tx.Db.Resource.Catalogue.{erase, Entry, accepted}

-- A row under an owner.
abbrev pub own : ℕ → TargetRow → TargetRow
own id x = record x { resource_id = id }

insert_row-own :
    (id : ℕ) (x : TargetRow) → insert_row (own id x) ≡ and_then (insert_row x) (λ x. ok (own id x))
unfolding insert_row
insert_row-own id x =
    elim (Bool-cases ((x.role == "primary" || x.role == "backup") && is_int4 x.port)) [
      | inl fine ↦ rw fine refl
      | inr bad ↦ rw bad refl
    ]

abbrev row_for : Option ℕ → Option String → TargetSpec → TargetRow
row_for node address t = record {
  resource_id = 0;
  node_id = node;
  address = address;
  port = t.port;
  role = role_of t;
}

target_row-own :
    (nodes : NodeTable) (id : ℕ) (t : TargetSpec)
    → target_row nodes id t ≡ and_then (target_row nodes 0 t) (λ x. ok (own id x))
unfolding target_row
target_row-own nodes id t = elim (Bool-cases (t.address == "")) [
  | inl empty ↦ elim (Option-cases (find_node t.node_name nodes.rows)) [
    | inl missing ↦ rw (empty, missing, target_row) refl
    | inr (n, found) ↦
        rw (empty, found, target_row) (insert_row-own id (row_for (some n.id) none t))
  ]
  | inr other ↦ rw (other, target_row) (insert_row-own id (row_for none (some t.address) t))
]

and_then_assoc {ℓ} :
    {A B C : Type ℓ} (o : Outcome A) (f : A → Outcome B) (g : B → Outcome C)
    → and_then (and_then o f) g ≡ and_then o (λ a. and_then (f a) g)
and_then_assoc (ok a) f g = refl
and_then_assoc (err e) f g = refl

and_then_ext {ℓ} :
    {A B : Type ℓ} (o : Outcome A) {f g : A → Outcome B}
    → ((a : A) → f a ≡ g a)
    → and_then o f ≡ and_then o g
and_then_ext (ok a) h = h a
and_then_ext (err e) h = refl

moved :
    (id : ℕ) (rows acc : List TargetRow) (x : TargetRow)
    → (rows ++ map (own id) acc) ++ own id x ∷ [] ≡ rows ++ map (own id) (acc ++ x ∷ [])
moved id rows acc x =
    append_assoc rows (map (own id) acc) (own id x ∷ [])
    ∙ ap (λ xs. rows ++ xs) (sym (map-append (own id) acc (x ∷ [])))

checked_ext {ℓ} :
    {A : Type ℓ} (o : Option ResourceError) {k k' : Outcome A}
    → ((o ≡ none) → k ≡ k')
    → checked o k ≡ checked o k'
checked_ext none h = h refl
checked_ext (some e) h = refl

checked-and_then {ℓ} :
    {A B : Type ℓ} (o : Option ResourceError) (k : Outcome A) (g : A → Outcome B)
    → and_then (checked o k) g ≡ checked o (and_then k g)
checked-and_then none k g = refl
checked-and_then (some e) k g = refl

insert_targets-own :
    (nodes : NodeTable) (id : ℕ) (ts : List TargetSpec) (rows acc : List TargetRow)
    → insert_targets nodes id ts (rows ++ map (own id) acc)
      ≡ and_then (insert_targets nodes 0 ts acc) (λ new. ok (rows ++ map (own id) new))
unfolding insert_targets
insert_targets-own nodes id [] rows acc = refl
insert_targets-own nodes id (t ∷ ts) rows acc =
    let again = insert_targets-own nodes id ts rows in
    ap
      (λ o. and_then o (λ row. insert_targets nodes id ts ((rows ++ map (own id) acc) ++ row ∷ [])))
      (target_row-own nodes id t)
    ∙ and_then_assoc (target_row nodes 0 t) _ _
    ∙ and_then_ext (target_row nodes 0 t)
        (λ x. ap (insert_targets nodes id ts) (moved id rows acc x) ∙ again (acc ++ x ∷ []))
    ∙ sym (and_then_assoc (target_row nodes 0 t) _ _)

-- The rows of the targets of an id, after those that are there.
insert_targets-after :
    (nodes : NodeTable) (id : ℕ) (ts : List TargetSpec) (rows : List TargetRow)
    → insert_targets nodes id ts rows
      ≡ and_then (insert_targets nodes 0 ts []) (λ new. ok (rows ++ map (own id) new))
insert_targets-after nodes id ts rows =
    ap (insert_targets nodes id ts) (sym (append-nil rows)) ∙ insert_targets-own nodes id ts rows []

-- The tables with a new entry, and with an entry in place of another.
abbrev pub added : ResourceTables → Entry → ResourceTables
added t e = record {
  resources = t.resources ++ record e.0 { id = t.next_id } ∷ [];
  targets = t.targets ++ map (own t.next_id) e.1;
  next_id = suc t.next_id;
}

abbrev pub replaced : ResourceSpec → ℕ → ResourceTables → Entry → ResourceTables
replaced s id t e = record t {
  resources = replace_resource e.0.target_scheme s t.resources;
  targets = delete_targets id t.targets ++ map (own id) e.1;
}

module _ (nodes : NodeTable) (s : ResourceSpec) (t : ResourceTables) where
  own_erase : (id : ℕ) (new : List TargetRow) → map (own id) (map erase new) ≡ map (own id) new
  own_erase id [] = refl
  own_erase id (x ∷ new) = ap (λ xs. own id x ∷ xs) (own_erase id new)

  known :
      validate_targets s.protocol s.targets ≡ none
      → (s.protocol == "http" || s.protocol == "tcp" || s.protocol == "udp") ≡ true
  unfolding validate_targets validate_backends
  known e = ground arith

  -- The rest of both transactions, on tables `base`, in terms of the rows without an owner.
  with_targets-after :
      (id : ℕ) (row : Resource) (base : ResourceTables) (g : Entry → ResourceTables)
      → ((new : List TargetRow)
          → g (row, map erase new) ≡ record base { targets = base.targets ++ map (own id) new })
      → with_targets nodes id s.targets base
        ≡ and_then
            (and_then (insert_targets nodes 0 s.targets []) (λ new. ok (row, map erase new)))
            (λ (e : Entry). ok (g e))
  unfolding with_targets
  with_targets-after id row base g h =
      ap (λ o. and_then o (λ rows. ok (record base { targets = rows })))
        (insert_targets-after nodes id s.targets base.targets)
      ∙ and_then_assoc (insert_targets nodes 0 s.targets []) _ _
      ∙ and_then_ext (insert_targets nodes 0 s.targets []) (λ new. ap ok (sym (h new)))
      ∙ sym (and_then_assoc (insert_targets nodes 0 s.targets []) _ _)

  insert_resource-new :
      (scheme : String)
      → find_resource s.name t.resources ≡ none
      → validate_targets s.protocol s.targets ≡ none
      → insert_resource scheme s t
        ≡ ok (record {
          resources = t.resources ++ resource_row t.next_id scheme s ∷ [];
          targets = t.targets;
          next_id = suc t.next_id;
        })
  unfolding insert_resource
  insert_resource-new scheme missing valid = rw (missing, insert_resource) (rw (known valid) refl)

  pub create_resource-accepted :
      find_resource s.name t.resources ≡ none
      → create_resource s nodes t ≡ and_then (accepted nodes s) (λ e. ok (added t e))
  unfolding create_resource accepted
  create_resource-accepted missing =
      checked_ext (validate_targets s.protocol s.targets) (λ valid.
        and_then_ext (normalize_target_scheme s.target_scheme) (λ scheme. one scheme valid)
        ∙ sym (and_then_assoc (normalize_target_scheme s.target_scheme) _ _))
      ∙ sym (checked-and_then (validate_targets s.protocol s.targets) _ _)
    where
      one :
          (scheme : String)
          → validate_targets s.protocol s.targets ≡ none
          → and_then (insert_resource scheme s t) (λ t'. with_targets nodes t.next_id s.targets t')
            ≡ and_then
                (and_then
                  (insert_targets nodes 0 s.targets [])
                  (λ new. ok (resource_row 0 scheme s, map erase new)))
                (λ (e : Entry). ok (added t e))
      one scheme valid =
          let with_row : ResourceTables = record {
            resources = t.resources ++ resource_row t.next_id scheme s ∷ [];
            targets = t.targets;
            next_id = suc t.next_id;
          } in
          ap (λ o. and_then o (λ t'. with_targets nodes t.next_id s.targets t'))
            (insert_resource-new scheme missing valid)
          ∙ with_targets-after t.next_id (resource_row 0 scheme s) with_row (added t) (λ new.
            ap (λ xs. record with_row { targets = t.targets ++ xs }) (own_erase t.next_id new))

  pub update_resource-accepted :
      (r : Resource)
      → find_resource s.name t.resources ≡ some r
      → update_resource s nodes t ≡ and_then (accepted nodes s) (λ e. ok (replaced s r.id t e))
  unfolding update_resource accepted returned_resource
  update_resource-accepted r found =
      checked_ext (validate_targets s.protocol s.targets) (λ valid.
        and_then_ext (normalize_target_scheme s.target_scheme) (λ scheme. one scheme)
        ∙ sym (and_then_assoc (normalize_target_scheme s.target_scheme) _ _))
      ∙ sym (checked-and_then (validate_targets s.protocol s.targets) _ _)
    where
      one :
          (scheme : String)
          → and_then (returned_resource s.name t) (λ q.
            with_targets nodes q.id s.targets (record t {
              resources = replace_resource scheme s t.resources;
              targets = delete_targets q.id t.targets;
            }))
            ≡ and_then
                (and_then
                  (insert_targets nodes 0 s.targets [])
                  (λ new. ok (resource_row 0 scheme s, map erase new)))
                (λ (e : Entry). ok (replaced s r.id t e))
      one scheme =
          let with_row : ResourceTables = record t {
            resources = replace_resource scheme s t.resources;
            targets = delete_targets r.id t.targets;
          } in
          rw (found, returned_resource)
            (with_targets-after r.id (resource_row 0 scheme s) with_row (replaced s r.id t) (λ new.
              ap (λ xs. record with_row { targets = delete_targets r.id t.targets ++ xs })
                (own_erase r.id new)))
