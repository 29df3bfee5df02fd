-- ===== src/Db/Resource/Catalogue/Rows.antt =====
-- Finding a resource, and the targets of an id, after a change of the rows.
use mathlib.Core.Option.{some-injective}
use mathlib.Core.List.{append-nil}
use rv_tx.Base.{
  eqb_ne, eqb_refl, ℕ, ◌≡◌, ◌≢◌, refl, ap, ◌∙◌, inl, inr, String, none, some, List, [], ◌∷◌, ◌++◌,
  map, Bool-cases, ◌==◌, eq_iff, eq_refl, eqb, if◌then◌else◌, arith, All,
}
use rv_tx.Db.Target.{TargetRow, targets_of}
use rv_tx.Db.Target.Rows.{targets_of-append, targets_of-All}
use rv_tx.Db.Resource.{
  Resource, ResourceSpec, resource_row, find_resource, replace_resource, remove_resource,
}
use rv_tx.Db.Resource.Catalogue.{erase}
use rv_tx.Db.Resource.Catalogue.Accepts.{own}

pub find-append :
    (name : String) (rows : List Resource) (r : Resource)
    → find_resource name (rows ++ r ∷ []) ≡ (elim (find_resource name rows) [
      | some q ↦ some q
      | none ↦ if r.name == name then some r else none
    ])
unfolding find_resource
find-append name [] r = refl
find-append name (q ∷ rows) r = ground (arith, find-append name rows r)

pub find-replace :
    (name scheme : String) (s : ResourceSpec) (rows : List Resource)
    → s.name ≢ name
    → find_resource name (replace_resource scheme s rows) ≡ find_resource name rows
unfolding find_resource replace_resource
find-replace name scheme s [] d = refl
find-replace name scheme s (q ∷ rows) d = ground (
  arith,
  eq_iff q.name s.name,
  eq_iff q.name name,
  eq_iff s.name name,
  find-replace name scheme s rows d,
)

pub find-replace_self :
    (scheme : String) (s : ResourceSpec) (rows : List Resource) {r : Resource}
    → find_resource s.name rows ≡ some r
    → find_resource s.name (replace_resource scheme s rows) ≡ some (resource_row r.id scheme s)
unfolding find_resource replace_resource
find-replace_self scheme s [] e = cc
find-replace_self scheme s (q ∷ rows) e = elim (Bool-cases (q.name == s.name)) [
  | inl same ↦
      let is_r = some-injective _ _ (rw (same, find_resource) at e) in
      rw (same, replace_resource)
        (rw (eq_refl s.name, find_resource)
          (ap (λ (r : Resource). some (resource_row r.id scheme s)) is_r))
  | inr other ↦
      rw (other, replace_resource)
        (rw (other, find_resource)
          (find-replace_self scheme s rows (rw (other, find_resource) at e)))
]

pub find-remove :
    (name other : String) (rows : List Resource)
    → find_resource other (remove_resource name rows)
      ≡ (if name == other then none else find_resource other rows)
unfolding find_resource remove_resource
find-remove name other [] = ground arith
find-remove name other (q ∷ rows) =
    ground (
      arith,
      eq_iff q.name name,
      eq_iff q.name other,
      eq_iff name other,
      find-remove name other rows,
    )

owned :
    (id : ℕ) (new : List TargetRow) → All (λ (x : TargetRow). x.resource_id ≡ id) (map (own id) new)
owned id [] = tt
owned id (x ∷ new) = (refl, owned id new)

erase-own : (id : ℕ) (new : List TargetRow) → map erase (map (own id) new) ≡ map erase new
erase-own id [] = refl
erase-own id (x ∷ new) = ap (λ xs. erase x ∷ xs) (erase-own id new)

-- The targets of an id where rows of an id are added to others.
targets-added :
    (id other : ℕ) (rows new : List TargetRow)
    → targets_of other (rows ++ map (own id) new)
      ≡ targets_of other rows ++ (if eqb id other then map (own id) new else [])
targets-added id other rows new =
    targets_of-append other rows (map (own id) new)
    ∙ ap (λ xs. targets_of other rows ++ xs)
        (targets_of-All id other (map (own id) new) (owned id new))

-- The targets of another id, and those of an id that had none.
pub targets-other :
    (id other : ℕ) (rows new : List TargetRow)
    → id ≢ other
    → targets_of other (rows ++ map (own id) new) ≡ targets_of other rows
targets-other id other rows new d =
    targets-added id other rows new ∙ rw (eqb_ne id other d) (append-nil (targets_of other rows))

pub targets-own :
    (id : ℕ) (rows new : List TargetRow)
    → targets_of id rows ≡ []
    → map erase (targets_of id (rows ++ map (own id) new)) ≡ map erase new
targets-own id rows new fresh =
    ap (map erase) (targets-added id id rows new ∙ rw (fresh, eqb_refl id) refl) ∙ erase-own id new
