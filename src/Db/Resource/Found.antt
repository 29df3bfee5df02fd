-- ===== src/Db/Resource/Found.antt =====
-- The row that a name finds among resources with distinct names and ids.
use rv_tx.Base.{
  ℕ, ◌≡◌, ◌≢◌, ◌↔◌, inl, inr, refl, sym, subst, String, some, none, List, [], ◌∷◌, map, ◌++◌, arith,
  All, Absent, Distinct, eq_iff, Bool-cases, ◌==◌, ap, Bool,
}
use mathlib.Core.Option.{some-injective}
use rv_tx.Db.Resource.{Resource, ResourceSpec, find_resource, replace_resource, remove_resource}

abbrev pub names : List Resource → List String
names = map (λ (r : Resource). r.name)

abbrev pub DistinctIds : List Resource → Type 0
DistinctIds [] = Unit {0}
DistinctIds (r ∷ rows) = All (λ (q : Resource). q.id ≢ r.id) rows × DistinctIds rows

pub DistinctIds-append :
    (rows : List Resource) (r : Resource)
    → DistinctIds rows
    → All (λ (q : Resource). r.id ≢ q.id) rows
    → DistinctIds (rows ++ r ∷ [])
DistinctIds-append [] r d h = (tt, tt)
DistinctIds-append (q ∷ rows) r d h =
    (rv_tx.Base.All-append _ rows d.0 h.0, DistinctIds-append rows r d.1 h.1)

pub find_resource-none :
    (name : String) (rows : List Resource)
    → find_resource name rows ≡ none
    → Absent name (names rows)
unfolding find_resource
find_resource-none name [] e = tt
find_resource-none name (r ∷ rows) e =
    ground (arith, eq_iff r.name name, find_resource-none name rows)

-- What holds of every row holds of the one that is found.
pub found-All {κ} :
    (P : Resource → Type κ) (name : String) (rows : List Resource) {q : Resource}
    → All P rows
    → find_resource name rows ≡ some q
    → P q
unfolding find_resource
found-All P name [] h e = cc
found-All P name (r ∷ rows) h e = elim (Bool-cases (r.name == name)) [
  | inl same ↦ subst P (some-injective _ _ (rw (same, find_resource) at e)) h.0
  | inr other ↦ found-All P name rows h.1 (rw (other, find_resource) at e)
]

-- The name and the id single out the same row.
abbrev pub IsOf : String → Resource → Resource → Type 0
IsOf name q r = (r.name ≡ name) ↔ (r.id ≡ q.id)

apart :
    (name : String) (q : Resource) (rows : List Resource)
    → Absent name (names rows)
    → All (λ (r : Resource). r.id ≢ q.id) rows
    → All (IsOf name q) rows
apart name q [] a h = tt
apart name q (r ∷ rows) a h =
    ((λ e. absurd (a.0 e), λ e. absurd (h.0 e)), apart name q rows a.1 h.1)

pub found-IsOf :
    (name : String) (rows : List Resource) {q : Resource}
    → Distinct (names rows)
    → DistinctIds rows
    → find_resource name rows ≡ some q
    → All (IsOf name q) rows
unfolding find_resource
found-IsOf name [] n d e = tt
found-IsOf name (r ∷ rows) {q} n d e = elim (Bool-cases (r.name == name)) [
  | inl same ↦
      let is_name = (eq_iff _ _).0 same in
      let is_q = some-injective _ _ (rw (same, find_resource) at e) in
      subst (λ q. All (IsOf name q) (r ∷ rows)) is_q
        (
          (λ _. refl, λ _. is_name),
          apart name r rows (subst (λ s. Absent s (names rows)) is_name n.0) d.0,
        )
  | inr other ↦
      let in_rest = rw (other, find_resource) at e in
      let differs = found-All (λ q. q.id ≢ r.id) name rows d.0 in_rest in
      (ground (arith, eq_iff r.name name), found-IsOf name rows n.1 d.1 in_rest)
]

pub names-replace :
    (scheme : String) (s : ResourceSpec) (rows : List Resource)
    → names (replace_resource scheme s rows) ≡ names rows
unfolding replace_resource
names-replace scheme s [] = refl
names-replace scheme s (r ∷ rows) =
    ground (arith, eq_iff r.name s.name, names-replace scheme s rows)

-- The id keeps what it satisfies.
pub ids-replace {κ} :
    (P : ℕ → Type κ) (scheme : String) (s : ResourceSpec) (rows : List Resource)
    → All (λ (r : Resource). P r.id) rows
    → All (λ (r : Resource). P r.id) (replace_resource scheme s rows)
unfolding replace_resource
ids-replace P scheme s [] h = tt
ids-replace P scheme s (r ∷ rows) h = elim (Bool-cases (r.name == s.name)) [
  | inl same ↦ rw same (h.0, ids-replace P scheme s rows h.1)
  | inr other ↦ rw other (h.0, ids-replace P scheme s rows h.1)
]

pub DistinctIds-replace :
    (scheme : String) (s : ResourceSpec) (rows : List Resource)
    → DistinctIds rows
    → DistinctIds (replace_resource scheme s rows)
unfolding replace_resource
DistinctIds-replace scheme s [] d = tt
DistinctIds-replace scheme s (r ∷ rows) d = elim (Bool-cases (r.name == s.name)) [
  | inl same ↦
      rw same (ids-replace (λ i. i ≢ r.id) scheme s rows d.0, DistinctIds-replace scheme s rows d.1)
  | inr other ↦
      rw other
        (ids-replace (λ i. i ≢ r.id) scheme s rows d.0, DistinctIds-replace scheme s rows d.1)
]

pub All-remove {κ} :
    (P : Resource → Type κ) (name : String) (rows : List Resource)
    → All P rows
    → All P (remove_resource name rows)
unfolding remove_resource
All-remove P name [] h = tt
All-remove P name (r ∷ rows) h = elim (Bool-cases (r.name == name)) [
  | inl same ↦ rw same (All-remove P name rows h.1)
  | inr other ↦ rw other (h.0, All-remove P name rows h.1)
]

Absent-remove :
    (a name : String) (rows : List Resource)
    → Absent a (names rows)
    → Absent a (names (remove_resource name rows))
unfolding remove_resource
Absent-remove a name [] h = tt
Absent-remove a name (r ∷ rows) h = ground (arith, Absent-remove a name rows h.1)

pub Distinct-remove :
    (name : String) (rows : List Resource)
    → Distinct (names rows)
    → Distinct (names (remove_resource name rows))
unfolding remove_resource
Distinct-remove name [] h = tt
Distinct-remove name (r ∷ rows) h =
    ground (arith, Absent-remove r.name name rows h.0, Distinct-remove name rows h.1)

pub DistinctIds-remove :
    (name : String) (rows : List Resource)
    → DistinctIds rows
    → DistinctIds (remove_resource name rows)
unfolding remove_resource
DistinctIds-remove name [] d = tt
DistinctIds-remove name (r ∷ rows) d = elim (Bool-cases (r.name == name)) [
  | inl same ↦ rw same (DistinctIds-remove name rows d.1)
  | inr other ↦
      rw other (All-remove (λ q. q.id ≢ r.id) name rows d.0, DistinctIds-remove name rows d.1)
]
