-- ===== src/Db/Listing/Groups.antt =====
-- The grouping loop: the entry of each resource holds the targets of its own rows.
use rv_tx.Base.{
  ℕ, ◌≡◌, refl, ◌∙◌, ap, Option, none, some, List, [], ◌∷◌, eqb, if◌then◌else◌, arith, Option-cases,
  inl, inr,
}
use rv_tx.Db.Resource.{Resource}
use rv_tx.Db.Listing.{
  Target, ResourceWithTargets, Joined, scan_target, new_entry, with_target, Entries, add_target,
  group_rows,
}

unfoldable pub find_entry : ℕ → Entries → Option ResourceWithTargets
find_entry id [] = none
find_entry id (entry ∷ entries) = if eqb entry.0 id then some entry.1 else find_entry id entries

-- An entry, if there is one yet, after a row of its own resource.
abbrev pub extended : Resource → Target → Option ResourceWithTargets → Option ResourceWithTargets
extended r x none = some (with_target x (new_entry r))
extended r x (some w) = some (with_target x w)

-- An entry after the rows of its resource, the other rows passed over.
unfoldable pub own_rows : ℕ → List Joined → Option ResourceWithTargets → Option ResourceWithTargets
own_rows id [] o = o
own_rows id (j ∷ js) o = elim (scan_target j) [
  | none ↦ own_rows id js o
  | some x ↦ own_rows id js (if eqb j.resource.id id then extended j.resource x o else o)
]

find-add :
    (id : ℕ) (r : Resource) (x : Target) (entries : Entries)
    → find_entry id (add_target r x entries)
      ≡ (if eqb r.id id then extended r x (find_entry id entries) else find_entry id entries)
unfolding find_entry add_target
find-add id r x [] = refl
find-add id r x (entry ∷ entries) = ground (arith, find-add id r x entries)

-- The loop leaves under each id the entry that the rows of that id alone make, in their order.
pub find-group_rows :
    (id : ℕ) (js : List Joined) (entries : Entries) {entries' : Entries}
    → group_rows js entries ≡ some entries'
    → find_entry id entries' ≡ own_rows id js (find_entry id entries)
unfolding group_rows own_rows
find-group_rows id [] entries e = cc
find-group_rows id (j ∷ js) entries e = elim (Option-cases (scan_target j)) [
  | inl missing ↦ let e' = rw (missing, group_rows) at e in cc
  | inr (x, found) ↦
      let rest =
        find-group_rows id js (add_target j.resource x entries) (rw (found, group_rows) at e) in
      rw (found, own_rows) (rest ∙ ap (own_rows id js) (find-add id j.resource x entries))
]
