-- ===== src/Db/User/Rows.antt =====
-- The emails and the roles of the rows under the statements on the users table.
use mathlib.Core.List.{map-append}
use rv_tx.Base.{
  ◌≡◌, refl, sym, subst, inl, inr, String, Bool, false, List, [], ◌∷◌, ◌++◌, map, any, All, Absent,
  Distinct, Distinct-append, arith, Bool-cases, or-eq-false, ne_of_eq-false,
}
use rv_tx.Db.User.{UserRow, is_email, update_where, delete_where}

abbrev pub emails : List UserRow → List String
emails rows = map (λ (r : UserRow). r.email) rows

pub emails-update :
    (p : UserRow → Bool) (f : UserRow → UserRow) (rows : List UserRow)
    → ((r : UserRow) → (f r).email ≡ r.email)
    → emails (update_where p f rows) ≡ emails rows
unfolding update_where
emails-update p f [] h = refl
emails-update p f (r ∷ rows) h =
    let rest = emails-update p f rows h in let same_email = h r in ground arith

pub All-update {ℓ} :
    {P : UserRow → Type ℓ} (p : UserRow → Bool) (f : UserRow → UserRow) (rows : List UserRow)
    → ((r : UserRow) → P r → P (f r))
    → All P rows
    → All P (update_where p f rows)
unfolding update_where
All-update p f [] h k = tt
All-update p f (r ∷ rows) h k =
    let rest = All-update p f rows h k.1 in
    elim (Bool-cases (p r)) [
      | inl hit ↦ rw hit (h r k.0, rest)
      | inr missed ↦ rw missed (k.0, rest)
    ]

pub All-delete {ℓ} :
    (P : UserRow → Type ℓ) (p : UserRow → Bool) (rows : List UserRow)
    → All P rows
    → All P (delete_where p rows)
unfolding delete_where
All-delete P p [] k = tt
All-delete P p (r ∷ rows) k =
    let rest = All-delete P p rows k.1 in
    elim (Bool-cases (p r)) [ inl hit ↦ rw hit rest | inr missed ↦ rw missed (k.0, rest) ]

Absent-delete :
    (a : String) (p : UserRow → Bool) (rows : List UserRow)
    → Absent a (emails rows)
    → Absent a (emails (delete_where p rows))
unfolding delete_where
Absent-delete a p [] h = tt
Absent-delete a p (r ∷ rows) h =
    let rest = Absent-delete a p rows h.1 in
    elim (Bool-cases (p r)) [ inl hit ↦ rw hit rest | inr missed ↦ rw missed (h.0, rest) ]

pub Distinct-delete :
    (p : UserRow → Bool) (rows : List UserRow)
    → Distinct (emails rows)
    → Distinct (emails (delete_where p rows))
unfolding delete_where
Distinct-delete p [] d = tt
Distinct-delete p (r ∷ rows) d =
    let rest = Distinct-delete p rows d.1 in
    elim (Bool-cases (p r)) [
      | inl hit ↦ rw hit rest
      | inr missed ↦ rw missed (Absent-delete r.email p rows d.0, rest)
    ]

any-Absent :
    (email : String) (rows : List UserRow)
    → any (is_email email) rows ≡ false
    → Absent email (emails rows)
any-Absent email [] e = tt
any-Absent email (r ∷ rows) e =
    let (other, none_left) = or-eq-false (is_email email r) (any (is_email email) rows) e in
    (ne_of_eq-false r.email email other, any-Absent email rows none_left)

pub Distinct-new :
    (r : UserRow) (rows : List UserRow)
    → Distinct (emails rows)
    → any (is_email r.email) rows ≡ false
    → Distinct (emails (rows ++ r ∷ []))
Distinct-new r rows d e =
    subst Distinct (sym (map-append (λ (r : UserRow). r.email) rows (r ∷ [])))
      (Distinct-append (emails rows) r.email d (any-Absent r.email rows e))
