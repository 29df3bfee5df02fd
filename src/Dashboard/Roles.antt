-- ===== src/Dashboard/Roles.antt =====
-- The role of an account under the statements on the users table.
use rv_tx.Base.{
  ◌≡◌, ◌≢◌, inl, inr, refl, sym, String, Bool, true, false, Option, none, some, List, [], ◌∷◌, ◌++◌,
  if◌then◌else◌, ◌==◌, arith, Bool-cases, eq_iff,
}
use mathlib.Core.Option.{some-injective}
use rv_tx.Db.User.{UserTable, UserRow, is_email, affecting, update_where, delete_where}
use rv_tx.Dashboard.{Outside}
use rv_tx.Dashboard.Handlers.{queried}

-- The role of the first row with the email.
unfoldable pub find_role : String → List UserRow → Option String
find_role email [] = none
find_role email (r ∷ rows) = if r.email == email then some r.role else find_role email rows

-- The account has the role.
abbrev pub HasRole : String → String → UserTable → Type 0
HasRole email role t = find_role email t.rows ≡ some role

module _ (email : String) where
  pub find_role-update :
      (p : UserRow → Bool) (f : UserRow → UserRow)
      → ((r : UserRow) → ((f r).email ≡ r.email) × ((f r).role ≡ r.role))
      → (rows : List UserRow) → find_role email (update_where p f rows) ≡ find_role email rows
  unfolding find_role update_where
  find_role-update p f h [] = refl
  find_role-update p f h (r ∷ rows) =
      let rest = find_role-update p f h rows in let (same_email, same_role) = h r in ground arith

  pub find_role-set :
      (other role : String) (rows : List UserRow)
      → other ≢ email
      → find_role email
          (update_where (is_email other) (λ (r : UserRow). record r { role = role }) rows)
        ≡ find_role email rows
  unfolding find_role update_where
  find_role-set other role [] d = refl
  find_role-set other role (r ∷ rows) d =
      ground (arith, eq_iff r.email other, eq_iff r.email email, find_role-set other role rows d)

  pub find_role-delete :
      (other : String) (rows : List UserRow)
      → other ≢ email
      → find_role email (delete_where (is_email other) rows) ≡ find_role email rows
  unfolding find_role delete_where
  find_role-delete other [] d = refl
  find_role-delete other (r ∷ rows) d =
      ground (arith, eq_iff r.email other, eq_iff r.email email, find_role-delete other rows d)

  pub find_role-append :
      (r : UserRow) (rows : List UserRow) (role : String)
      → find_role email rows ≡ some role
      → find_role email (rows ++ r ∷ []) ≡ some role
  unfolding find_role
  find_role-append r [] role e = cc
  find_role-append r (q ∷ rows) role e = ground (arith, find_role-append r rows role)

pub affected :
    (b : Bool) (rows : List UserRow) (t : UserTable) {t' : UserTable}
    → affecting b rows t ≡ some t'
    → t' ≡ record t { rows = rows }
affected true rows t e = sym (some-injective _ _ e)
affected false rows t e = cc

pub answered {ℓ} :
    {A : Type ℓ} (o : Outside) (r : Option A) {a : A} → queried o r ≡ some a → r ≡ some a
answered o r e = elim (Bool-cases o.db_up) [
  | inl up ↦ rw up at e
  | inr down ↦ let e' = rw down at e in cc
]
