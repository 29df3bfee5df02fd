-- ===== src/Db/User/Statements.antt =====
-- internal/controlplane/db/users.go: the statements of the handlers on the users table, as data, and the rows
-- that each leaves.
use rv_tx.Base.{
  ℕ, ◌≡◌, sym, ap, subst, String, Bool, false, Option, none, some, List, [], ◌∷◌, ◌++◌, any, inl,
  inr, Option-cases, ◌∙◌, unguarded, or-eq-false,
}
use mathlib.Core.Option.{some-injective}
use rv_tx.Db.User.{
  UserRow, UserTable, is_email, is_invited, is_resetting, update_where, delete_where, insert_user,
  invited_row, create_invite, accepted, accept_invite, delete_user, set_user_role, resettable,
  create_reset_token, reset, reset_password,
}
use rv_tx.Db.User.Tokens.{affected}

-- A statement with its texts; the program's clock where it is read.
pub data UserOp : Type 0 where
  -- The email, the role and the token.
  invite : String → String → String → ℕ → UserOp
  -- The token and the hash.
  accept : String → String → UserOp
  delete : String → UserOp
  set_role : String → String → UserOp
  -- The email and the token.
  forget : String → String → ℕ → UserOp
  reset_by : String → String → UserOp

abbrev table_of : Option (UserTable × Bool) → Option UserTable
table_of none = none
table_of (some p) = some p.0

unfoldable pub perform_user : UserOp → ℕ → UserTable → Option UserTable
perform_user (invite email role token now) db_now t = create_invite email role token now db_now t
perform_user (accept token hash) db_now t = accept_invite token hash db_now t
perform_user (delete email) db_now t = delete_user email t
perform_user (set_role email role) db_now t = set_user_role email role t
perform_user (forget email token now) db_now t = table_of (create_reset_token email token now t)
perform_user (reset_by token hash) db_now t = reset_password token hash db_now t

abbrev pub ranked : String → UserRow → UserRow
ranked role r = record r { role = role }

-- The rows that a statement leaves where it succeeds.
abbrev pub rows_after : UserOp → ℕ → UserTable → List UserRow
rows_after (invite email role token now) db_now t =
    t.rows ++ invited_row email role token now db_now t.next_id ∷ []
rows_after (accept token hash) db_now t =
    update_where (is_invited token db_now) (accepted hash) t.rows
rows_after (delete email) db_now t = delete_where (is_email email) t.rows
rows_after (set_role email role) db_now t = update_where (is_email email) (ranked role) t.rows
rows_after (forget email token now) db_now t =
    update_where (is_email email) (resettable token now) t.rows
rows_after (reset_by token hash) db_now t =
    update_where (is_resetting token db_now) (reset hash) t.rows

-- An invited email is new.
abbrev pub IsNew : UserOp → UserTable → Type 0
IsNew (invite email role token now) t = any (is_email email) t.rows ≡ false
IsNew _ t = Unit {0}

insert_user-ok :
    (r : UserRow) (t : UserTable) {t' : UserTable}
    → insert_user r t ≡ some t'
    → (t'.rows ≡ t.rows ++ r ∷ []) × (any (is_email r.email) t.rows ≡ false)
unfolding insert_user
insert_user-ok r t e =
    let (free, is_t) = unguarded _ e in
    (ap (λ (t : UserTable). t.rows) (sym is_t), (or-eq-false _ _ free).0)

create_reset_token-ok :
    (email token : String) (now : ℕ) (t : UserTable) {t' : UserTable}
    → table_of (create_reset_token email token now t) ≡ some t'
    → t'.rows ≡ update_where (is_email email) (resettable token now) t.rows
unfolding create_reset_token
create_reset_token-ok email token now t {t'} e =
    elim (Option-cases (create_reset_token email token now t)) [
      | inl f ↦
          let none_made : table_of none ≡ some t' = subst (λ o. table_of o ≡ some t') f e in cc
      | inr (p, f) ↦
          let (_, is_p) = unguarded _ f in
          let made : table_of (some p) ≡ some t' = subst (λ o. table_of o ≡ some t') f e in
          sym (
            ap (λ (t : UserTable). t.rows)
              (ap (λ (p : UserTable × Bool). p.0) is_p ∙ some-injective _ _ made))
    ]

pub perform_user-ok :
    (op : UserOp) (db_now : ℕ) (t : UserTable) {t' : UserTable}
    → perform_user op db_now t ≡ some t'
    → (t'.rows ≡ rows_after op db_now t) × IsNew op t
unfolding perform_user create_invite accept_invite delete_user set_user_role reset_password
perform_user-ok (invite email role token now) db_now t e =
    insert_user-ok (invited_row email role token now db_now t.next_id) t e
perform_user-ok (accept token hash) db_now t e =
    (ap (λ (t : UserTable). t.rows) (affected _ _ t e).1, tt)
perform_user-ok (delete email) db_now t e =
    (ap (λ (t : UserTable). t.rows) (affected _ _ t e).1, tt)
perform_user-ok (set_role email role) db_now t e =
    (ap (λ (t : UserTable). t.rows) (affected _ _ t e).1, tt)
perform_user-ok (forget email token now) db_now t e =
    (create_reset_token-ok email token now t e, tt)
perform_user-ok (reset_by token hash) db_now t e =
    (ap (λ (t : UserTable). t.rows) (affected _ _ t e).1, tt)
