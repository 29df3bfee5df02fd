-- ===== src/Db/User.antt =====
-- internal/controlplane/db/users.go: the users table of migrations/0006_users.sql and its queries. `none`
-- is a query's error. A call that reads the program's clock takes it as `now`; the database's now() is
-- `db_now`; times are nanoseconds.
pub mod Tokens
pub mod Rows
pub mod Statements
pub mod Tests
use mathlib.Core.Option
use rv_tx.Base.{
  ℕ, suc, ◌+◌, ◌*◌, String, Bool, true, false, ◌&&◌, ◌||◌, Option, none, some, List, [], ◌∷◌, ◌++◌,
  map, any, length, ltb, if◌then◌else◌, ◌==◌,
}

abbrev pub hour : ℕ
hour = 3600 * 1000000000

abbrev pub invite_ttl : ℕ
invite_ttl = 7 * 24 * hour

abbrev pub reset_ttl : ℕ
reset_ttl = 1 * hour

-- A row of `users`; the generated `id` is the number of the insertion.
pub record UserRow : Type 0 where
  pub id : ℕ
  pub email : String
  pub password_hash : Option String
  pub role : String
  pub invite_token : Option String
  pub invite_token_expires : Option ℕ
  pub reset_token : Option String
  pub reset_token_expires : Option ℕ
  pub created_at : ℕ

pub record UserTable : Type 0 where
  pub rows : List UserRow
  pub next_id : ℕ

pub record User : Type 0 where
  pub id : ℕ
  pub email : String
  pub role : String
  pub has_set_password : Bool
  pub created_at : ℕ

abbrev pub is_set {ℓ} : {A : Type ℓ} → Option A → Bool
is_set none = false
is_set (some a) = true

-- The columns that the queries select.
abbrev pub selected : UserRow → User
selected r = record {
  id = r.id;
  email = r.email;
  role = r.role;
  has_set_password = is_set r.password_hash;
  created_at = r.created_at;
}

-- A nullable column equals a text, and a time to come.
abbrev pub holds : Option String → String → Bool
holds none s = false
holds (some t) s = t == s

abbrev pub is_after : Option ℕ → ℕ → Bool
is_after none now = false
is_after (some e) now = ltb now e

abbrev pub is_invited : String → ℕ → UserRow → Bool
is_invited token db_now r = holds r.invite_token token && is_after r.invite_token_expires db_now

abbrev pub is_resetting : String → ℕ → UserRow → Bool
is_resetting token db_now r = holds r.reset_token token && is_after r.reset_token_expires db_now

abbrev pub is_email : String → UserRow → Bool
is_email email r = r.email == email

-- SELECT of one row, UPDATE and DELETE with a condition.
unfoldable pub find_where : (UserRow → Bool) → List UserRow → Option UserRow
find_where p [] = none
find_where p (r ∷ rows) = if p r then some r else find_where p rows

unfoldable pub update_where : (UserRow → Bool) → (UserRow → UserRow) → List UserRow → List UserRow
update_where p f [] = []
update_where p f (r ∷ rows) = (if p r then f r else r) ∷ update_where p f rows

unfoldable pub delete_where : (UserRow → Bool) → List UserRow → List UserRow
delete_where p [] = []
delete_where p (r ∷ rows) = let rest = delete_where p rows in if p r then rest else r ∷ rest

-- An INSERT: `email` and the tokens are unique, and a row that is inserted has no reset token.
unfoldable pub insert_user : UserRow → UserTable → Option UserTable
insert_user r t =
    if any (is_email r.email) t.rows || (elim r.invite_token [
      | none ↦ false
      | some token ↦ any (λ (q : UserRow). holds q.invite_token token) t.rows
    ])
    then none
    else some (record { rows = t.rows ++ r ∷ []; next_id = suc t.next_id })

abbrev pub invited_row : String → String → String → ℕ → ℕ → ℕ → UserRow
invited_row email role token now db_now id = record {
  id = id;
  email = email;
  password_hash = none;
  role = role;
  invite_token = some token;
  invite_token_expires = some (now + invite_ttl);
  reset_token = none;
  reset_token_expires = none;
  created_at = db_now;
}

-- `CreateInvite`
unfoldable pub create_invite : String → String → String → ℕ → ℕ → UserTable → Option UserTable
create_invite email role token now db_now t =
    insert_user (invited_row email role token now db_now t.next_id) t

-- `UserByInviteToken`; `none` is its false.
unfoldable pub user_by_invite_token : String → ℕ → UserTable → Option User
user_by_invite_token token db_now t =
    Option.map selected (find_where (is_invited token db_now) t.rows)

-- An UPDATE or DELETE that must affect a row.
abbrev pub affecting : Bool → List UserRow → UserTable → Option UserTable
affecting some_row rows t = if some_row then some (record t { rows = rows }) else none

abbrev pub accepted : String → UserRow → UserRow
accepted hash r = record r {
  password_hash = some hash;
  invite_token = none;
  invite_token_expires = none;
}

-- `AcceptInvite`
unfoldable pub accept_invite : String → String → ℕ → UserTable → Option UserTable
accept_invite token hash db_now t =
    let p = is_invited token db_now in
    affecting (any p t.rows) (update_where p (accepted hash) t.rows) t

-- `UserByEmail`: the user and the hash, which is empty while no password is set.
unfoldable pub user_by_email : String → UserTable → Option (User × String)
user_by_email email t = elim (find_where (is_email email) t.rows) [
  | none ↦ none
  | some r ↦ some (selected r, Option.get_or r.password_hash "")
]

-- `ListUsers`; the order of the rows (ORDER BY created_at DESC) is an argument.
unfoldable pub list_users : (List UserRow → List UserRow) → UserTable → List User
list_users order_by t = map selected (order_by t.rows)

-- `DeleteUser`
unfoldable pub delete_user : String → UserTable → Option UserTable
delete_user email t =
    affecting (any (is_email email) t.rows) (delete_where (is_email email) t.rows) t

-- `SetUserRole`
unfoldable pub set_user_role : String → String → UserTable → Option UserTable
set_user_role email role t =
    affecting (any (is_email email) t.rows)
      (update_where (is_email email) (λ (r : UserRow). record r { role = role }) t.rows) t

abbrev pub resettable : String → ℕ → UserRow → UserRow
resettable token now r = record r {
  reset_token = some token;
  reset_token_expires = some (now + reset_ttl);
}

-- `CreateResetToken`: refused where another row has the token, else whether the email is known.
unfoldable pub create_reset_token : String → String → ℕ → UserTable → Option (UserTable × Bool)
create_reset_token email token now t =
    let known = any (is_email email) t.rows in
    let taken =
      any (λ (r : UserRow). if is_email email r then false else holds r.reset_token token) t.rows in
    if known && taken
    then none
    else some
        (record t { rows = update_where (is_email email) (resettable token now) t.rows }, known)

abbrev pub reset : String → UserRow → UserRow
reset hash r = record r {
  password_hash = some hash;
  reset_token = none;
  reset_token_expires = none;
}

-- `ResetPassword`
unfoldable pub reset_password : String → String → ℕ → UserTable → Option UserTable
reset_password token hash db_now t =
    let p = is_resetting token db_now in
    affecting (any p t.rows) (update_where p (reset hash) t.rows) t

-- `CountUsers`
unfoldable pub count_users : UserTable → ℕ
count_users t = length t.rows

-- `CreateAdminWithPassword`
unfoldable pub create_admin_with_password : String → String → ℕ → UserTable → Option UserTable
create_admin_with_password email hash db_now t =
    insert_user
      (record {
        id = t.next_id;
        email = email;
        password_hash = some hash;
        role = "admin";
        invite_token = none;
        invite_token_expires = none;
        reset_token = none;
        reset_token_expires = none;
        created_at = db_now;
      })
      t
