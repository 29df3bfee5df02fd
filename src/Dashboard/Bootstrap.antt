-- ===== src/Dashboard/Bootstrap.antt =====
-- cmd/controlplane/main.go: bootstrapAdmin, at the start of the control plane.
use rv_tx.Base.{
  ℕ, suc, ◌≡◌, ◌≢◌, refl, String, true, not, Option, none, some, [], ◌∷◌, ltb, if◌then◌else◌, ◌==◌,
  eq_refl, eq-false_of_ne,
}
use rv_tx.Db.User.{
  UserTable, count_users, create_admin_with_password, insert_user, user_by_email, find_where,
}
use rv_tx.Dashboard.{Site, Outside}

abbrev pub with_admin : Site → Option UserTable → Option Site
with_admin site none = none
with_admin site (some t) = some (record site { users = t })

-- `bootstrapAdmin`, with the values of its environment variables; `none` ends the program: a query
-- fails, or a variable that is needed is not set.
unfoldable pub bootstrap_admin : Outside → String → String → Site → Option Site
bootstrap_admin o email hash site =
    if not o.db_up
    then none
    else (if ltb 0 (count_users site.users)
        then some site
        else (if email == ""
            then none
            else (if hash == ""
                then none
                else with_admin site (create_admin_with_password email hash o.db_now site.users))))

-- On an empty table, while the database answers and with both variables set, the account of the
-- environment is made, with the role admin and the given hash, and the next starts of the program,
-- whatever their environment, leave it alone.
pub bootstrap_admin-once :
    (o next : Outside) (site : Site) (n : ℕ) (email hash other_email other_hash : String)
    → o.db_up ≡ true
    → next.db_up ≡ true
    → email ≢ ""
    → hash ≢ ""
    → site.users ≡ record { rows = []; next_id = n }
    → (site' : Site) × (bootstrap_admin o email hash site ≡ some site')
      × (user_by_email email site'.users
          ≡ some (
            record {
              id = n;
              email = email;
              role = "admin";
              has_set_password = true;
              created_at = o.db_now;
            },
            hash,
          ))
      × (bootstrap_admin next other_email other_hash site' ≡ some site')
unfolding bootstrap_admin count_users create_admin_with_password insert_user user_by_email
    find_where
bootstrap_admin-once o next site n email hash other_email other_hash up next_up some_email some_hash
      empty =
    (
      made,
      rw (up, empty, eq-false_of_ne email "" some_email, eq-false_of_ne hash "" some_hash) refl,
      rw (eq_refl email, user_by_email) refl,
      rw next_up refl,
    )
  where
    made : Site
    made = record site {
      users = record {
        rows =
            record {
              id = n;
              email = email;
              password_hash = some hash;
              role = "admin";
              invite_token = none;
              invite_token_expires = none;
              reset_token = none;
              reset_token_expires = none;
              created_at = o.db_now;
            }
            ∷ [];
        next_id = suc n;
      };
    }
