-- ===== src/Dashboard/History.antt =====
-- cmd/controlplane/main.go: what requests keep of the tables, from the first administrator on.
use rv_tx.Base.{
  ◌≡◌, refl, sym, subst, String, Bool, true, Option, none, some, List, [], All, Distinct,
  All-append, not, ◌==◌, passed, unguarded,
}
use rv_tx.Db.Node.{NodeTable}
use rv_tx.Db.Resource.{no_resources}
use rv_tx.Db.Resource.Sound.{IsSound}
use rv_tx.Db.Resource.History.{perform-IsSound, no_resources-IsSound}
use rv_tx.Db.User.{
  UserTable, UserRow, is_email, accepted, resettable, reset, update_where, is_invited, is_resetting,
  count_users, create_admin_with_password, insert_user,
}
use rv_tx.Db.User.Rows.{
  emails, emails-update, All-update, All-delete, Distinct-delete, Distinct-new,
}
use rv_tx.Db.User.Statements.{
  UserOp, invite, accept, delete, set_role, forget, reset_by, ranked, perform_user-ok, rows_after,
  IsNew,
}
use rv_tx.Dashboard.{Site, Outside}
use rv_tx.Dashboard.Email.{valid_role}
use rv_tx.Dashboard.Bootstrap.{bootstrap_admin}
use rv_tx.Dashboard.Effects.{IsAllowed, Effect, unchanged, on_users, on_resources}
use rv_tx.Dashboard.Effects.Requests.{handle-Effect}
use rv_tx.Dashboard.Mux.{
  HttpRequest, Decoders, Target, agent_socket, health, api, routes, find_route, reply, serve_http,
}

abbrev pub HasValidRole : UserRow → Type 0
HasValidRole r = valid_role r.role ≡ true

pub record IsConsistent (site : Site) : Type 0 where
  pub emails_distinct : Distinct (emails site.users.rows)
  pub roles_valid : All HasValidRole site.users.rows
  pub resources_sound : IsSound site.resources

-- A row that keeps its email, with a role that is valid if it was.
module _ (t : UserTable) (d : Distinct (emails t.rows)) (v : All HasValidRole t.rows) where
  abbrev AreAccounts : List UserRow → Type 0
  AreAccounts rows = Distinct (emails rows) × All HasValidRole rows

  updated :
      (p : UserRow → Bool) (f : UserRow → UserRow)
      → ((r : UserRow) → (f r).email ≡ r.email)
      → ((r : UserRow) → HasValidRole r → HasValidRole (f r))
      → AreAccounts (update_where p f t.rows)
  updated p f same valid = (rw (emails-update p f t.rows same) d, All-update p f t.rows valid v)

  rows_after-AreAccounts :
      (o : Outside) (cookie : Option String) (op : UserOp)
      → IsAllowed o cookie op
      → IsNew op t
      → AreAccounts (rows_after op o.db_now t)
  rows_after-AreAccounts o cookie (invite email role token now) (admin, email_ok, role_ok, drawn)
        new =
      (Distinct-new _ t.rows d new, All-append HasValidRole t.rows v role_ok)
  rows_after-AreAccounts o cookie (accept token hash) allowed new =
      updated (is_invited token o.db_now) (accepted hash) (λ r. refl) (λ r h. h)
  rows_after-AreAccounts o cookie (delete email) allowed new =
      (Distinct-delete (is_email email) t.rows d, All-delete HasValidRole (is_email email) t.rows v)
  rows_after-AreAccounts o cookie (set_role email role) (admin, other, role_ok) new =
      updated (is_email email) (ranked role) (λ r. refl) (λ r h. role_ok)
  rows_after-AreAccounts o cookie (forget email token now) allowed new =
      updated (is_email email) (resettable token now) (λ r. refl) (λ r h. h)
  rows_after-AreAccounts o cookie (reset_by token hash) allowed new =
      updated (is_resetting token o.db_now) (reset hash) (λ r. refl) (λ r h. h)

Effect-IsConsistent :
    (o : Outside) (cookie : Option String) (site : Site) {site' : Site}
    → Effect o cookie site site'
    → IsConsistent site
    → IsConsistent site'
Effect-IsConsistent o cookie site (unchanged e) k = subst IsConsistent (sym e) k
Effect-IsConsistent o cookie site (on_users op allowed e nodes resources) k =
    let (is_rows, new) = perform_user-ok op o.db_now site.users e in
    let (distinct, valid) =
      rows_after-AreAccounts site.users k.emails_distinct k.roles_valid o cookie op allowed new in
    record {
      emails_distinct = rw is_rows distinct;
      roles_valid = rw is_rows valid;
      resources_sound = rw resources k.resources_sound;
    }
Effect-IsConsistent o cookie site (on_resources op admin e nodes users) k = record {
  emails_distinct = rw users k.emails_distinct;
  roles_valid = rw users k.roles_valid;
  resources_sound = perform-IsSound op site.nodes site.resources k.resources_sound e;
}

abbrev pub new_site : NodeTable → Site
new_site nodes = record {
  users = record { rows = []; next_id = 0 };
  nodes = nodes;
  resources = no_resources;
  mails = [];
}

module _ (d : Decoders) (exists : List String → Bool) where
  pub serve_http-IsConsistent :
      (o : Outside) (r : HttpRequest) (site : Site)
      → IsConsistent site
      → IsConsistent (serve_http o d exists r site).1
  unfolding serve_http
  serve_http-IsConsistent o r site k = at_target (find_route (routes d) r)
    where
      at_target : (t : Option Target) → IsConsistent (reply o exists r site t).1
      at_target none = k
      at_target (some agent_socket) = k
      at_target (some health) = k
      at_target (some (api req)) =
          Effect-IsConsistent o r.cookie site (handle-Effect o r.cookie site req) k

pub bootstrapped-IsConsistent :
    (o : Outside) (email hash : String) (nodes : NodeTable) {site : Site}
    → bootstrap_admin o email hash (new_site nodes) ≡ some site
    → IsConsistent site
unfolding bootstrap_admin count_users create_admin_with_password insert_user
bootstrapped-IsConsistent o email hash nodes e =
    let (_, up) = passed (not o.db_up) e in
    let (_, named) = passed (email == "") up in
    let (_, made) = unguarded (hash == "") named in
    subst IsConsistent made (record {
      emails_distinct = (tt, tt);
      roles_valid = (refl, tt);
      resources_sound = no_resources-IsSound;
    })
