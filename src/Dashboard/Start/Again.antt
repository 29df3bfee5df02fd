-- ===== src/Dashboard/Start/Again.antt =====
-- What holds when the server listens, and a restart.
use rv_tx.Base.{
  passed, suc, ◌<◌, ◌≡◌, refl, sym, ap, ◌∙◌, String, Bool, true, false, not, Option, none, some,
  List, [], ◌∷◌, ◌++◌, inl, inr, arith, Bool-cases, subst, unguarded, All, contains, length, ltb,
  ◌==◌,
}
use mathlib.Core.Option.{some-injective}
use rv_tx.Environ.{Environ}
use rv_tx.Db.Migrate.{migrate}
use rv_tx.Db.Migrate.Once.{files_of, migrate-settled, migrate-applies}
use rv_tx.Db.User.{UserRow, UserTable, count_users, create_admin_with_password, insert_user}
use rv_tx.Dashboard.{Site, Outside}
use rv_tx.Dashboard.Bootstrap.{with_admin, bootstrap_admin}
use rv_tx.Dashboard.Start.{
  Settings, Surroundings, Db, with_site, bootstrapped, prepared, serving, configured, start,
  read_settings,
}

length-snoc : (rows : List UserRow) (r : UserRow) → length (rows ++ r ∷ []) ≡ suc (length rows)
length-snoc [] r = refl
length-snoc (q ∷ rows) r = ap suc (length-snoc rows r)

inserted_some :
    (r : UserRow) (t : UserTable) {t' : UserTable} → insert_user r t ≡ some t' → 0 < count_users t'
unfolding insert_user count_users
inserted_some r t e =
    let (_, same) = unguarded _ e in
    let longer = length-snoc t.rows r in
    subst (λ (t' : UserTable). 0 < length t'.rows) same (ground arith)

admin_some :
    (site : Site) (t : Option UserTable) {site' : Site}
    → ((u : UserTable) → t ≡ some u → 0 < count_users u)
    → with_admin site t ≡ some site'
    → 0 < count_users site'.users
admin_some site none h e = cc
admin_some site (some t) h e =
    subst (λ (s : Site). 0 < count_users s.users) (some-injective _ _ e) (h t refl)

bootstrap_some :
    (o : Outside) (email hash : String) (site : Site) {site' : Site}
    → bootstrap_admin o email hash site ≡ some site'
    → 0 < count_users site'.users
unfolding bootstrap_admin create_admin_with_password
bootstrap_some o email hash site e =
    let (_, e1) = passed (not o.db_up) e in
    elim (Bool-cases (ltb 0 (count_users site.users))) [
      | inl users ↦
          let is_site = some-injective _ _ (rw (users) at e1) in
          subst (λ (s : Site). 0 < count_users s.users) is_site (ground arith)
      | inr empty ↦
          let (_, e2) = passed (email == "") (rw (empty) at e1) in
          let (_, e3) = passed (hash == "") e2 in
          admin_some site (create_admin_with_password email hash o.db_now site.users)
            (λ u made. inserted_some _ site.users made) e3
    ]

bootstrap_later :
    (o : Outside) (email hash : String) (site : Site)
    → o.db_up ≡ true
    → 0 < count_users site.users
    → bootstrap_admin o email hash site ≡ some site
unfolding bootstrap_admin
bootstrap_later o email hash site up some_user = rw up (ground arith)

module _ (w : Surroundings) (env : Environ) where
  -- A database that is ready: every migration is recorded, and there is an account.
  abbrev pub IsReady : Option (List (String × Bool)) → Db → Type 0
  IsReady entries db =
      All (λ name. contains db.applied name ≡ true) (files_of entries)
      × (0 < count_users db.schema.users)

  seeded :
      (db : Db) (site : Option Site) {db' : Db}
      → with_site db site ≡ (db', true)
      → (s : Site) × (site ≡ some s) × (db' ≡ record db { schema = s })
  seeded db none e = cc
  seeded db (some s) e = (s, refl, sym (ap (λ (r : Db × Bool). r.0) e))

  -- How the preparation succeeds.
  Prepared : Option (List (String × Bool)) → Db → Db → Type 0
  Prepared entries db db' =
      (m : Db) × (migrate w.read w.exec entries db ≡ (m, true))
      × ((s : Site) × (db' ≡ record m { schema = s }) × (0 < count_users s.users))

  bootstrapped-ok :
      (entries : Option (List (String × Bool))) (db : Db) (r : Db × Bool) {db' : Db}
      → migrate w.read w.exec entries db ≡ r
      → bootstrapped w env r ≡ (db', true)
      → Prepared entries db db'
  unfolding bootstrapped Prepared
  bootstrapped-ok entries db (m, false) migrated e = cc
  bootstrapped-ok entries db (m, true) migrated e =
      let (s, made, is_db) = seeded m _ e in
      (m, migrated, (s, is_db, bootstrap_some w.outside _ _ m.schema made))

  prepared-ok :
      (st : Settings) (db : Db) {db' : Db}
      → prepared w env st db ≡ (db', true)
      → Prepared (w.directory st.migrations_dir) db db'
  unfolding prepared
  prepared-ok st db e = elim (Bool-cases (w.connects st.dsn)) [
    | inl up ↦ bootstrapped-ok (w.directory st.migrations_dir) db _ refl (rw (up, prepared) at e)
    | inr down ↦ let e' = rw (down, prepared) at e in cc
  ]

  served :
      (st' : Settings) (r : Db × Bool) {db' : Db} {st : Settings}
      → serving w env st' r ≡ (db', some st)
      → (st' ≡ st) × (r ≡ (db', true))
  served st' (db, true) e =
      let stays = ap (λ (q : Db × Option Settings). q.0) e in
      (some-injective _ _ (ap (λ (q : Db × Option Settings). q.1) e), λ i. (stays i, true))
  served st' (db, false) e = cc

  start-ok :
      (db : Db) {db' : Db} {st : Settings}
      → start w env db ≡ (db', some st)
      → (read_settings env ≡ some st) × Prepared (w.directory st.migrations_dir) db db'
  unfolding start
  start-ok db {db'} {st} e = at_settings (read_settings env) refl e
    where
      at_settings :
          (s : Option Settings)
          → read_settings env ≡ s
          → configured w env db s ≡ (db', some st)
          → (read_settings env ≡ some st) × Prepared (w.directory st.migrations_dir) db db'
      at_settings none is_read e = cc
      at_settings (some st') is_read e =
          let (same, r) = served st' (prepared w env st' db) e in
          (
            is_read ∙ ap some same,
            subst (λ (s : Settings). Prepared (w.directory s.migrations_dir) db db') same
                (prepared-ok st' db r),
          )

-- Once the server listens, every migration of the directory is recorded and there is an account; and a
-- restart on what it left, with the same environment, names in the directory, and a database that
-- answers, listens with the same settings and changes nothing.
pub start-again :
    (w later : Surroundings) (env : Environ) (db : Db) {db' : Db} {st : Settings}
    → start w env db ≡ (db', some st)
    → later.outside.db_up ≡ true
    → later.connects st.dsn ≡ true
    → later.directory st.migrations_dir ≡ w.directory st.migrations_dir
    → IsReady w env (w.directory st.migrations_dir) db' × (start later env db' ≡ (db', some st))
unfolding start prepared bootstrapped Prepared
start-again w later env db {db'} {st} e up connects same_files =
    let (is_read, (m, migrated, (s, is_db, some_user))) = start-ok w env db e in
    let entries = w.directory st.migrations_dir in
    let applied = migrate-applies w.read w.exec entries db migrated in
    let settled = migrate-settled w.read later.read w.exec later.exec entries db migrated s in
    let kept =
      bootstrap_later later.outside (env "RVTX_BOOTSTRAP_ADMIN_EMAIL")
        (env "RVTX_DASHBOARD_PASSWORD_HASH") s up some_user in
    rw is_db (
      (applied, some_user),
      rw (is_read) (rw (connects, prepared) (rw (same_files) (rw settled (rw kept refl)))),
    )
