-- ===== src/Dashboard/Start.antt =====
-- cmd/controlplane/main.go: `main` up to the server that it starts. The connection to the database, the
-- migrations directory and what its files do to the tables are arguments.
pub mod Again
pub mod Tests
use rv_tx.Base.{String, Bool, true, false, Option, none, some, List, if◌then◌else◌}
use rv_tx.Environ.{Environ, require_env, env_or}
use rv_tx.Mail
use rv_tx.Db.Migrate.{Migrated, migrate}
use rv_tx.Dashboard.{Site, Outside}
use rv_tx.Dashboard.Bootstrap.{bootstrap_admin}

-- The variables that `main` reads before the database.
pub record Settings : Type 0 where
  pub dsn : String
  pub mesh_cidr : String
  pub listen_addr : String
  pub migrations_dir : String
  pub session_secret : String
  pub base_url : String
  pub smtp : rv_tx.Mail.Config

infixl 5 ◌>>=◌
abbrev ◌>>=◌ : {A B : Type 0} → Option A → (A → Option B) → Option B
none >>= f = none
some a >>= f = f a

unfoldable pub smtp_config : Environ → rv_tx.Mail.Config
smtp_config env = record {
  server = env "RVTX_SMTP_SERVER";
  port = env_or env "RVTX_SMTP_PORT" "587";
  user = env "RVTX_SMTP_USER";
  password = env "RVTX_SMTP_PASSWORD";
  from = env "RVTX_SMTP_FROM";
}

unfoldable pub read_settings : Environ → Option Settings
read_settings env = do
  dsn ← require_env env "RVTX_POSTGRES_DSN"
  mesh_cidr ← require_env env "RVTX_MESH_CIDR"
  session_secret ← require_env env "RVTX_SESSION_SECRET"
  base_url ← require_env env "RVTX_DASHBOARD_BASE_URL"
  some (record {
    dsn = dsn;
    mesh_cidr = mesh_cidr;
    listen_addr = env_or env "RVTX_LISTEN_ADDR" ":8080";
    migrations_dir = env_or env "RVTX_MIGRATIONS_DIR" "migrations";
    session_secret = session_secret;
    base_url = base_url;
    smtp = smtp_config env;
  })

-- What the program finds: a database that answers, the directory, its files, and what their SQL does.
pub record Surroundings : Type 0 where
  pub outside : Outside
  pub connects : String → Bool
  pub directory : String → Option (List (String × Bool))
  pub read : String → Option String
  pub exec : String → Site → Option Site

-- The database, and whether the program goes on.
abbrev pub Db : Type 0
Db = Migrated Site

abbrev pub with_site : Db → Option Site → Db × Bool
with_site db none = (db, false)
with_site db (some site) = (record db { schema = site }, true)

module _ (w : Surroundings) (env : Environ) where
  -- `requireEnv` in bootstrapAdmin ends the program, as an empty value does in its model.
  unfoldable pub bootstrapped : Db × Bool → Db × Bool
  bootstrapped (db, false) = (db, false)
  bootstrapped (db, true) = with_site db (
      bootstrap_admin w.outside (env "RVTX_BOOTSTRAP_ADMIN_EMAIL")
        (env "RVTX_DASHBOARD_PASSWORD_HASH") db.schema)

  unfoldable pub prepared : Settings → Db → Db × Bool
  prepared st db =
      if w.connects st.dsn
      then bootstrapped (migrate w.read w.exec (w.directory st.migrations_dir) db)
      else (db, false)

  abbrev pub serving : Settings → Db × Bool → Db × Option Settings
  serving st (db, true) = (db, some st)
  serving st (db, false) = (db, none)

  abbrev pub configured : Db → Option Settings → Db × Option Settings
  configured db none = (db, none)
  configured db (some st) = serving st (prepared st db)

  -- `main`: the database when the server listens, and its settings; `none` is the end of the program.
  unfoldable pub start : Db → Db × Option Settings
  start db = configured db (read_settings env)
