-- ===== src/Dashboard/Start/Tests.antt =====
-- The first start of a control plane on an empty database, and a restart.
use rv_tx.Base.{◌≡◌, refl, String, false, none, some, List, [], ◌∷◌, contains, if◌then◌else◌, ◌==◌}
use rv_tx.Environ.{Environ, require_env, env_or}
use rv_tx.Db.Resource.{no_resources}
use rv_tx.Db.Migrate.{
  migrate, apply_files, apply_file, sort_strings, insert_sorted, sql_files, extension,
}
use rv_tx.Db.User.{UserRow, count_users, create_admin_with_password, insert_user}
use rv_tx.Dashboard.Sample.{outside}
use rv_tx.Dashboard.Bootstrap.{bootstrap_admin}
use rv_tx.Dashboard.Start.{
  Settings, Surroundings, Db, start, read_settings, smtp_config, prepared, bootstrapped,
}
use rv_tx.Dashboard.Start.Again.{IsReady, start-again}

abbrev value_of : List (String × String) → Environ
value_of [] key = ""
value_of ((name, value) ∷ rest) key = if name == key then value else value_of rest key

abbrev env : Environ
env = value_of (
    ("RVTX_POSTGRES_DSN", "postgres://rv")
    ∷ ("RVTX_MESH_CIDR", "10.8.0.0/24")
    ∷ ("RVTX_SESSION_SECRET", "secret")
    ∷ ("RVTX_DASHBOARD_BASE_URL", "https://dash.b.c")
    ∷ ("RVTX_BOOTSTRAP_ADMIN_EMAIL", "a@b.c")
    ∷ ("RVTX_DASHBOARD_PASSWORD_HASH", "h4sh")
    ∷ [])

abbrev world : Surroundings
world = record {
  outside = outside;
  connects = λ dsn. dsn == "postgres://rv";
  directory = λ dir. some (("0001_nodes.sql", false) ∷ ("README.md", false) ∷ []);
  read = λ name. some "create table";
  exec = λ sql site. some site;
}

abbrev empty : Db
empty = record {
  applied = [];
  schema = record {
    users = record { rows = []; next_id = 0 };
    nodes = record { rows = []; next_id = 0 };
    resources = no_resources;
    mails = [];
  };
}

abbrev admin : UserRow
admin = record {
  id = 0;
  email = "a@b.c";
  password_hash = some "h4sh";
  role = "admin";
  invite_token = none;
  invite_token_expires = none;
  reset_token = none;
  reset_token_expires = none;
  created_at = outside.db_now;
}

abbrev ready : Db
ready = record {
  applied = "0001_nodes.sql" ∷ [];
  schema = record empty.schema { users = record { rows = admin ∷ []; next_id = 1 } };
}

abbrev settings : Settings
settings = record {
  dsn = "postgres://rv";
  mesh_cidr = "10.8.0.0/24";
  listen_addr = ":8080";
  migrations_dir = "migrations";
  session_secret = "secret";
  base_url = "https://dash.b.c";
  smtp = record { server = ""; port = "587"; user = ""; password = ""; from = "" };
}

first_start : start world env empty ≡ (ready, some settings)
unfolding start read_settings smtp_config prepared bootstrapped require_env env_or migrate
    apply_files apply_file sort_strings insert_sorted sql_files extension contains bootstrap_admin
    count_users create_admin_with_password insert_user
first_start = refl

-- Without a secret the program ends before it opens the database.
no_secret :
    start world (λ key. if key == "RVTX_SESSION_SECRET" then "" else env key) empty ≡ (empty, none)
unfolding start read_settings require_env
no_secret = refl

start-again_example :
    IsReady world env (some (("0001_nodes.sql", false) ∷ ("README.md", false) ∷ [])) ready
    × (start world env ready ≡ (ready, some settings))
start-again_example = start-again world world env empty first_start refl refl refl
