-- ===== src/Dashboard/Sample.antt =====
-- A site with an administrator and a viewer, and what its requests meet, for the tests.
use rv_tx.Base.{ℕ, String, true, none, some, [], ◌∷◌}
use rv_tx.Db.Resource.{no_resources}
use rv_tx.Db.User.{UserRow}
use rv_tx.Auth.Sample.{made, tables}
use rv_tx.Dashboard.{Site, Outside}

abbrev pub account : ℕ → String → String → UserRow
account id email role = record {
  id = id;
  email = email;
  password_hash = some "pw";
  role = role;
  invite_token = none;
  invite_token_expires = none;
  reset_token = none;
  reset_token_expires = none;
  created_at = 0;
}

abbrev pub site : Site
site = record {
  users = record {
    rows = account 0 "a@b.c" "admin" ∷ account 1 "v@b.c" "viewer" ∷ [];
    next_id = 2;
  };
  nodes = record { rows = []; next_id = 0 };
  resources = no_resources;
  mails = [];
}

abbrev pub outside : Outside
outside = record {
  crypto = tables;
  secret = "secret";
  now = made;
  db_now = made;
  db_up = true;
  smtp = record { server = "mail.b.c"; port = "587"; user = ""; password = ""; from = "rv@b.c" };
  relay = λ made c. true;
  base_url = "https://dash.b.c";
  token = some "t0k3n";
  order_joined = λ rows. rows;
  order_users = λ rows. rows;
}
