-- ===== src/Dashboard/Down.antt =====
-- The handlers while the database does not answer.
use rv_tx.Base.{◌≤◌, ◌≡◌, Bool, true, false}
use rv_tx.Db.Resource
use rv_tx.Db.User
use rv_tx.Dashboard.{Site, Response, Request, logout, whoami}

-- The routes whose answers come from the database.
abbrev pub asks_database : Request → Bool
asks_database logout = false
asks_database whoami = false
asks_database _ = true

-- An error is answered, and the site is as before.
abbrev pub Fails : Site → Response × Site → Type 0
Fails site r = (r.1 ≡ site) × (400 ≤ r.0.status)
