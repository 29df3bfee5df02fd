-- ===== src/WsServer/Addresses.antt =====
-- Addresses over whole histories of the server.
use rv_tx.Base.{
  ℕ, ◌≡◌, inl, inr, String, Option, none, some, List, [], ◌∷◌, arith, All, Bool-cases, Option-cases,
}
use rv_tx.Protocol.{RegisterPayload, AgentMessage, register, heartbeat}
use rv_tx.Mesh.Outcome.{IsHost}
use rv_tx.Db.Node.{NodeTable, Upsert, upsert_node}
use rv_tx.Db.Node.Unique.{IsUnique, ips}
use rv_tx.Db.Node.Address.{address_of, address_inj, upsert-keeps_address, touch-keeps_address}
use rv_tx.WsServer.Invariant.{Inv}
use rv_tx.WsServer.Invariant.Steps.{run-Inv}
use rv_tx.WsServer.{
  Phase, unopened, reading, allocating, upserting, touching, World, Env, update, upsert_of, act,
  advance, on_read, on_phase, when_unopened, receive, open_conn, Event, opens, reads, runs, step,
  run, start,
}

pub start-Inv :
    (cidr : String) (nodes : NodeTable)
    → IsUnique nodes.rows
    → All (IsHost cidr) (ips nodes.rows)
    → Inv cidr (start nodes)
unfolding start
start-Inv cidr nodes u h = record { unique = u; hosts = h; phases = λ c. tt; replies = tt }

-- From a table with unique names, keys and addresses, all of them hosts of the mesh network,
-- every interleaving of connections, messages, failing queries and failing writes leads to such a
-- table; every candidate and every address to be stored or replied is a host of the network, and
-- every address replied so far is stored under some name.
pub run-start-Inv :
    (cidr : String) (nodes : NodeTable) (events : List Event)
    → IsUnique nodes.rows
    → All (IsHost cidr) (ips nodes.rows)
    → Inv cidr (run cidr (start nodes) events)
run-start-Inv cidr nodes events u h = run-Inv cidr (start nodes) events (start-Inv cidr nodes u h)

-- From a table with unique names, keys and addresses, all of them hosts of the mesh network, no
-- interleaving gives one mesh address to two names.
pub run-address_inj :
    (cidr : String) (nodes : NodeTable) (events : List Event) (a b ip : String)
    → IsUnique nodes.rows
    → All (IsHost cidr) (ips nodes.rows)
    → address_of a (run cidr (start nodes) events).nodes ≡ some ip
    → address_of b (run cidr (start nodes) events).nodes ≡ some ip
    → a ≡ b
run-address_inj cidr nodes events a b ip u h =
    address_inj a b ip (run cidr (start nodes) events).nodes
      (run-start-Inv cidr nodes events u h).unique

module _ (cidr name ip : String) where
  abbrev Known : World → Type 0
  Known w = address_of name w.nodes ≡ some ip

  upserting-Known :
      (env : Env) (c : ℕ) (p : RegisterPayload) (candidate : String) (w : World)
      → Known w
      → Known (act cidr env c (upserting p candidate) w)
  unfolding act
  upserting-Known env c p candidate w k = elim (Bool-cases env.db_ok) [
    | inr lost ↦ rw lost k
    | inl fine ↦ rw fine (elim (Option-cases (upsert_node u w.nodes)) [
      | inl refused ↦ rw refused k
      | inr ((t', mesh_ip), e) ↦ rw e (upsert-keeps_address name u w.nodes k e)
    ])
  ]
    where
      u : Upsert
      u = upsert_of (w.session c).remote_host env.now p candidate

  act-Known :
      (env : Env) (c : ℕ) (phase : Phase) (w : World) → Known w → Known (act cidr env c phase w)
  unfolding act
  act-Known env c (allocating p) w k = ground arith
  act-Known env c (upserting p candidate) w k = upserting-Known env c p candidate w k
  act-Known env c touching w k =
      ground (arith, touch-keeps_address name (w.session c).public_key env.now w.nodes)
  act-Known env c _ w k = ground arith

  on_read-Known : (c : ℕ) (m : Option AgentMessage) (w : World) → Known w → Known (on_read c m w)
  unfolding on_read
  on_read-Known c none w k = k
  on_read-Known c (some (register p)) w k = k
  on_read-Known c (some heartbeat) w k = ground arith
  on_read-Known c (some _) w k = k

  receive-Known : (c : ℕ) (m : Option AgentMessage) (w : World) → Known w → Known (receive c m w)
  unfolding receive
  receive-Known c m w k = dispatched (w.session c).phase
    where
      dispatched : (phase : Phase) → Known (on_phase phase (on_read c m w) w)
      dispatched reading = on_read-Known c m w k
      dispatched _ = k

  open_conn-Known : (c : ℕ) (host : String) (w : World) → Known w → Known (open_conn c host w)
  unfolding open_conn
  open_conn-Known c host w k = dispatched (w.session c).phase
    where
      opened : World
      opened = record w {
        session =
            update w.session c (record { remote_host = host; public_key = ""; phase = reading });
      }

      dispatched : (phase : Phase) → Known (when_unopened phase opened w)
      dispatched unopened = k
      dispatched _ = k

  step-Known : (w : World) (e : Event) → Known w → Known (step cidr w e)
  unfolding step advance
  step-Known w (opens c host) k = open_conn-Known c host w k
  step-Known w (reads c m) k = receive-Known c m w k
  step-Known w (runs c env) k = act-Known env c (w.session c).phase w k

  -- Once a name has a mesh address in the table, no sequence of events takes it away or changes
  -- it.
  pub run-keeps_address :
      (w : World) (events : List Event)
      → address_of name w.nodes ≡ some ip
      → address_of name (run cidr w events).nodes ≡ some ip
  unfolding run
  run-keeps_address w [] k = k
  run-keeps_address w (e ∷ events) k = run-keeps_address (step cidr w e) events (step-Known w e k)
