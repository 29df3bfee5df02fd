-- ===== src/WsServer.antt =====
-- internal/controlplane/wsserver/wsserver.go. Every connection has a goroutine in `HandleWS`; its
-- handler is cut where it calls the database, locks `mu` or writes to a connection, so the steps of
-- several connections interleave in any order. A connection is a number that is not used again.
pub mod Invariant
pub mod Ids
pub mod Handlers
mod Tests
pub mod Register
pub mod Addresses
use Prim.Native.String.{◌++◌ as append}
use rv_tx.Base.{
  ℕ, String, Bool, true, false, Option, none, some, List, [], ◌∷◌, ◌++◌, eqb, if◌then◌else◌, ◌==◌,
}
use rv_tx.Base.Text.{itoa}
use rv_tx.Base.Dict.{insert, delete}
use rv_tx.Protocol.{
  RegisterPayload, PeerInfo, AgentMessage, register, heartbeat, malformed, unknown, ServerMessage,
  registered, peer_list,
}
use rv_tx.Db.Node.{Node, NodeTable, Upsert, used_mesh_ips, list_nodes, upsert_node, touch_last_seen}
use rv_tx.Mesh.{Alloc, allocated, allocate_ip, peer_list_for}

-- Where a goroutine stands: in `handleRegister` before `UsedMeshIPs` (with `AllocateIP`),
-- `UpsertNode`, `s.conns[p.PublicKey] = conn`, `ListNodes` and `WriteJSON`; in `handleHeartbeat`
-- before `TouchLastSeen` and `ListNodes`; before `broadcastPeerLists`; after the loop.
pub data Phase : Type 0 where
  unopened : Phase
  reading : Phase
  allocating : RegisterPayload → Phase
  upserting : RegisterPayload → String → Phase
  storing : RegisterPayload → String → Phase
  listing : RegisterPayload → String → Phase
  replying : RegisterPayload → String → List Node → Phase
  touching : Phase
  relisting : Phase
  broadcasting : List Node → Phase
  closing : Phase
  closed : Phase

-- The variables of `HandleWS`.
pub record Session : Type 0 where
  pub remote_host : String
  pub public_key : String
  pub phase : Phase

-- The nodes table, `Server.conns`, the goroutines, and what was written, the newest first.
pub record World : Type 0 where
  pub nodes : NodeTable
  pub conns : List (String × ℕ)
  pub session : ℕ → Session
  pub sent : List (ℕ × ServerMessage)

-- What a step meets: the time, whether its query works, and whether a write to a connection does.
pub record Env : Type 0 where
  pub now : ℕ
  pub db_ok : Bool
  pub write_ok : ℕ → Bool

abbrev pub update : (ℕ → Session) → ℕ → Session → ℕ → Session
update f c s d = if eqb c d then s else f d

abbrev pub goto : ℕ → Phase → World → World
goto c phase w = record w { session = update w.session c (record (w.session c) { phase = phase }) }

-- The endpoint override, or the address of the connection with the reported port.
unfoldable pub endpoint_for : String → RegisterPayload → String
endpoint_for remote_host p =
    if p.endpoint == "" then append remote_host (append ":" (itoa p.port)) else p.endpoint

abbrev pub upsert_of : String → ℕ → RegisterPayload → String → Upsert
upsert_of remote_host now p candidate_ip = record {
  name = p.name;
  public_key = p.public_key;
  mesh_ip = candidate_ip;
  endpoint = endpoint_for remote_host p;
  advertised_subnets = p.advertised_subnets;
  now = now;
}

-- `broadcastPeerLists`: one message to each stored connection; a failed write is logged.
unfoldable pub broadcast :
    (ℕ → Bool) → List Node → List (String × ℕ) → List (ℕ × ServerMessage) → List (ℕ × ServerMessage)
broadcast write_ok nodes [] sent = sent
broadcast write_ok nodes ((key, c) ∷ conns) sent =
    let message = peer_list (record { peers = peer_list_for key nodes }) in
    broadcast write_ok nodes conns (if write_ok c then (c, message) ∷ sent else sent)

-- One step of the goroutine of the connection `c`.
unfoldable pub act : String → Env → ℕ → Phase → World → World
act cidr env c unopened w = w
act cidr env c reading w = w
act cidr env c (allocating p) w =
    if env.db_ok
    then (elim (allocate_ip cidr (used_mesh_ips w.nodes)) [
      | allocated ip ↦ goto c (upserting p ip) w
      | _ ↦ goto c reading w
    ])
    else goto c reading w
act cidr env c (upserting p candidate_ip) w =
    if env.db_ok
    then (elim (upsert_node (upsert_of (w.session c).remote_host env.now p candidate_ip) w.nodes) [
      | none ↦ goto c reading w
      | some (nodes, mesh_ip) ↦ goto c (storing p mesh_ip) (record w { nodes = nodes })
    ])
    else goto c reading w
act cidr env c (storing p mesh_ip) w =
    goto c (listing p mesh_ip) (record w { conns = insert p.public_key c w.conns })
act cidr env c (listing p mesh_ip) w =
    goto c (if env.db_ok then replying p mesh_ip (list_nodes w.nodes) else reading) w
act cidr env c (replying p mesh_ip nodes) w =
    let reply =
      registered (record { mesh_ip = mesh_ip; peers = peer_list_for p.public_key nodes }) in
    if env.write_ok c
    then goto c (broadcasting nodes) (record w { sent = (c, reply) ∷ w.sent })
    else goto c reading w
act cidr env c touching w =
    if env.db_ok
    then goto c relisting
        (record w { nodes = touch_last_seen (w.session c).public_key env.now w.nodes })
    else goto c reading w
act cidr env c relisting w =
    goto c (if env.db_ok then broadcasting (list_nodes w.nodes) else reading) w
act cidr env c (broadcasting nodes) w =
    goto c reading (record w { sent = broadcast env.write_ok nodes w.conns w.sent })
act cidr env c closing w =
    if (w.session c).public_key == ""
    then goto c closed w
    else goto c closed (record w { conns = delete (w.session c).public_key w.conns })
act cidr env c closed w = w

unfoldable pub advance : String → Env → ℕ → World → World
unfolding act
advance cidr env c w = act cidr env c (w.session c).phase w

-- What `ReadJSON` yields: a message, or the error that ends the loop.
unfoldable pub on_read : ℕ → Option AgentMessage → World → World
on_read c none w = goto c closing w
on_read c (some (register p)) w = record w {
  session =
      update w.session c (record (w.session c) { public_key = p.public_key; phase = allocating p });
}
on_read c (some heartbeat) w = if (w.session c).public_key == "" then w else goto c touching w
on_read c (some malformed) w = w
on_read c (some unknown) w = w

abbrev on_phase : Phase → World → World → World
on_phase reading read w = read
on_phase _ read w = w

-- Only a goroutine at `ReadJSON` takes a message.
unfoldable pub receive : ℕ → Option AgentMessage → World → World
unfolding on_read
receive c message w = on_phase (w.session c).phase (on_read c message w) w

abbrev when_unopened : Phase → World → World → World
when_unopened unopened opened w = opened
when_unopened _ opened w = w

-- `Upgrade` and the start of `HandleWS`.
unfoldable pub open_conn : ℕ → String → World → World
open_conn c remote_host w =
    when_unopened (w.session c).phase
      (record w {
        session =
            update w.session c
              (record { remote_host = remote_host; public_key = ""; phase = reading });
      })
      w

-- What happens next, of which the scheduler and the agents choose.
pub data Event : Type 0 where
  opens : ℕ → String → Event
  reads : ℕ → Option AgentMessage → Event
  runs : ℕ → Env → Event

unfoldable pub step : String → World → Event → World
unfolding open_conn receive advance
step cidr w (opens c remote_host) = open_conn c remote_host w
step cidr w (reads c message) = receive c message w
step cidr w (runs c env) = advance cidr env c w

unfoldable pub run : String → World → List Event → World
unfolding step
run cidr w [] = w
run cidr w (e ∷ events) = run cidr (step cidr w e) events

abbrev pub idle : ℕ → Session
idle c = record { remote_host = ""; public_key = ""; phase = unopened }

-- `New` over a database that holds the nodes.
unfoldable pub start : NodeTable → World
start nodes = record { nodes = nodes; conns = []; session = idle; sent = [] }
