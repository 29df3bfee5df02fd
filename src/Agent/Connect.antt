-- ===== src/Agent/Connect.antt =====
-- internal/agent/wsclient/wsclient.go: `connectOnce` with its heartbeats, and the loop of `Run` around it.
-- A connection is what the client meets on it, in order: the ticks of the heartbeat and the reads. A
-- ticker's interval is positive: NewTicker panics at any other.
pub mod Conversation
pub mod Eventually
mod Tests
use rv_tx.Base.{ℕ, String, Bool, true, false, List, [], ◌∷◌}
use rv_tx.Base.Dict.{Dict}
use rv_tx.Protocol.{RegisterPayload, AgentMessage, register, heartbeat}
use rv_tx.Agent.{System}
use rv_tx.Agent.Client.{
  Client, Inbound, on_message, Round, done_before, done_waiting, passes, next_backoff,
  first_backoff,
}

-- A tick of the heartbeat and whether its write succeeds; a message that is read; a read that fails.
pub data Event : Type 0 where
  ticks : Bool → Event
  reads : Inbound → Event
  fails : Event

-- Whether `DialContext` succeeds, whether the first write does, and what follows.
pub record Connection : Type 0 where
  pub dialled : Bool
  pub accepts : Bool
  pub events : List Event

-- The message that opens a connection.
unfoldable pub register_payload : Client → RegisterPayload
register_payload c = record {
  name = c.name;
  public_key = c.public_key;
  port = c.listen_port;
  endpoint = c.endpoint_override;
  advertised_subnets = c.advertised_subnets;
}

module _ {K : Type 0} (sys : System K) (range : Dict (List String) → Dict (List String))
    (c : Client) where
  -- The loop of `connectOnce` beside `heartbeatLoop`, which ends at its first failed write: the messages
  -- that are written, and the machine.
  unfoldable pub serve : Bool → List Event → K → List AgentMessage × K
  serve beating [] s = ([], s)
  serve beating (fails ∷ events) s = ([], s)
  serve beating (reads m ∷ events) s =
      serve beating events (on_message sys c.iface c.private_key c.listen_port range m s)
  serve false (ticks ok ∷ events) s = serve false events s
  serve true (ticks false ∷ events) s = serve false events s
  serve true (ticks true ∷ events) s =
      let (sent, s') = serve true events s in (heartbeat ∷ sent, s')

  -- Whether the connection is made, whether the registration is written, and the rest of its life.
  abbrev pub registering : Bool → Bool → List AgentMessage × K → K → List AgentMessage × K
  registering false accepts r s = ([], s)
  registering true false r s = ([], s)
  registering true true r s = (register (register_payload c) ∷ r.0, r.1)

  -- `connectOnce`; it always returns an error, when a read fails or before.
  unfoldable pub connect_once : Connection → K → List AgentMessage × K
  connect_once conn s = registering conn.dialled conn.accepts (serve true conn.events s) s

  -- `Run`: for each connection what was written to it and the delay after it.
  unfoldable pub run_from : ℕ → List (Round × Connection) → K → List (List AgentMessage × ℕ) × K
  run_from backoff [] s = ([], s)
  run_from backoff ((done_before, conn) ∷ rounds) s = ([], s)
  run_from backoff ((done_waiting, conn) ∷ rounds) s =
      let (sent, s') = connect_once conn s in ((sent, backoff) ∷ [], s')
  run_from backoff ((passes, conn) ∷ rounds) s =
      let (sent, s') = connect_once conn s in
      let (later, s'') = run_from (next_backoff backoff) rounds s' in ((sent, backoff) ∷ later, s'')

  unfoldable pub run : List (Round × Connection) → K → List (List AgentMessage × ℕ) × K
  unfolding run_from
  run rounds s = run_from first_backoff rounds s
