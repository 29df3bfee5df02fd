-- ===== src/Agent/Connect/Conversation.antt =====
-- What the client says on a connection, and what the connection does to the machine.
use rv_tx.Base.{◌≡◌, refl, String, Bool, true, false, List, [], ◌∷◌, All}
use rv_tx.Base.Dict.{Dict}
use rv_tx.Protocol.{AgentMessage, register, heartbeat}
use rv_tx.Agent.{System}
use rv_tx.Agent.Client.{Client, Inbound, read_messages}
use rv_tx.Agent.Connect.{
  Event, ticks, reads, fails, Connection, register_payload, serve, registering, connect_once,
}

-- The messages that are read before the first read that fails.
abbrev pub received : List Event → List Inbound
received [] = []
received (fails ∷ events) = []
received (reads m ∷ events) = m ∷ received events
received (ticks ok ∷ events) = received events

-- Nothing, or the registration of the client and then heartbeats.
abbrev pub IsConversation : Client → List AgentMessage → Type 0
IsConversation c [] = Unit {0}
IsConversation c (m ∷ ms) =
    (m ≡ register (register_payload c)) × All (λ (b : AgentMessage). b ≡ heartbeat) ms

module _ {K : Type 0} (sys : System K) (range : Dict (List String) → Dict (List String))
    (c : Client) where
  serve-beats :
      (beating : Bool) (events : List Event) (s : K)
      → All (λ (b : AgentMessage). b ≡ heartbeat) (serve sys range c beating events s).0
  unfolding serve
  serve-beats beating [] s = tt
  serve-beats beating (fails ∷ events) s = tt
  serve-beats beating (reads m ∷ events) s = serve-beats beating events _
  serve-beats false (ticks ok ∷ events) s = serve-beats false events s
  serve-beats true (ticks false ∷ events) s = serve-beats false events s
  serve-beats true (ticks true ∷ events) s = (refl, serve-beats true events s)

  serve-state :
      (beating : Bool) (events : List Event) (s : K)
      → (serve sys range c beating events s).1
        ≡ read_messages sys c.iface c.private_key c.listen_port range (received events) s
  unfolding serve read_messages
  serve-state beating [] s = refl
  serve-state beating (fails ∷ events) s = refl
  serve-state beating (reads m ∷ events) s = serve-state beating events _
  serve-state false (ticks ok ∷ events) s = serve-state false events s
  serve-state true (ticks false ∷ events) s = serve-state false events s
  serve-state true (ticks true ∷ events) s = serve-state true events s

  read_nothing : {s : K} → s ≡ read_messages sys c.iface c.private_key c.listen_port range [] s
  unfolding read_messages
  read_nothing = refl

  -- The messages that act on the machine: none where the registration was not written.
  abbrev pub obeyed : Bool → Bool → List Event → List Inbound
  obeyed false accepts events = []
  obeyed true false events = []
  obeyed true true events = received events

  -- On every connection the client writes nothing or its registration first and then only heartbeats, and
  -- the machine is changed as by the messages alone, in the order in which they are read, up to the first
  -- read that fails: the heartbeats do not act on it, whether they are written or not.
  pub connect_once-IsConversation :
      (conn : Connection) (s : K)
      → IsConversation c (connect_once sys range c conn s).0
        × ((connect_once sys range c conn s).1
            ≡ read_messages sys c.iface c.private_key c.listen_port range
                (obeyed conn.dialled conn.accepts conn.events)
                s)
  unfolding connect_once
  connect_once-IsConversation conn s = at conn.dialled conn.accepts
    where
      at :
          (dialled accepts : Bool)
          → IsConversation c
              (registering sys range c dialled accepts (serve sys range c true conn.events s) s).0
            × ((registering sys range c dialled accepts (serve sys range c true conn.events s) s).1
                ≡ read_messages sys c.iface c.private_key c.listen_port range
                    (obeyed dialled accepts conn.events)
                    s)
      at false accepts = (tt, read_nothing)
      at true false = (tt, read_nothing)
      at true true = ((refl, serve-beats true conn.events s), serve-state true conn.events s)
