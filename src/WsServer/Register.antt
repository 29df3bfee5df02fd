-- ===== src/WsServer/Register.antt =====
-- The handlers of the two messages, run to their end with no other goroutine between their steps.
use rv_tx.Base.{ℕ, zero, suc, ◌≡◌, String, true, ◌∷◌}
use rv_tx.Base.Dict.{insert}
use rv_tx.Protocol.{RegisterPayload, ServerMessage, registered}
use rv_tx.Mesh.{peer_list_for}
use rv_tx.Db.Node.{Node, NodeTable, list_nodes}
use rv_tx.WsServer.{upserting, storing, listing, replying, broadcasting, World, Env, goto, advance}

-- The goroutine of `c` runs that many steps, and no other one does.
abbrev pub alone : String → Env → ℕ → ℕ → World → World
alone cidr env c zero w = w
alone cidr env c (suc n) w = alone cidr env c n (advance cidr env c w)

-- The answer to a register message.
abbrev pub reply : RegisterPayload → String → NodeTable → ServerMessage
reply p mesh_ip nodes =
    registered (record { mesh_ip = mesh_ip; peers = peer_list_for p.public_key (list_nodes nodes) })

module _ (cidr : String) (env : Env) (c : ℕ) (db : env.db_ok ≡ true) where
  module _ (w : World) (p : RegisterPayload) (candidate mesh_ip : String) (nodes : NodeTable) where
    abbrev stored : World
    stored =
        goto c (storing p mesh_ip) (record (goto c (upserting p candidate) w) { nodes = nodes })

    abbrev mapped : World
    mapped = goto c (listing p mesh_ip) (record stored { conns = insert p.public_key c w.conns })

    abbrev listed : World
    listed = goto c (replying p mesh_ip (list_nodes nodes)) mapped

    abbrev replied : World
    replied =
        goto c (broadcasting (list_nodes nodes))
          (record listed { sent = (c, reply p mesh_ip nodes) ∷ w.sent })
