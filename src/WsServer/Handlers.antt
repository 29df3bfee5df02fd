-- ===== src/WsServer/Handlers.antt =====
-- The handlers run to their end without interruption, and what a failing query leaves.
use mathlib.Core.List.{mem-cons, mem-cons_self, mem-cons_of_mem, not-mem-nil, Mem-prop}
use mathlib.Core.Logic.Or
use rv_tx.Base.{
  ℕ, ◌≡◌, ◌≢◌, ap, inl, inr, String, Bool, true, false, List, [], ◌∷◌, arith, Mem, eqb, Bool-cases,
}
use rv_tx.Protocol.{ServerMessage, peer_list}
use rv_tx.Mesh.{peer_list_for}
use rv_tx.Db.Node.{Node}
use rv_tx.WsServer.{
  Phase, reading, allocating, upserting, listing, touching, relisting, World, Env, goto, act,
  advance, broadcast,
}

-- The phases whose next action is a query.
abbrev pub UsesDb : Phase → Type 0
UsesDb (allocating p) = Unit {0}
UsesDb (upserting p ip) = Unit {0}
UsesDb (listing p ip) = Unit {0}
UsesDb touching = Unit {0}
UsesDb relisting = Unit {0}
UsesDb _ = ⊥

-- A handler whose query fails returns to reading messages, and leaves the table, the connection
-- map, the other goroutines and the written messages as they were.
pub advance_fault :
    (cidr : String) (env : Env) (c : ℕ) (w : World)
    → env.db_ok ≡ false
    → UsesDb (w.session c).phase
    → advance cidr env c w ≡ goto c reading w
unfolding advance act
advance_fault cidr env c w lost uses = at_phase (w.session c).phase uses
  where
    at_phase : (phase : Phase) → UsesDb phase → act cidr env c phase w ≡ goto c reading w
    at_phase (allocating p) h = rw (lost, act)
    at_phase (upserting p ip) h = rw (lost, act)
    at_phase (listing p ip) h = rw (lost, act)
    at_phase touching h = rw (lost, act)
    at_phase relisting h = rw (lost, act)
    at_phase _ h = elim h [ ]

eqb_refl : (c : ℕ) → eqb c c ≡ true
eqb_refl c = ground arith

pub eqb-false_of_ne : (c d : ℕ) → c ≢ d → eqb c d ≡ false
eqb-false_of_ne c d h = ground arith

pub goto-phase : (c : ℕ) (phase : Phase) (w : World) → ((goto c phase w).session c).phase ≡ phase
goto-phase c phase w = rw (eqb_refl c)

pub goto-host :
    (c : ℕ) (phase : Phase) (w : World)
    → ((goto c phase w).session c).remote_host ≡ (w.session c).remote_host
goto-host c phase w = rw (eqb_refl c)

pub advance_at :
    (cidr : String) (env : Env) (c : ℕ) (w : World) {phase : Phase}
    → (w.session c).phase ≡ phase
    → advance cidr env c w ≡ act cidr env c phase w
unfolding advance
advance_at cidr env c w e = rw e

broadcast-keeps :
    (write_ok : ℕ → Bool) (nodes : List Node) (conns : List (String × ℕ))
    (sent : List (ℕ × ServerMessage)) (m : ℕ × ServerMessage)
    → Mem m sent
    → Mem m (broadcast write_ok nodes conns sent)
unfolding broadcast
broadcast-keeps write_ok nodes [] sent m h = h
broadcast-keeps write_ok nodes ((k, d) ∷ conns) sent m h =
    broadcast-keeps write_ok nodes conns _ m (elim (Bool-cases (write_ok d)) [
      | inl fine ↦ rw fine (mem-cons_of_mem _ h)
      | inr lost ↦ rw lost h
    ])

-- A broadcast writes to every connection of the map that accepts it the peer list of its key.
pub mem-broadcast :
    (write_ok : ℕ → Bool) (nodes : List Node) (conns : List (String × ℕ))
    (sent : List (ℕ × ServerMessage)) (key : String) (c : ℕ)
    → Mem (key, c) conns
    → write_ok c ≡ true
    → Mem
        (c, peer_list (record { peers = peer_list_for key nodes }))
        (broadcast write_ok nodes conns sent)
unfolding broadcast
mem-broadcast write_ok nodes [] sent key c m fine = absurd (not-mem-nil m)
mem-broadcast write_ok nodes ((k, d) ∷ conns) sent key c m fine =
    Or.elim Mem-prop (mem-cons.0 m)
      (λ e. broadcast-keeps write_ok nodes conns _ _ (
        let same : key ≡ k = ap (λ (q : String × ℕ). q.0) e in
        let to : c ≡ d = ap (λ (q : String × ℕ). q.1) e in rw (← same, ← to, fine) mem-cons_self))
      (λ later. mem-broadcast write_ok nodes conns _ key c later fine)
