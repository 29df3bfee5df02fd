-- ===== src/Agent/Connect/Eventually.antt =====
-- The client registers as soon as a connection can be made, and how long it has waited by then.
use mathlib.Core.List.{map}
use rv_tx.Base.{
  ℕ, zero, suc, ◌+◌, ◌*◌, ◌≤◌, ◌≡◌, refl, String, true, Option, none, some, List, [], ◌∷◌, ◌++◌,
  length, arith,
}
use rv_tx.Base.Dict.{Dict}
use rv_tx.Protocol.{AgentMessage, register}
use rv_tx.Agent.{System}
use rv_tx.Agent.Client.{Client, Round, passes, next_backoff, first_backoff, max_backoff}
use rv_tx.Agent.Connect.{Connection, register_payload, serve, connect_once, run_from, run}

abbrev pub Attempt : Type 0
Attempt = List AgentMessage × ℕ

abbrev pub get_elem? : List Attempt → ℕ → Option Attempt
get_elem? [] i = none
get_elem? (a ∷ attempts) zero = some a
get_elem? (a ∷ attempts) (suc i) = get_elem? attempts i

-- The delays after the first attempts, added up.
abbrev pub waited : ℕ → List Attempt → ℕ
waited zero attempts = 0
waited (suc n) [] = 0
waited (suc n) (a ∷ attempts) = a.1 + waited n attempts

abbrev pub on_time : List Connection → List (Round × Connection)
on_time = map (λ (conn : Connection). (passes, conn))

module _ {K : Type 0} (sys : System K) (range : Dict (List String) → Dict (List String))
    (c : Client) where
  opens :
      (conn : Connection) (s : K)
      → conn.dialled ≡ true
      → conn.accepts ≡ true
      → (rest : List AgentMessage) × ((connect_once sys range c conn s).0
          ≡ register (register_payload c) ∷ rest)
  unfolding connect_once
  opens conn s up fine = ((serve sys range c true conn.events s).0, rw (up, fine) refl)

  -- The n-th attempt, and the delays before it.
  abbrev pub Registers : ℕ → ℕ → List Attempt → Type 0
  Registers n bound attempts =
      (rest : List AgentMessage) × (delay : ℕ) × (get_elem? attempts n
        ≡ some (register (register_payload c) ∷ rest, delay))
      × (waited n attempts ≤ bound)

  next_small : (backoff : ℕ) → next_backoff backoff ≤ max_backoff
  unfolding next_backoff
  next_small backoff = ground arith

  Registers-from :
      (backoff : ℕ) (before : List Connection) (conn : Connection)
      (later : List (Round × Connection)) (s : K)
      → backoff ≤ max_backoff
      → conn.dialled ≡ true
      → conn.accepts ≡ true
      → Registers
          (length before)
          (length before * max_backoff)
          (run_from sys range c backoff (on_time before ++ (passes, conn) ∷ later) s).0
  unfolding run_from
  Registers-from backoff [] conn later s small up fine =
      let (rest, e) = opens conn s up fine in (rest, backoff, rw e refl, omega arith)
  Registers-from backoff (b ∷ before) conn later s small up fine =
      let (rest, delay, e, short) =
        Registers-from (next_backoff backoff) before conn later (connect_once sys range c b s).1
          (next_small backoff) up fine in
      (rest, delay, e, omega arith)

  -- However many connections break or cannot be made, while the context is not done the client goes on:
  -- the first connection on which it can write opens with the client's registration, after delays of
  -- at most thirty seconds for each attempt before it.
  pub run-Registers :
      (before : List Connection) (conn : Connection) (later : List (Round × Connection)) (s : K)
      → conn.dialled ≡ true
      → conn.accepts ≡ true
      → Registers
          (length before)
          (length before * (30 * 1000000000))
          (run sys range c (on_time before ++ (passes, conn) ∷ later) s).0
  unfolding run
  run-Registers before conn later s up fine =
      Registers-from first_backoff before conn later s (omega arith) up fine
