-- ===== src/Agent/Client.antt =====
-- internal/agent/wsclient/wsclient.go: the delays between connections, and what a connection does with the
-- messages that it reads. Delays are nanoseconds.
use rv_tx.Base.{
  ℕ, zero, suc, ◌+◌, ◌*◌, ◌^◌, ◌≤◌, ◌≡◌, refl, String, Bool, Option, none, some, List, [], ◌∷◌, All,
  ltb, if◌then◌else◌, arith,
}
use rv_tx.Base.Dict.{Dict}
use rv_tx.Base.Text.{ℤ}
use rv_tx.Protocol.{PeerInfo, RegisteredPayload, PeerListPayload}
use rv_tx.Agent.{System, then_run, reconcile, ensure_interface}

-- The configuration of `Client`; its Manager is the name of the interface.
pub record Client : Type 0 where
  pub url : String
  pub name : String
  pub private_key : String
  pub public_key : String
  pub listen_port : ℤ
  pub heartbeat_interval : ℤ
  pub endpoint_override : String
  pub iface : String
  pub advertised_subnets : List String

abbrev pub first_backoff : ℕ
first_backoff = 2 * 1000000000

abbrev pub max_backoff : ℕ
max_backoff = 30 * 1000000000

unfoldable pub next_backoff : ℕ → ℕ
next_backoff b = let doubled = b * 2 in if ltb max_backoff doubled then max_backoff else doubled

-- What meets one round of the loop of `Run`: the context is done before the connection, or while it
-- waits after it, or the delay passes.
pub data Round : Type 0 where
  done_before : Round
  done_waiting : Round
  passes : Round

-- The delays that the loop asks for.
unfoldable pub run_delays : ℕ → List Round → List ℕ
run_delays b [] = []
run_delays b (done_before ∷ rounds) = []
run_delays b (done_waiting ∷ rounds) = b ∷ []
run_delays b (passes ∷ rounds) = b ∷ run_delays (next_backoff b) rounds

-- The delay of the n-th round.
unfoldable pub backoff_at : ℕ → ℕ
backoff_at zero = first_backoff
backoff_at (suc n) = next_backoff (backoff_at n)

-- A message of the control plane; `none` is a payload that does not decode.
pub data Inbound : Type 0 where
  registered : Option RegisteredPayload → Inbound
  peer_list : Option PeerListPayload → Inbound
  unknown : String → Inbound

module _ {K : Type 0} (sys : System K) (iface private_key : String) (listen_port : ℤ)
    (range : Dict (List String) → Dict (List String)) where
  -- `applyPeerList`
  unfoldable pub apply_peer_list : String → List PeerInfo → K → K × Bool
  apply_peer_list mesh_ip peers s =
      then_run (ensure_interface sys iface private_key mesh_ip listen_port s)
        λ s'. reconcile sys iface range peers s'

  -- One message; an error is logged.
  unfoldable pub on_message : Inbound → K → K
  on_message (registered none) s = s
  on_message (registered (some p)) s = (apply_peer_list p.mesh_ip p.peers s).0
  on_message (peer_list none) s = s
  on_message (peer_list (some p)) s = (reconcile sys iface range p.peers s).0
  on_message (unknown kind) s = s

  -- The messages of a connection, until a read fails.
  unfoldable pub read_messages : List Inbound → K → K
  read_messages [] s = s
  read_messages (m ∷ ms) s = read_messages ms (on_message m s)

-- The delays double from two seconds up to sixteen, and are thirty seconds from the fifth on.
pub backoff_at_lem :
    (n : ℕ) → backoff_at n ≡ (if ltb n 4 then 2 ^ (n + 1) * 1000000000 else 30 * 1000000000)
unfolding backoff_at next_backoff
backoff_at_lem zero = refl
backoff_at_lem (suc zero) = refl
backoff_at_lem (suc (suc zero)) = refl
backoff_at_lem (suc (suc (suc zero))) = refl
backoff_at_lem (suc (suc (suc (suc zero)))) = refl
backoff_at_lem (suc (suc (suc (suc (suc n))))) =
    let before = backoff_at_lem (suc (suc (suc (suc n)))) in ground arith

delays_from :
    (b : ℕ) (rounds : List Round)
    → 2 * 1000000000 ≤ b
    → b ≤ 30 * 1000000000
    → All (λ d. (2 * 1000000000 ≤ d) × (d ≤ 30 * 1000000000)) (run_delays b rounds)
unfolding run_delays next_backoff
delays_from b [] l h = tt
delays_from b (done_before ∷ rounds) l h = tt
delays_from b (done_waiting ∷ rounds) l h = ((l, h), tt)
delays_from b (passes ∷ rounds) l h =
    ((l, h), delays_from (next_backoff b) rounds (ground arith) (ground arith))

-- Whatever the rounds meet, every delay that the loop asks for lies between two and thirty seconds.
pub run_delays-bounded :
    (rounds : List Round)
    → All (λ d. (2 * 1000000000 ≤ d) × (d ≤ 30 * 1000000000)) (run_delays first_backoff rounds)
run_delays-bounded rounds = delays_from first_backoff rounds (omega arith) (omega arith)
