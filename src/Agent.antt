-- ===== src/Agent.antt =====
-- internal/agent/wgmanager/wgmanager.go: the WireGuard interface of a node, kept by the commands `wg` and
-- `ip`. The machine is a System: what a command does to it, and what a command prints.
pub mod Output
pub mod Shown
pub mod Peers
pub mod Routes
pub mod Client
pub mod Main
pub mod Connect
pub mod Converge
pub mod Sample
pub mod Tests
use Prim.Native.String.{◌++◌ as append}
use rv_tx.Base.{
  ℕ, String, Bool, true, false, not, ◌&&◌, Option, none, some, List, [], ◌∷◌, ◌++◌, any,
  if◌then◌else◌, ◌==◌,
}
use rv_tx.Base.Dict.{Dict}
use rv_tx.Base.Text.{ℤ, itoa}
use rv_tx.Protocol.{PeerInfo}
use rv_tx.Base.Trim.{trim_space}
use rv_tx.Agent.Output.{contains_text, parse_peers}

-- The state after a command and whether it succeeded; a command's output and whether it succeeded.
pub record System (K : Type 0) : Type 0 where
  pub run : List String → K → K × Bool
  pub run_with_stdin : String → List String → K → K × Bool
  pub output : List String → K → String × Bool

-- `if err := ...; err != nil { return err }`
abbrev pub then_run {ℓ} : {K : Type ℓ} → K × Bool → (K → K × Bool) → K × Bool
then_run (s, true) next = next s
then_run (s, false) next = (s, false)

-- `strings.Join(parts, ",")`
unfoldable pub join_comma : List String → String
join_comma [] = ""
join_comma (x ∷ xs) = elim xs [ [] ↦ x | y ∷ ys ↦ append x (append "," (join_comma xs)) ]

-- `Manager.Interface` is `iface`.
module _ {K : Type 0} (sys : System K) (iface : String) where
  abbrev pub remove_args : String → List String
  remove_args key = "wg" ∷ "set" ∷ iface ∷ "peer" ∷ key ∷ "remove" ∷ []

  abbrev pub route_args : String → String → List String
  route_args verb cidr = "ip" ∷ "route" ∷ verb ∷ cidr ∷ "dev" ∷ iface ∷ []

  abbrev pub allowed_ips : PeerInfo → List String
  allowed_ips p = append p.mesh_ip "/32" ∷ p.advertised_subnets

  abbrev pub set_args : PeerInfo → List String
  set_args p =
      "wg"
      ∷ "set"
      ∷ iface
      ∷ "peer"
      ∷ p.public_key
      ∷ "allowed-ips"
      ∷ join_comma (allowed_ips p)
      ∷ (if p.endpoint == "" then [] else "endpoint" ∷ p.endpoint ∷ [])

  -- `currentPeers`; `none` is its error.
  unfoldable pub current_peers : K → Option (Dict (List String))
  current_peers s =
      let (out, succeeded) = sys.output ("wg" ∷ "show" ∷ iface ∷ "allowed-ips" ∷ []) s in
      if succeeded then some (parse_peers out) else (if out == "" then some [] else none)

  -- `hasRoute`
  unfoldable pub has_route : String → K → Option Bool
  has_route cidr s =
      let (out, succeeded) = sys.output ("ip" ∷ "route" ∷ "show" ∷ cidr ∷ "dev" ∷ iface ∷ []) s in
      if succeeded then some (not (trim_space out == "")) else none

  -- The routes of a removed peer; errors are ignored.
  unfoldable pub delete_routes : List String → K → K
  delete_routes [] s = s
  delete_routes (cidr ∷ cidrs) s = delete_routes cidrs (sys.run (route_args "del" cidr) s).0

  -- A key of the map `desiredByKey`.
  unfoldable pub wanted : List PeerInfo → String → Bool
  wanted desired key = any (λ (p : PeerInfo). p.public_key == key) desired

  -- The first loop of `Reconcile`.
  unfoldable pub remove_stale : List PeerInfo → Dict (List String) → K → K × Bool
  remove_stale desired [] s = (s, true)
  remove_stale desired (peer ∷ peers) s = elim (wanted desired peer.0) [
    | true ↦ remove_stale desired peers s
    | false ↦
        then_run (sys.run (remove_args peer.0) s)
          λ s'. remove_stale desired peers (delete_routes peer.1 s')
  ]

  -- The routes of a desired peer.
  unfoldable pub add_routes : List String → K → K × Bool
  add_routes [] s = (s, true)
  add_routes (cidr ∷ cidrs) s = elim (has_route cidr s) [
    | none ↦ (s, false)
    | some true ↦ add_routes cidrs s
    | some false ↦ then_run (sys.run (route_args "add" cidr) s) λ s'. add_routes cidrs s'
  ]

  -- The second loop.
  unfoldable pub set_peers : List PeerInfo → K → K × Bool
  set_peers [] s = (s, true)
  set_peers (p ∷ ps) s =
      then_run (sys.run (set_args p) s)
        λ s'. then_run (add_routes (allowed_ips p) s') λ s''. set_peers ps s''

  -- `Reconcile`; the order in which Go ranges over the current peers is an argument.
  unfoldable pub reconcile :
      (Dict (List String) → Dict (List String)) → List PeerInfo → K → K × Bool
  reconcile range desired s = elim (current_peers s) [
    | none ↦ (s, false)
    | some current ↦ then_run (remove_stale desired (range current) s) λ s'. set_peers desired s'
  ]

  -- `interfaceExists`, by the success of a command that prints.
  unfoldable pub interface_exists : K → Bool
  interface_exists s = (sys.output ("ip" ∷ "link" ∷ "show" ∷ iface ∷ []) s).1

  -- `hasAddress`
  unfoldable pub has_address : String → K → Option Bool
  has_address mesh_ip s =
      let (out, succeeded) = sys.output ("ip" ∷ "-4" ∷ "addr" ∷ "show" ∷ "dev" ∷ iface ∷ []) s in
      if succeeded then some (contains_text out (append mesh_ip "/32")) else none

  abbrev pub address_args : String → List String
  address_args mesh_ip = "ip" ∷ "addr" ∷ "add" ∷ append mesh_ip "/32" ∷ "dev" ∷ iface ∷ []

  -- The address is added twice if the first attempt fails.
  abbrev pub retried : String → K × Bool → K × Bool
  retried mesh_ip (s, true) = (s, true)
  retried mesh_ip (s, false) = sys.run (address_args mesh_ip) s

  abbrev pub create_interface : K → K × Bool
  create_interface s =
      if interface_exists s
      then (s, true)
      else sys.run ("ip" ∷ "link" ∷ "add" ∷ "dev" ∷ iface ∷ "type" ∷ "wireguard" ∷ []) s

  abbrev pub assign_address : String → K → K × Bool
  assign_address mesh_ip s = elim (has_address mesh_ip s) [
    | none ↦ (s, false)
    | some true ↦ (s, true)
    | some false ↦ retried mesh_ip (sys.run (address_args mesh_ip) s)
  ]

  -- `EnsureInterface`
  unfoldable pub ensure_interface : String → String → ℤ → K → K × Bool
  ensure_interface private_key mesh_ip listen_port s = then_run (create_interface s) λ s1.
      then_run
        (sys.run_with_stdin private_key
          ("wg"
            ∷ "set"
            ∷ iface
            ∷ "private-key"
            ∷ "/dev/stdin"
            ∷ "listen-port"
            ∷ itoa listen_port
            ∷ [])
          s1)
        λ s2.
          then_run (assign_address mesh_ip s2)
            λ s3. sys.run ("ip" ∷ "link" ∷ "set" ∷ "up" ∷ "dev" ∷ iface ∷ []) s3
