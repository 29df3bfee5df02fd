-- ===== src/Mesh.antt =====
-- internal/controlplane/mesh/mesh.go: IP allocation and peer lists.
pub mod Range
pub mod Inc
pub mod Allocate
pub mod Outcome
pub mod Peers
mod Tests
use Prim.Native.Nat.{bit_or}
use rv_tx.Base.{
  ℕ, zero, suc, ◌+◌, ◌-◌, ◌%◌, ◌^◌, ◌≡◌, refl, String, Bool, true, false, not, ◌&&◌, Option, none,
  some, List, [], ◌∷◌, length, get_or, set, contains, eqb, if◌then◌else◌, ◌==◌,
}
use mathlib.Core.Option
use rv_tx.Protocol.{PeerInfo}
use rv_tx.Db.Node.{Node}
use rv_tx.Net.{Ip, IpNet, parse_cidr, ip_string, net_contains, apply_mask}

-- The loop of `incIP` over the index `i` = `n` - 1: a byte wraps at 256, and a byte that is not zero
-- after the increment ends the loop.
inc_loop : ℕ → Ip → Ip
inc_loop zero ip = ip
inc_loop (suc i) ip =
    let bumped = set ip i ((get_or ip i 0 + 1) % 256) in
    let rest = inc_loop i bumped in if not (eqb (get_or bumped i 0) 0) then bumped else rest

unfoldable pub inc_ip : Ip → Ip
unfolding inc_loop
inc_ip ip = inc_loop (length ip) ip

-- The loop of `lastAddr`: `ip[i] | ^mask[i]`.
last_bytes : Ip → List ℕ → Ip
last_bytes (b ∷ ip) (m ∷ mask) = bit_or b (255 - m) ∷ last_bytes ip mask
last_bytes _ _ = []

unfoldable pub last_addr : IpNet → Ip
unfolding last_bytes
last_addr net = last_bytes net.ip net.mask

-- `ip.Equal(broadcast)`
unfoldable pub ip_equal : Ip → Ip → Bool
ip_equal (a ∷ as') (b ∷ bs) = eqb a b && ip_equal as' bs
ip_equal [] [] = true
ip_equal _ _ = false

-- An address, or one of the errors; `out_of_fuel` does not happen.
pub data Alloc : Type 0 where
  allocated : String → Alloc
  bad_cidr : Alloc
  exhausted : Alloc
  out_of_fuel : Alloc

-- The `for` loop of `AllocateIP`.
unfoldable pub alloc_loop : ℕ → IpNet → Ip → List String → Ip → Alloc
alloc_loop zero net broadcast used ip = out_of_fuel
alloc_loop (suc fuel) net broadcast used ip =
    let rest = alloc_loop fuel net broadcast used (inc_ip ip) in
    if net_contains net ip && not (ip_equal ip broadcast)
    then (if not (contains used (ip_string ip)) then allocated (ip_string ip) else rest)
    else exhausted

-- No IPv4 network has more addresses.
abbrev pub alloc_fuel : ℕ
alloc_fuel = 4294967296

unfoldable pub alloc_in : IpNet → List String → Alloc
alloc_in net used =
    alloc_loop alloc_fuel net (last_addr net) used (inc_ip (apply_mask net.ip net.mask))

unfoldable pub allocate_ip : String → List String → Alloc
allocate_ip cidr used = elim (parse_cidr cidr) [ none ↦ bad_cidr | some net ↦ alloc_in net used ]

-- A missing endpoint is "".
abbrev pub peer_info : Node → PeerInfo
peer_info n = record {
  public_key = n.public_key;
  mesh_ip = n.mesh_ip;
  endpoint = Option.get_or n.last_endpoint "";
  advertised_subnets = n.advertised_subnets;
}

-- The loop of `PeerListFor`: the nodes of that key are passed over.
unfoldable pub peer_list_for : String → List Node → List PeerInfo
peer_list_for public_key [] = []
peer_list_for public_key (n ∷ nodes) =
    let peers = peer_list_for public_key nodes in
    if n.public_key == public_key then peers else peer_info n ∷ peers
