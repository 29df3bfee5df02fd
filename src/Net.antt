-- ===== src/Net.antt =====
-- What the program uses of Go's `net` package, over IPv4: `ParseCIDR`, `IP.String`, `IPNet.Contains`,
-- `IP.Mask` and `CIDRMask`. An address is the list of its bytes, the most significant first.
pub mod Bits
pub mod Range
pub mod Parse
pub mod Print
use Prim.Native.Nat.{bit_and}
use Prim.Native.String.{◌++◌ as append}
use rv_tx.Base.{
  ℕ, zero, suc, ◌+◌, ◌-◌, ◌*◌, ◌/◌, ◌%◌, ◌^◌, ◌≤◌, ◌<◌, ◌≡◌, String, Bool, true, false, ◌&&◌,
  Option, none, some, List, [], ◌∷◌, ltb, leb, eqb, if◌then◌else◌, ◌==◌,
}
use Bits.{mask_byte}
use rv_tx.Base.Text.{decimal, digits_value, cut, split}

abbrev pub Ip : Type 0
Ip = List ℕ

pub record IpNet : Type 0 where
  pub ip : Ip
  pub mask : List ℕ

infixl 5 ◌>>=◌
abbrev ◌>>=◌ {ℓ κ} : {A : Type ℓ} {B : Type κ} → Option A → (A → Option B) → Option B
none >>= f = none
some a >>= f = f a

-- A decimal field of an IPv4 address: no sign, no leading zero, at most 255.
parse_octet : String → Option ℕ
parse_octet s = do n ← digits_value 0 s; if leb n 255 && s == decimal n then some n else none

-- The fields of an IPv4 address.
parse_fields : List String → Option Ip
parse_fields (a ∷ b ∷ c ∷ d ∷ []) = do
  w ← parse_octet a
  x ← parse_octet b
  y ← parse_octet c
  z ← parse_octet d
  some (w ∷ x ∷ y ∷ z ∷ [])
parse_fields _ = none

pub parse_ipv4 : String → Option Ip
parse_ipv4 s = parse_fields (split b'.' s)

-- The number of host bits among the eight of a byte, of `h` at and below it.
abbrev pub byte_hosts : ℕ → ℕ → ℕ
byte_hosts h below = if leb h below then 0 else if leb (below + 8) h then 8 else h - below

-- `CIDRMask(32 - h, 32)`
abbrev pub cidr_mask : ℕ → List ℕ
cidr_mask h =
    mask_byte (byte_hosts h 24)
    ∷ mask_byte (byte_hosts h 16)
    ∷ mask_byte (byte_hosts h 8)
    ∷ mask_byte (byte_hosts h 0)
    ∷ []

-- `ip.Mask(mask)`
unfoldable pub apply_mask : Ip → List ℕ → Ip
apply_mask (b ∷ ip) (m ∷ mask) = bit_and b m ∷ apply_mask ip mask
apply_mask _ _ = []

-- `&IPNet{IP: ip.Mask(m), Mask: m}` with `h` host bits.
abbrev pub masked_net : Ip → ℕ → IpNet
masked_net ip h = record { ip = apply_mask ip (cidr_mask h); mask = cidr_mask h }

-- The prefix length: a decimal number up to 32.
parse_bits : String → Option ℕ
parse_bits s = do n ← if s == "" then none else digits_value 0 s; if leb n 32 then some n else none

-- The network of `ParseCIDR`; `none` is its error.
unfoldable pub parse_cidr : String → Option IpNet
unfolding parse_ipv4 parse_fields parse_octet parse_bits cut split digits_value decimal apply_mask
parse_cidr s = do
  let parts = cut b'/' s
  bits ← parts.1
  ip ← parse_ipv4 parts.0
  n ← parse_bits bits
  some (masked_net ip (32 - n))

-- `ip.String()`
unfoldable pub ip_string : Ip → String
ip_string [] = ""
ip_string (b ∷ []) = decimal b
ip_string (b ∷ c ∷ ip) = append (decimal b) (append "." (ip_string (c ∷ ip)))

-- The loop of `Contains`: the address and the network agree on every bit of the mask.
unfoldable pub contains_bytes : Ip → List ℕ → Ip → Bool
contains_bytes (n ∷ ns) (m ∷ ms) (b ∷ bs) =
    eqb (bit_and n m) (bit_and b m) && contains_bytes ns ms bs
contains_bytes [] [] [] = true
contains_bytes _ _ _ = false

unfoldable pub net_contains : IpNet → Ip → Bool
unfolding contains_bytes
net_contains net ip = contains_bytes net.ip net.mask ip

-- The number that the bytes stand for, the digits of `acc` before them.
abbrev value_from : ℕ → Ip → ℕ
value_from acc [] = acc
value_from acc (b ∷ ip) = value_from (acc * 256 + b) ip

abbrev pub value : Ip → ℕ
value ip = value_from 0 ip

-- Four bytes.
abbrev pub IsIpv4 : Ip → Type 0
IsIpv4 (a ∷ b ∷ c ∷ d ∷ []) = (a < 256) × (b < 256) × (c < 256) × (d < 256)
IsIpv4 _ = ⊥

-- What holds of every four bytes holds of every address.
pub ipv4_elim {ℓ} :
    (P : Ip → Type ℓ)
    → ((a b c d : ℕ) → IsIpv4 (a ∷ b ∷ c ∷ d ∷ []) → P (a ∷ b ∷ c ∷ d ∷ []))
    → (ip : Ip) → IsIpv4 ip
    → P ip
ipv4_elim P f [] ok = elim ok [ ]
ipv4_elim P f (a ∷ []) ok = elim ok [ ]
ipv4_elim P f (a ∷ b ∷ []) ok = elim ok [ ]
ipv4_elim P f (a ∷ b ∷ c ∷ []) ok = elim ok [ ]
ipv4_elim P f (a ∷ b ∷ c ∷ d ∷ []) ok = f a b c d ok
ipv4_elim P f (a ∷ b ∷ c ∷ d ∷ e ∷ ip) ok = elim ok [ ]

-- A network of `hosts` host bits, cleared in some address of four bytes.
pub record IsNet (net : IpNet) : Type 0 where
  pub hosts : ℕ
  pub hosts_le : hosts ≤ 32
  pub addr : Ip
  pub addr_ipv4 : IsIpv4 addr
  pub masked : net ≡ masked_net addr hosts
