-- ===== src/Mesh/Range.antt =====
-- The network of a CIDR as a range of numbers, from its own address to `lastAddr`.
use Prim.Native.Nat.{bit_and, bit_or}
use rv_tx.Base.{ℕ, ◌+◌, ◌-◌, ◌^◌, ◌≤◌, ◌<◌, ◌≡◌, ◌⊎◌, ◌↔◌, true, [], ◌∷◌, arith}
use mathlib.Core.Bool.{and-eq-true_iff}
use rv_tx.Net.{
  Ip, IpNet, IsIpv4, IsNet, ipv4_elim, value, byte_hosts, masked_net, net_contains, apply_mask,
}
use rv_tx.Net.Bits.{mask_byte}
use rv_tx.Net.Range.{ByteRange, byte-ByteRange}
use rv_tx.Mesh.{last_addr}

-- The host bits fill the low bytes before they reach the next one.
pub record Spans (p q r s : ℕ) : Type 0 where
  pub bounds : (p ≤ 8) × (q ≤ 8) × (r ≤ 8) × (s ≤ 8)
  pub shape :
      ((p ≡ 0) × (q ≡ 0) × (r ≡ 0))
      ⊎ ((p ≡ 0) × (q ≡ 0) × (s ≡ 8))
      ⊎ ((p ≡ 0) × (r ≡ 8) × (s ≡ 8))
      ⊎ ((q ≡ 8) × (r ≡ 8) × (s ≡ 8))

byte_hosts-Spans :
    (h : ℕ) → h ≤ 32 → Spans (byte_hosts h 24) (byte_hosts h 16) (byte_hosts h 8) (byte_hosts h 0)
byte_hosts-Spans h le = ground arith

-- The same of the powers: a byte above the split has one value, a byte below it all 256.
abbrev Powers : ℕ → ℕ → ℕ → ℕ → Type 0
Powers p q r s =
    ((2 ^ p ≡ 1) × (2 ^ q ≡ 1) × (2 ^ r ≡ 1))
    ⊎ ((2 ^ p ≡ 1) × (2 ^ q ≡ 1) × (2 ^ s ≡ 256))
    ⊎ ((2 ^ p ≡ 1) × (2 ^ r ≡ 256) × (2 ^ s ≡ 256))
    ⊎ ((2 ^ q ≡ 256) × (2 ^ r ≡ 256) × (2 ^ s ≡ 256))

Spans-Powers : {p q r s : ℕ} → Spans p q r s → Powers p q r s
Spans-Powers w = ground arith

-- Four bytes `n` with the host bits clear, `e` with them set, and the powers `p`: an address lies
-- between them byte by byte exactly if it does as a number.
record Digits (n p e : ℕ) : Type 0 where
  size : 0 < p
  fits : n + p ≤ 256
  top : e + 1 ≡ n + p
  empty : p ≡ 256 → n ≡ 0

abbrev Within : ℕ → ℕ → ℕ → Type 0
Within n p b = (n ≤ b) × (b + 1 ≤ n + p)

module _ {n0 p0 e0 n1 p1 e1 n2 p2 e2 n3 p3 e3 : ℕ} (d0 : Digits n0 p0 e0) (d1 : Digits n1 p1 e1)
    (d2 : Digits n2 p2 e2) (d3 : Digits n3 p3 e3)
    (shape : ((p0 ≡ 1) × (p1 ≡ 1) × (p2 ≡ 1))
      ⊎ ((p0 ≡ 1) × (p1 ≡ 1) × (p3 ≡ 256))
      ⊎ ((p0 ≡ 1) × (p2 ≡ 256) × (p3 ≡ 256))
      ⊎ ((p1 ≡ 256) × (p2 ≡ 256) × (p3 ≡ 256)))
    (w x y z : ℕ) (ok : IsIpv4 (w ∷ x ∷ y ∷ z ∷ [])) where
  Within-range :
      Within n0 p0 w
      → Within n1 p1 x
      → Within n2 p2 y
      → Within n3 p3 z
      → (value (n0 ∷ n1 ∷ n2 ∷ n3 ∷ []) ≤ value (w ∷ x ∷ y ∷ z ∷ []))
        × (value (w ∷ x ∷ y ∷ z ∷ []) ≤ value (e0 ∷ e1 ∷ e2 ∷ e3 ∷ []))
  Within-range a b c d = omega arith

  range-Within :
      value (n0 ∷ n1 ∷ n2 ∷ n3 ∷ []) ≤ value (w ∷ x ∷ y ∷ z ∷ [])
      → value (w ∷ x ∷ y ∷ z ∷ []) ≤ value (e0 ∷ e1 ∷ e2 ∷ e3 ∷ [])
      → Within n0 p0 w × Within n1 p1 x × Within n2 p2 y × Within n3 p3 z
  range-Within a b = omega arith

ByteRange-Digits :
    {k a b : ℕ}
    → ByteRange k a b
    → Digits
        (bit_and a (mask_byte k))
        (2 ^ k)
        (bit_or (bit_and a (mask_byte k)) (255 - mask_byte k))
ByteRange-Digits {k} {a} r = record {
  size = r.size_pos;
  fits = r.high_le;
  top = r.high_eq;
  empty = λ e. let clear = rw e at r.low_clear in let lt = r.low_lt in omega arith;
}

module _ {h a b c d w x y z : ℕ} (le : h ≤ 32) (known : IsIpv4 (a ∷ b ∷ c ∷ d ∷ []))
    (ok : IsIpv4 (w ∷ x ∷ y ∷ z ∷ [])) where
  hosts : Spans (byte_hosts h 24) (byte_hosts h 16) (byte_hosts h 8) (byte_hosts h 0)
  hosts = byte_hosts-Spans h le

  range0 : ByteRange (byte_hosts h 24) a w
  range0 = byte-ByteRange _ a w hosts.bounds.0 known.0 ok.0

  range1 : ByteRange (byte_hosts h 16) b x
  range1 = byte-ByteRange _ b x hosts.bounds.1 known.1 ok.1

  range2 : ByteRange (byte_hosts h 8) c y
  range2 = byte-ByteRange _ c y hosts.bounds.2 known.2 ok.2

  range3 : ByteRange (byte_hosts h 0) d z
  range3 = byte-ByteRange _ d z hosts.bounds.3 known.3 ok.3

  masked-contains :
      let net = masked_net (a ∷ b ∷ c ∷ d ∷ []) h in
      let ip = w ∷ x ∷ y ∷ z ∷ [] in
      (net_contains net ip ≡ true)
      ↔ ((value net.ip ≤ value ip) × (value ip ≤ value (last_addr net)))
  unfolding net_contains apply_mask last_addr
  masked-contains = (
    (λ e.
        let (e0, f0) = (and-eq-true_iff _ _).0 e in
        let (e1, f1) = (and-eq-true_iff _ _).0 f0 in
        let (e2, f2) = (and-eq-true_iff _ _).0 f1 in
        let (e3, _) = (and-eq-true_iff _ _).0 f2 in
        Within-range (ByteRange-Digits range0) (ByteRange-Digits range1) (ByteRange-Digits range2)
          (ByteRange-Digits range3) (Spans-Powers hosts) w x y z ok (range0.agrees.0 e0)
          (range1.agrees.0 e1) (range2.agrees.0 e2) (range3.agrees.0 e3)),
    (λ q.
        let (r0, r1, r2, r3) =
          range-Within (ByteRange-Digits range0) (ByteRange-Digits range1) (ByteRange-Digits range2)
            (ByteRange-Digits range3) (Spans-Powers hosts) w x y z ok q.0 q.1 in
        rw (range0.agrees.1 r0, range1.agrees.1 r1, range2.agrees.1 r2, range3.agrees.1 r3)),
  )

  masked-value :
      let net = masked_net (a ∷ b ∷ c ∷ d ∷ []) h in
      IsIpv4 net.ip
      × IsIpv4 (last_addr net)
      × (value net.ip ≤ value (last_addr net))
      × (apply_mask net.ip net.mask ≡ net.ip)
  unfolding apply_mask last_addr
  masked-value =
      let p = ByteRange-Digits range0 in
      let q = ByteRange-Digits range1 in
      let r = ByteRange-Digits range2 in
      let s = ByteRange-Digits range3 in
      let shape = Spans-Powers hosts in
      (
        (range0.low_lt, range1.low_lt, range2.low_lt, range3.low_lt),
        omega arith,
        omega arith,
        rw (range0.low_masked, range1.low_masked, range2.low_masked, range3.low_masked),
      )

-- Its own address and the last one are addresses, in that order, its own is masked already, and it
-- holds exactly the addresses between them.
pub record IsRange (net : IpNet) : Type 0 where
  pub first_ipv4 : IsIpv4 net.ip
  pub last_ipv4 : IsIpv4 (last_addr net)
  pub ordered : value net.ip ≤ value (last_addr net)
  pub masked : apply_mask net.ip net.mask ≡ net.ip
  pub holds :
      (ip : Ip)
      → IsIpv4 ip
      → (net_contains net ip ≡ true)
        ↔ ((value net.ip ≤ value ip) × (value ip ≤ value (last_addr net)))

masked-IsRange :
    (h : ℕ)
    → h ≤ 32
    → (a b c d : ℕ) → IsIpv4 (a ∷ b ∷ c ∷ d ∷ [])
    → IsRange (masked_net (a ∷ b ∷ c ∷ d ∷ []) h)
masked-IsRange h le a b c d known =
    let (first, last, ordered, again) =
      masked-value {w = 0} {x = 0} {y = 0} {z = 0} le known (omega arith) in
    record {
      first_ipv4 = first;
      last_ipv4 = last;
      ordered = ordered;
      masked = again;
      holds = ipv4_elim _ (λ w x y z ok. masked-contains le known ok);
    }

-- Of the network of a CIDR: its own address and `lastAddr` are IPv4 addresses in that order,
-- masking its address changes nothing, and it contains exactly the addresses whose number lies
-- between the two, both included.
pub net-IsRange : (net : IpNet) → IsNet net → IsRange net
net-IsRange net n = rw n.masked (
    ipv4_elim (λ addr. IsRange (masked_net addr n.hosts)) (masked-IsRange n.hosts n.hosts_le) n.addr
      n.addr_ipv4)
