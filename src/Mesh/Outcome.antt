-- ===== src/Mesh/Outcome.antt =====
-- `AllocateIP` as its callers see it.
use rv_tx.Base.{
  ◌+◌, ◌<◌, ◌≡◌, ◌≢◌, subst, inl, inr, String, none, some, List, Mem, arith, Option-cases,
}
use rv_tx.Net.{Ip, IpNet, IsIpv4, value, parse_cidr, ip_string}
use rv_tx.Net.Parse.{parse_cidr-IsNet}
use rv_tx.Net.Print.{ip_string_inj}
use rv_tx.Mesh.Range.{net-IsRange}
use rv_tx.Mesh.Allocate.{Finds, IsFirstFree, alloc_in-Finds}
use rv_tx.Mesh.{allocated, bad_cidr, exhausted, out_of_fuel, last_addr, alloc_in, allocate_ip}

-- A host address of the network: neither its first nor its last.
pub record IsHostOf (net : IpNet) (ip : Ip) : Type 0 where
  pub is_ipv4 : IsIpv4 ip
  pub above : value net.ip < value ip
  pub below : value ip < value (last_addr net)

-- The text of a host address of the CIDR's network.
pub record IsHost (cidr : String) (s : String) : Type 0 where
  pub net : IpNet
  pub parsed : parse_cidr cidr ≡ some net
  pub ip : Ip
  pub host : IsHostOf net ip
  pub text : s ≡ ip_string ip

module _ (cidr : String) (used : List String) where
  allocate-parsed :
      (net : IpNet) → parse_cidr cidr ≡ some net → allocate_ip cidr used ≡ alloc_in net used
  unfolding allocate_ip
  allocate-parsed net parsed = rw (parsed, allocate_ip)

  allocate-eq-bad_cidr : parse_cidr cidr ≡ none → allocate_ip cidr used ≡ bad_cidr
  unfolding allocate_ip
  allocate-eq-bad_cidr bad = rw (bad, allocate_ip)

  allocate-Finds :
      (net : IpNet)
      → parse_cidr cidr ≡ some net
      → Finds used (value net.ip + 1) (value (last_addr net)) (allocate_ip cidr used)
  allocate-Finds net parsed =
      rw (allocate-parsed net parsed)
        (alloc_in-Finds net (net-IsRange net (parse_cidr-IsNet cidr parsed)) used)

  found_at :
      {s : String} (net : IpNet)
      → parse_cidr cidr ≡ some net
      → allocate_ip cidr used ≡ allocated s
      → IsFirstFree used (value net.ip + 1) (value (last_addr net)) s
  found_at net parsed e =
      subst (Finds used (value net.ip + 1) (value (last_addr net))) e (allocate-Finds net parsed)

  allocated-found :
      (s : String)
      → allocate_ip cidr used ≡ allocated s
      → (net : IpNet) × (parse_cidr cidr ≡ some net)
        × IsFirstFree used (value net.ip + 1) (value (last_addr net)) s
  allocated-found s e = elim (Option-cases (parse_cidr cidr)) [
    | inl bad ↦ cc (allocate-eq-bad_cidr bad)
    | inr (net, parsed) ↦ (net, parsed, found_at net parsed e)
  ]

  pub allocate_ip-IsHost : (s : String) → allocate_ip cidr used ≡ allocated s → IsHost cidr s
  allocate_ip-IsHost s e =
      let (net, parsed, f) = allocated-found s e in
      record {
        net = net;
        parsed = parsed;
        ip = f.ip;
        host = record {
          is_ipv4 = f.is_ipv4;
          above = let above = f.above in omega arith;
          below = f.below;
        };
        text = f.text;
      }

  -- An allocated text is that of a host address of the CIDR's network, neither its first nor its
  -- last address, and it is not in use.
  pub allocate_ip_sound :
      (s : String) → allocate_ip cidr used ≡ allocated s → IsHost cidr s × (¬ Mem s used)
  allocate_ip_sound s e = (allocate_ip-IsHost s e, (allocated-found s e).2.is_free)

  -- The allocated address is the first free one: every host address of the network with a smaller
  -- number is in use.
  pub allocate_ip_first :
      (net : IpNet) (ip jp : Ip)
      → parse_cidr cidr ≡ some net
      → IsIpv4 ip
      → allocate_ip cidr used ≡ allocated (ip_string ip)
      → IsHostOf net jp
      → value jp < value ip
      → Mem (ip_string jp) used
  allocate_ip_first net ip jp parsed ok e host lt =
      let f = found_at net parsed e in
      let same = ip_string_inj ip f.ip ok f.is_ipv4 f.text in
      f.earlier jp host.is_ipv4 (let above = host.above in omega arith) (rw same at lt)

  -- The allocation fails as exhausted only if every host address of the network is in use.
  pub allocate_ip_exhausted :
      (net : IpNet) (ip : Ip)
      → parse_cidr cidr ≡ some net
      → allocate_ip cidr used ≡ exhausted
      → IsHostOf net ip
      → Mem (ip_string ip) used
  allocate_ip_exhausted net ip parsed e h =
      subst (Finds used (value net.ip + 1) (value (last_addr net))) e (allocate-Finds net parsed) ip
        h.is_ipv4 (let above = h.above in omega arith) h.below

  -- The loop ends for every CIDR and every list of used addresses: the fuel never runs out.
  pub allocate_ip-ne-out_of_fuel : allocate_ip cidr used ≢ out_of_fuel
  allocate_ip-ne-out_of_fuel e = elim (Option-cases (parse_cidr cidr)) [
    | inl bad ↦ cc (allocate-eq-bad_cidr bad)
    | inr (net, parsed) ↦
        subst (Finds used (value net.ip + 1) (value (last_addr net))) e (allocate-Finds net parsed)
  ]
