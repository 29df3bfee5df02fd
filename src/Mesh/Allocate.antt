-- ===== src/Mesh/Allocate.antt =====
-- `AllocateIP` returns the first free host address of the network, and fails only if there is none.
use mathlib.Core.Bool.{and-eq-true_iff}
use native.Mathlib.Decide.{ℕ_discrete, dec_lt}
use rv_tx.Base.{
  ℕ, zero, suc, ◌+◌, ◌%◌, ◌≤◌, ◌<◌, ◌≡◌, ◌≢◌, refl, sym, ap, subst, ◌↔◌, inl, inr, String, true,
  false, not, ◌&&◌, List, Mem, arith, contains, contains_iff, Bool-cases,
}
use rv_tx.Net.{Ip, IpNet, IsIpv4, value, ip_string, net_contains}
use rv_tx.Mesh.Range.{IsRange}
use rv_tx.Mesh.Inc.{inc_ip-value, value_inj, ip_equal_iff, value-lt}
use rv_tx.Mesh.{
  Alloc, allocated, bad_cidr, exhausted, out_of_fuel, inc_ip, last_addr, ip_equal, alloc_loop,
  alloc_fuel, alloc_in,
}

-- Every address with a number from `lo` up to `hi`, `hi` excluded, is in use.
abbrev pub AllUsed : List String → ℕ → ℕ → Type 0
AllUsed used lo hi = (ip : Ip) → IsIpv4 ip → lo ≤ value ip → value ip < hi → Mem (ip_string ip) used

-- A search from the number `lo`: the address found is the first free one below `hi`.
pub record IsFirstFree (used : List String) (lo hi : ℕ) (s : String) : Type 0 where
  pub ip : Ip
  pub is_ipv4 : IsIpv4 ip
  pub above : lo ≤ value ip
  pub below : value ip < hi
  pub text : s ≡ ip_string ip
  pub is_free : ¬ Mem s used
  pub earlier : AllUsed used lo (value ip)

abbrev pub Finds : List String → ℕ → ℕ → Alloc → Type 0
Finds used lo hi (allocated s) = IsFirstFree used lo hi s
Finds used lo hi bad_cidr = ⊥
Finds used lo hi exhausted = AllUsed used lo hi
Finds used lo hi out_of_fuel = ⊥

AllUsed-cons :
    {used : List String} {lo hi : ℕ} (ip : Ip)
    → IsIpv4 ip
    → Mem (ip_string ip) used
    → value ip ≡ lo
    → AllUsed used (lo + 1) hi
    → AllUsed used lo hi
AllUsed-cons {used} ip ok m e rest jp okj ge lt = elim (ℕ_discrete (value jp) (value ip)) [
  | yes same ↦ subst (λ k. Mem (ip_string k) used) (value_inj ip jp ok okj (sym same)) m
  | no other ↦ rest jp okj (omega arith) lt
]

Finds-later :
    {used : List String} (hi : ℕ) (ip : Ip) (r : Alloc)
    → IsIpv4 ip
    → Mem (ip_string ip) used
    → Finds used (value ip + 1) hi r
    → Finds used (value ip) hi r
Finds-later hi ip (allocated s) ok m f = record {
  ip = f.ip;
  is_ipv4 = f.is_ipv4;
  above = let a = f.above in omega arith;
  below = f.below;
  text = f.text;
  is_free = f.is_free;
  earlier = AllUsed-cons ip ok m refl f.earlier;
}
Finds-later hi ip exhausted ok m f = AllUsed-cons ip ok m refl f
Finds-later hi ip _ ok m f = f

module _ (net : IpNet) (r : IsRange net) (used : List String) where
  -- The loop's condition: the address is below the broadcast address.
  searching_iff :
      (ip : Ip)
      → IsIpv4 ip
      → value net.ip ≤ value ip
      → ((net_contains net ip && not (ip_equal ip (last_addr net))) ≡ true)
        ↔ (value ip < value (last_addr net))
  searching_iff ip ok ge = (below, searches)
    where
      ends : value ip ≡ value (last_addr net) → ip ≡ last_addr net
      ends = value_inj ip (last_addr net) ok r.last_ipv4

      below :
          (net_contains net ip && not (ip_equal ip (last_addr net))) ≡ true
          → value ip < value (last_addr net)
      below e =
          let (inside, other) = (and-eq-true_iff _ _).0 e in
          let bounds = (r.holds ip ok).0 inside in
          let apart : value ip ≢ value (last_addr net) =
            λ same. cc (other, (ip_equal_iff ip (last_addr net)).1 (ends same)) in
          omega arith

      searches :
          value ip < value (last_addr net)
          → (net_contains net ip && not (ip_equal ip (last_addr net))) ≡ true
      searches lt = elim (Bool-cases (ip_equal ip (last_addr net))) [
        | inl same ↦
            let e = ap value ((ip_equal_iff ip (last_addr net)).0 same) in absurd (omega arith)
        | inr other ↦ rw (other, (r.holds ip ok).1 (ge, omega arith))
      ]

  loop-Finds :
      (fuel : ℕ) (ip : Ip)
      → IsIpv4 ip
      → value net.ip ≤ value ip
      → 0 < fuel
      → value (last_addr net) < value ip + fuel
      → Finds used (value ip) (value (last_addr net)) (alloc_loop fuel net (last_addr net) used ip)
  unfolding alloc_loop
  loop-Finds zero ip ok ge pos enough = absurd (omega arith)
  loop-Finds (suc fuel) ip ok ge pos enough =
      elim (Bool-cases (net_contains net ip && not (ip_equal ip (last_addr net)))) [
        | inr stop ↦ rw stop λ jp okj le lt. cc (stop, (searching_iff ip ok ge).1 (omega arith))
        | inl go ↦ rw go (elim (Bool-cases (contains used (ip_string ip))) [
          | inr free ↦ rw free (record {
            ip = ip;
            is_ipv4 = ok;
            above = omega arith;
            below = (searching_iff ip ok ge).0 go;
            text = refl;
            is_free = λ m. cc (free, (contains_iff _ _).1 m);
            earlier = λ jp okj le lt. absurd (omega arith);
          })
          | inl busy ↦
              let lt = (searching_iff ip ok ge).0 go in
              let (ok', e) = inc_ip-value ip ok in
              let small = value-lt (last_addr net) r.last_ipv4 in
              let next : value (inc_ip ip) ≡ value ip + 1 = omega arith in
              rw busy (
                Finds-later (value (last_addr net)) ip
                  (alloc_loop fuel net (last_addr net) used (inc_ip ip)) ok
                  ((contains_iff _ _).0 busy)
                  (subst
                    (λ v.
                      Finds used v (value (last_addr net))
                        (alloc_loop fuel net (last_addr net) used (inc_ip ip)))
                    next
                    (loop-Finds fuel (inc_ip ip) ok' (omega arith) (omega arith) (omega arith))))
        ])
      ]

  loop-eq-exhausted :
      (fuel : ℕ) (ip : Ip)
      → 0 < fuel
      → net_contains net ip ≡ false
      → alloc_loop fuel net (last_addr net) used ip ≡ exhausted
  unfolding alloc_loop
  loop-eq-exhausted zero ip pos outside = absurd (omega arith)
  loop-eq-exhausted (suc fuel) ip pos outside = rw outside

  -- The search begins behind the network address; after 255.255.255.255 it ends at once.
  start-Finds :
      (ip : Ip)
      → IsIpv4 ip
      → value ip ≡ (value net.ip + 1) % 4294967296
      → Finds used
          (value net.ip + 1)
          (value (last_addr net))
          (alloc_loop alloc_fuel net (last_addr net) used ip)
  start-Finds ip ok e = elim (dec_lt (value net.ip + 1) 4294967296) [
    | yes small ↦
        subst
          (λ v.
            Finds used v (value (last_addr net))
              (alloc_loop alloc_fuel net (last_addr net) used ip))
          (omega arith)
          (loop-Finds alloc_fuel ip ok (omega arith) (omega arith)
            (let top = value-lt (last_addr net) r.last_ipv4 in omega arith))
    | no last ↦ elim (Bool-cases (net_contains net ip)) [
      | inl inside ↦
          let bounds = (r.holds ip ok).0 inside in
          let top = value-lt net.ip r.first_ipv4 in absurd (omega arith)
      | inr outside ↦
          rw (loop-eq-exhausted alloc_fuel ip (omega arith) outside)
            (λ jp okj ge lt. let top = value-lt (last_addr net) r.last_ipv4 in absurd (omega arith))
    ]
  ]

  pub alloc_in-Finds : Finds used (value net.ip + 1) (value (last_addr net)) (alloc_in net used)
  unfolding alloc_in
  alloc_in-Finds =
      rw r.masked
        (let (ok, e) = inc_ip-value net.ip r.first_ipv4 in start-Finds (inc_ip net.ip) ok e)
