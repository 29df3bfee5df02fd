-- ===== src/Mesh/Inc.antt =====
-- `incIP` counts, and an address is determined by its number.
use rv_tx.Base.{ℕ, ◌+◌, ◌%◌, ◌<◌, ◌≡◌, ◌↔◌, true, [], ◌∷◌, arith}
use rv_tx.Net.{Ip, IsIpv4, ipv4_elim, value}
use rv_tx.Mesh.{inc_ip, ip_equal}

-- `incIP` of an IPv4 address is an IPv4 address, whose number is one more, modulo 2^32.
pub inc_ip-value :
    (ip : Ip) → IsIpv4 ip → IsIpv4 (inc_ip ip) × (value (inc_ip ip) ≡ (value ip + 1) % 4294967296)
unfolding inc_ip
inc_ip-value =
    ipv4_elim (λ ip. IsIpv4 (inc_ip ip) × (value (inc_ip ip) ≡ (value ip + 1) % 4294967296))
      (λ a b c d ok. ground arith)

digits :
    (a b c d w x y z : ℕ)
    → IsIpv4 (a ∷ b ∷ c ∷ d ∷ [])
    → IsIpv4 (w ∷ x ∷ y ∷ z ∷ [])
    → value (a ∷ b ∷ c ∷ d ∷ []) ≡ value (w ∷ x ∷ y ∷ z ∷ [])
    → (a ≡ w) × (b ≡ x) × (c ≡ y) × (d ≡ z)
digits a b c d w x y z ok ok' e = omega arith

pub value_inj : (ip jp : Ip) → IsIpv4 ip → IsIpv4 jp → value ip ≡ value jp → ip ≡ jp
value_inj = λ ip jp ok ok'.
    ipv4_elim (λ ip. value ip ≡ value jp → ip ≡ jp)
      (λ a b c d known.
        ipv4_elim (λ jp. value (a ∷ b ∷ c ∷ d ∷ []) ≡ value jp → a ∷ b ∷ c ∷ d ∷ [] ≡ jp)
          (λ w x y z known' e. let (p, q, r, s) = digits a b c d w x y z known known' e in cc) jp
          ok')
      ip ok

pub ip_equal_iff : (ip jp : Ip) → (ip_equal ip jp ≡ true) ↔ (ip ≡ jp)
unfolding ip_equal
ip_equal_iff [] [] = ground arith
ip_equal_iff [] (b ∷ bs) = ground arith
ip_equal_iff (a ∷ as') [] = ground arith
ip_equal_iff (a ∷ as') (b ∷ bs) = ground (arith, ip_equal_iff as' bs)

pub value-lt : (ip : Ip) → IsIpv4 ip → value ip < 4294967296
value-lt = ipv4_elim (λ ip. value ip < 4294967296) (λ a b c d ok. omega arith)
