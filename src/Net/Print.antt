-- ===== src/Net/Print.antt =====
-- An address is read back from its text, so that the text determines the address.
use mathlib.Core.Option.{some-injective}
use rv_tx.Base.{
  ℕ, ◌<◌, ◌≡◌, refl, sym, ◌∙◌, ap, Bool, true, false, ◌&&◌, none, some, [], ◌∷◌, arith, eqb,
}
use rv_tx.Base.Text.{decimal, digits_value}
use rv_tx.Base.Dots.{no_dot, split-dot, split_last}
use rv_tx.Net.Bits.{everywhere, everywhere-at}
use rv_tx.Net.{Ip, IsIpv4, ipv4_elim, parse_octet, parse_fields, parse_ipv4, ip_string}

abbrev reads : ℕ → Bool
reads n = elim (parse_octet (decimal n)) [ none ↦ false | some m ↦ eqb m n && no_dot (decimal n) ]

reads_table : everywhere reads 256 ≡ true
unfolding everywhere parse_octet decimal no_dot digits_value
reads_table = refl

octet_round_trip :
    (n : ℕ) → n < 256 → (parse_octet (decimal n) ≡ some n) × (no_dot (decimal n) ≡ true)
octet_round_trip n h = let r = everywhere-at reads 256 n h reads_table in ground (arith)

-- `ParseCIDR` reads an address as `String` writes it.
pub parse_ipv4-ip_string : (ip : Ip) → IsIpv4 ip → parse_ipv4 (ip_string ip) ≡ some ip
unfolding parse_ipv4 ip_string parse_fields
parse_ipv4-ip_string =
    ipv4_elim (λ ip. parse_ipv4 (ip_string ip) ≡ some ip)
      λ a b c d ok. rw (split-dot (decimal a) _ (octet_round_trip a ok.0).1) (
        rw (split-dot (decimal b) _ (octet_round_trip b ok.1).1) (
          rw (split-dot (decimal c) _ (octet_round_trip c ok.2).1)
            (rw (split_last (decimal d) (octet_round_trip d ok.3).1) (parsed a b c d ok))))
  where
    parsed :
        (a b c d : ℕ)
        → IsIpv4 (a ∷ b ∷ c ∷ d ∷ [])
        → parse_fields (decimal a ∷ decimal b ∷ decimal c ∷ decimal d ∷ [])
          ≡ some (a ∷ b ∷ c ∷ d ∷ [])
    parsed a b c d ok = rw (
      (octet_round_trip a ok.0).0,
      (octet_round_trip b ok.1).0,
      (octet_round_trip c ok.2).0,
      (octet_round_trip d ok.3).0,
    )

pub ip_string_inj : (ip jp : Ip) → IsIpv4 ip → IsIpv4 jp → ip_string ip ≡ ip_string jp → ip ≡ jp
ip_string_inj ip jp ok ok' e =
    some-injective _ _
      (sym (parse_ipv4-ip_string ip ok) ∙ ap parse_ipv4 e ∙ parse_ipv4-ip_string jp ok')
