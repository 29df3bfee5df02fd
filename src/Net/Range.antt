-- ===== src/Net/Range.antt =====
-- A network is the range of addresses from its own address to its last one.
use Prim.Native.Nat.{bit_and, bit_or}
use rv_tx.Base.{ℕ, ◌+◌, ◌-◌, ◌%◌, ◌^◌, ◌≤◌, ◌<◌, ◌≡◌, sym, ◌∙◌, ◌↔◌, true, arith, eqb, eqb_iff}
use rv_tx.Net.Bits.{mask_byte, bit_and-mask, bit_or-mask, range_of_clear, pow_cases}

-- What a byte `a` under a mask with `k` host bits says of the byte `b` of an address.
pub record ByteRange (k a b : ℕ) : Type 0 where
  pub low_lt : bit_and a (mask_byte k) < 256
  pub low_clear : bit_and a (mask_byte k) % 2 ^ k ≡ 0
  pub low_masked : bit_and (bit_and a (mask_byte k)) (mask_byte k) ≡ bit_and a (mask_byte k)
  pub size_pos : 0 < 2 ^ k
  pub high_le : bit_and a (mask_byte k) + 2 ^ k ≤ 256
  pub high_eq :
      bit_or (bit_and a (mask_byte k)) (255 - mask_byte k) + 1 ≡ bit_and a (mask_byte k) + 2 ^ k
  pub agrees :
      (eqb (bit_and (bit_and a (mask_byte k)) (mask_byte k)) (bit_and b (mask_byte k)) ≡ true)
      ↔ ((bit_and a (mask_byte k) ≤ b) × (b + 1 ≤ bit_and a (mask_byte k) + 2 ^ k))

module _ (k a b : ℕ) (hk : k ≤ 8) (ha : a < 256) (hb : b < 256) where
  low_facts : (bit_and a (mask_byte k) < 256) × (bit_and a (mask_byte k) % 2 ^ k ≡ 0)
  low_facts =
      let masked = bit_and-mask k a hk ha in
      let clear = (pow_cases k hk).2 a in rw masked (omega arith, clear)

  pub byte-ByteRange : ByteRange k a b
  byte-ByteRange =
      let n : ℕ = bit_and a (mask_byte k) in
      let (lt, clear) = low_facts in
      let again = bit_and-mask k n hk lt in
      let high = bit_or-mask k n hk lt in
      let other = bit_and-mask k b hk hb in
      let pos = (pow_cases k hk).0 in
      let range = range_of_clear k n b hk lt hb clear in
      let again' : bit_and n (mask_byte k) ≡ n = again ∙ (rw clear (omega arith)) in
      record {
        low_lt = lt;
        low_clear = clear;
        low_masked = again';
        size_pos = pos;
        high_le = (pow_cases k hk).3 n lt clear;
        high_eq = omega arith;
        agrees = (
          (λ e.
              let q : (n ≤ b) × (b ≤ n + 2 ^ k - 1) =
                range.0 (sym again' ∙ (eqb_iff _ _).0 e ∙ other) in
              (q.0, omega arith)),
          (λ q. (eqb_iff _ _).1 (again' ∙ range.1 (q.0, omega arith) ∙ sym other)),
        );
      }
