-- ===== src/Net/Bits.antt =====
-- One byte under a mask whose low `k` bits are zero: clearing and setting the host bits, by tables.
use Prim.Native.Nat.{bit_and, bit_or}
use rv_tx.Base.{
  ℕ, zero, suc, ◌+◌, ◌-◌, ◌%◌, ◌^◌, ◌≤◌, ◌<◌, ◌≡◌, refl, ◌↔◌, Bool, true, ◌&&◌, arith, eqb, eqb_iff,
}

-- A byte whose low `k` bits are zero.
abbrev pub mask_byte : ℕ → ℕ
mask_byte k = 256 - 2 ^ k

-- A test holds at every number under a bound.
unfoldable pub everywhere : (ℕ → Bool) → ℕ → Bool
everywhere test zero = true
everywhere test (suc bound) = everywhere test bound && test bound

pub everywhere-at :
    (test : ℕ → Bool) (bound i : ℕ) → i < bound → everywhere test bound ≡ true → test i ≡ true
unfolding everywhere
everywhere-at test zero i under holds = absurd (omega arith)
everywhere-at test (suc bound) i under holds = ground (arith, everywhere-at test bound i)

abbrev clears : ℕ → ℕ → Bool
clears k x = eqb (bit_and x (mask_byte k)) (x - x % 2 ^ k)

abbrev sets : ℕ → ℕ → Bool
sets k x = eqb (bit_or x (255 - mask_byte k)) (x - x % 2 ^ k + 2 ^ k - 1)

clears_table : everywhere (λ k. everywhere (clears k) 256) 9 ≡ true
unfolding everywhere
clears_table = refl

sets_table : everywhere (λ k. everywhere (sets k) 256) 9 ≡ true
unfolding everywhere
sets_table = refl

pub bit_and-mask : (k x : ℕ) → k ≤ 8 → x < 256 → bit_and x (mask_byte k) ≡ x - x % 2 ^ k
bit_and-mask k x hk hx =
    (eqb_iff _ _).0
      (everywhere-at (clears k) 256 x hx (everywhere-at _ 9 k (omega arith) clears_table))

pub bit_or-mask :
    (k x : ℕ) → k ≤ 8 → x < 256 → bit_or x (255 - mask_byte k) ≡ x - x % 2 ^ k + 2 ^ k - 1
bit_or-mask k x hk hx =
    (eqb_iff _ _).0 (everywhere-at (sets k) 256 x hx (everywhere-at _ 9 k (omega arith) sets_table))

-- With the host bits of `n` clear, `b` agrees with it under the mask exactly if it lies between `n`
-- and `n` with the host bits set.
pub range_of_clear :
    (k n b : ℕ)
    → k ≤ 8
    → n < 256
    → b < 256
    → n % 2 ^ k ≡ 0
    → (n ≡ b - b % 2 ^ k) ↔ ((n ≤ b) × (b ≤ n + 2 ^ k - 1))
range_of_clear zero n b = omega arith
range_of_clear (suc zero) n b = omega arith
range_of_clear (suc (suc zero)) n b = omega arith
range_of_clear (suc (suc (suc zero))) n b = omega arith
range_of_clear (suc (suc (suc (suc zero)))) n b = omega arith
range_of_clear (suc (suc (suc (suc (suc zero))))) n b = omega arith
range_of_clear (suc (suc (suc (suc (suc (suc zero)))))) n b = omega arith
range_of_clear (suc (suc (suc (suc (suc (suc (suc zero))))))) n b = omega arith
range_of_clear (suc (suc (suc (suc (suc (suc (suc (suc zero)))))))) n b = omega arith
range_of_clear (suc (suc (suc (suc (suc (suc (suc (suc (suc k))))))))) n b = omega arith

-- The table of the powers of two that a byte can hold.
pub pow_cases :
    (k : ℕ)
    → k ≤ 8
    → (0 < 2 ^ k)
      × (2 ^ k ≤ 256)
      × ((x : ℕ) → (x - x % 2 ^ k) % 2 ^ k ≡ 0)
      × ((x : ℕ) → x < 256 → x % 2 ^ k ≡ 0 → x + 2 ^ k ≤ 256)
pow_cases zero h = (omega arith, omega arith, (λ x. omega arith), (λ x p q. omega arith))
pow_cases (suc zero) h = (omega arith, omega arith, (λ x. omega arith), (λ x p q. omega arith))
pow_cases (suc (suc zero)) h =
    (omega arith, omega arith, (λ x. omega arith), (λ x p q. omega arith))
pow_cases (suc (suc (suc zero))) h =
    (omega arith, omega arith, (λ x. omega arith), (λ x p q. omega arith))
pow_cases (suc (suc (suc (suc zero)))) h =
    (omega arith, omega arith, (λ x. omega arith), (λ x p q. omega arith))
pow_cases (suc (suc (suc (suc (suc zero))))) h =
    (omega arith, omega arith, (λ x. omega arith), (λ x p q. omega arith))
pow_cases (suc (suc (suc (suc (suc (suc zero)))))) h =
    (omega arith, omega arith, (λ x. omega arith), (λ x p q. omega arith))
pow_cases (suc (suc (suc (suc (suc (suc (suc zero))))))) h =
    (omega arith, omega arith, (λ x. omega arith), (λ x p q. omega arith))
pow_cases (suc (suc (suc (suc (suc (suc (suc (suc zero)))))))) h =
    (omega arith, omega arith, (λ x. omega arith), (λ x p q. omega arith))
pow_cases (suc (suc (suc (suc (suc (suc (suc (suc (suc k))))))))) h = absurd (omega arith)
