-- ===== src/Net/Parse.antt =====
-- `ParseCIDR` yields networks.
use mathlib.Core.Option.{some-injective}
use rv_tx.Base.{
  ℕ, ◌-◌, ◌≤◌, ◌<◌, ◌≡◌, refl, sym, subst, String, Option, none, some, List, [], ◌∷◌, arith,
  if◌then◌else◌, ◌==◌,
}
use rv_tx.Base.Text.{cut, split, digits_value}
use rv_tx.Net.{
  Ip, IpNet, IsIpv4, IsNet, ◌>>=◌, parse_octet, parse_fields, parse_ipv4, parse_bits, parse_cidr,
}

-- A bind that yields a value.
>>=-eq-some {ℓ κ} :
    {A : Type ℓ} {B : Type κ} (m : Option A) (f : A → Option B) {b : B}
    → (m >>= f) ≡ some b
    → (a : A) × (m ≡ some a) × (f a ≡ some b)
>>=-eq-some none f h = cc
>>=-eq-some (some a) f h = (a, refl, h)

parse_octet-lt : (s : String) {n : ℕ} → parse_octet s ≡ some n → n < 256
unfolding parse_octet
parse_octet-lt s h = let (m, _, e) = >>=-eq-some (digits_value 0 s) _ h in ground arith

parse_fields-IsIpv4 : (fields : List String) {ip : Ip} → parse_fields fields ≡ some ip → IsIpv4 ip
unfolding parse_fields
parse_fields-IsIpv4 (a ∷ b ∷ c ∷ d ∷ []) h =
    let (w, ew, hw) = >>=-eq-some (parse_octet a) _ h in
    let (x, ex, hx) = >>=-eq-some (parse_octet b) _ hw in
    let (y, ey, hy) = >>=-eq-some (parse_octet c) _ hx in
    let (z, ez, hz) = >>=-eq-some (parse_octet d) _ hy in
    subst IsIpv4 (some-injective _ _ hz)
      (parse_octet-lt a ew, parse_octet-lt b ex, parse_octet-lt c ey, parse_octet-lt d ez)
parse_fields-IsIpv4 _ h = cc

parse_bits-le : (s : String) {n : ℕ} → parse_bits s ≡ some n → n ≤ 32
unfolding parse_bits
parse_bits-le s h =
    let (m, _, e) = >>=-eq-some (if s == "" then none else digits_value 0 s) _ h in ground arith

pub parse_cidr-IsNet : (s : String) {net : IpNet} → parse_cidr s ≡ some net → IsNet net
unfolding parse_cidr parse_ipv4
parse_cidr-IsNet s h =
    let (bits, _, h1) = >>=-eq-some (cut b'/' s).1 _ h in
    let (ip, parsed, h2) = >>=-eq-some (parse_ipv4 (cut b'/' s).0) _ h1 in
    let (n, counted, h3) = >>=-eq-some (parse_bits bits) _ h2 in
    record {
      hosts = 32 - n;
      hosts_le = omega arith;
      addr = ip;
      addr_ipv4 = parse_fields-IsIpv4 (split b'.' (cut b'/' s).0) parsed;
      masked = sym (some-injective _ _ h3);
    }
