-- ===== src/Base/Bits.antt =====
-- Masks and fields of unsigned integers: `v & ((1 << k) - 1)` and `low | (high << k)`.
use Prim.Native.Nat.{
  ℕ, zero, suc, ◌+◌, ◌-◌, ◌*◌, ◌/◌, ◌%◌, ◌^◌, ◌<◌, ◌≤◌, min, max, bit_and, bit_or, digits,
  bit_and-bitwise, bit_or-bitwise,
}
use mathlib.Core.Path.{◌≡◌, refl, ap, sym, ◌∙◌}
use native.Mathlib.Omega.{arith}
use wedding_cake_cpp.Base.Bytes.{to_le, from_le, pow-add}
use native.Mathlib.Nat.{
  pow-suc, mul-le-mul_right, add-mul-mod_self_right, add-mul-div_right, div-eq_of_lt, mod-eq_of_lt,
  div-add-mod, mod-lt, mod-one, zero-mod, add-mul-mod_self_left,
}

pub pow_pos : (k : ℕ) → 0 < 2 ^ k
pow_pos zero = omega arith
pow_pos (suc k) = omega (arith, pow-suc 2 k, pow_pos k)

-- A remainder by an even number, from that of the half.
mod_double : (a p : ℕ) → 0 < p → a % (2 * p) ≡ a / 2 % p * 2 + a % 2
mod_double a p h =
    let d = a / 2 / p in
    let r = a / 2 % p in
    let low : r < p = mod-lt (a / 2) h in
    let half : p * d + r ≡ a / 2 = div-add-mod (a / 2) p in
    let whole : a ≡ (r * 2 + a % 2) + (2 * p) * d =
      omega (arith, half, ap (λ (t : ℕ). 2 * t) half) in
    let s = r * 2 + a % 2 in
    let small : s < 2 * p = omega arith in
    ap (λ (t : ℕ). t % (2 * p)) whole ∙ (add-mul-mod_self_left s (2 * p) d ∙ mod-eq_of_lt small)

and_digits : (k n a : ℕ) → a ≤ n → digits (λ b. zero) min n a (2 ^ k - 1) ≡ a % 2 ^ k
and_digits zero zero a h = sym (mod-one a)
and_digits zero (suc n) zero h = refl
and_digits zero (suc n) (suc a) h =
    let rest : digits (λ b. zero) min n (suc a / 2) 0 ≡ suc a / 2 % 1 =
      and_digits zero n (suc a / 2) (omega arith) in
    omega (arith, rest)
and_digits (suc k) zero a h = let z : a ≡ 0 = omega arith in rw z (sym (zero-mod (2 ^ suc k)))
and_digits (suc k) (suc n) zero h = sym (zero-mod (2 ^ suc k))
and_digits (suc k) (suc n) (suc a) h =
    let e = pow-suc 2 k in
    let pos = pow_pos k in
    let half : (2 ^ suc k - 1) / 2 ≡ 2 ^ k - 1 = omega (arith, e, pos) in
    let odd : (2 ^ suc k - 1) % 2 ≡ 1 = omega (arith, e, pos) in
    let rest = and_digits k n (suc a / 2) (omega arith) in
    let twice : 2 ^ suc k ≡ 2 * 2 ^ k = omega (arith, e) in
    let bit : min (suc a % 2) 1 ≡ suc a % 2 = omega arith in
    rw (half, odd, rest, bit)
      (sym (ap (λ (t : ℕ). suc a % t) twice ∙ mod_double (suc a) (2 ^ k) pos))

pub bit_and-mask : (v k : ℕ) → bit_and v (2 ^ k - 1) ≡ v % 2 ^ k
bit_and-mask v k =
    let digitwise : bit_and v (2 ^ k - 1) ≡ digits (λ b. zero) min v v (2 ^ k - 1) =
      λ i. bit_and-bitwise v (2 ^ k - 1) i in
    digitwise ∙ and_digits k v v (omega arith)

or_digits : (k n a b : ℕ) → a ≤ n → a < 2 ^ k → digits (λ b. b) max n a (b * 2 ^ k) ≡ a + b * 2 ^ k
or_digits k zero a b h l = let z : a ≡ 0 = omega arith in omega arith
or_digits k (suc n) zero b h l = omega arith
or_digits zero (suc n) (suc a) b h l = absurd (omega arith)
or_digits (suc k) (suc n) (suc a) b h l =
    let e = pow-suc 2 k in
    let twice : b * 2 ^ suc k ≡ 2 * (b * 2 ^ k) = omega (arith, ap (λ (t : ℕ). b * t) e) in
    let half : b * 2 ^ suc k / 2 ≡ b * 2 ^ k = omega (arith, twice) in
    let even : b * 2 ^ suc k % 2 ≡ 0 = omega (arith, twice) in
    let rest = or_digits k n (suc a / 2) b (omega arith) (omega (arith, e)) in
    let bit : max (suc a % 2) 0 ≡ suc a % 2 = omega arith in
    rw (half, even, rest, bit) (omega (arith, twice))

pub bit_or-shift : (k a b : ℕ) → a < 2 ^ k → bit_or a (b * 2 ^ k) ≡ a + b * 2 ^ k
bit_or-shift k a b l =
    let digitwise : bit_or a (b * 2 ^ k) ≡ digits (λ c. c) max a a (b * 2 ^ k) =
      λ i. bit_or-bitwise a (b * 2 ^ k) i in
    digitwise ∙ or_digits k a a b (omega arith) l

-- The remainder by a multiple of 256, from the lowest byte and the rest.
mod_bytes : (a p : ℕ) → 0 < p → a % (256 * p) ≡ a % 256 + 256 * (a / 256 % p)
mod_bytes a p h =
    let d = a / 256 / p in
    let r = a / 256 % p in
    let low : r < p = mod-lt (a / 256) h in
    let part : p * d + r ≡ a / 256 = div-add-mod (a / 256) p in
    let s = a % 256 + 256 * r in
    let whole : a ≡ s + (256 * p) * d = omega (arith, part, ap (λ (t : ℕ). 256 * t) part) in
    let small : s < 256 * p = omega arith in
    ap (λ (t : ℕ). t % (256 * p)) whole ∙ (add-mul-mod_self_left s (256 * p) d ∙ mod-eq_of_lt small)

-- The first n bytes of an integer hold its low bits.
pub from_le-to_le_mod : (n v : ℕ) → from_le (to_le n v) ≡ v % 2 ^ (n * 8)
unfolding to_le from_le
from_le-to_le_mod zero v = sym (mod-one v)
from_le-to_le_mod (suc n) v =
    let rest = from_le-to_le_mod n (v / 256) in
    let e : suc n * 8 ≡ n * 8 + 8 = omega arith in
    let p : 2 ^ (n * 8 + 8) ≡ 256 * 2 ^ (n * 8) = omega (arith, pow-add 2 (n * 8) 8) in
    rw (rest, e, p) (sym (mod_bytes v (2 ^ (n * 8)) (pow_pos (n * 8))))

-- Two fields side by side, taken apart again.
pub fields_lt :
    (low high bits more : ℕ)
    → low < 2 ^ bits
    → high < 2 ^ more
    → low + high * 2 ^ bits < 2 ^ (bits + more)
fields_lt low high bits more l h =
    let room : suc high * 2 ^ bits ≤ 2 ^ more * 2 ^ bits = mul-le-mul_right (2 ^ bits) h in
    omega (arith, room, pow-add 2 bits more)

pub fields_low : (low high bits : ℕ) → low < 2 ^ bits → (low + high * 2 ^ bits) % 2 ^ bits ≡ low
fields_low low high bits l = add-mul-mod_self_right low high (2 ^ bits) ∙ mod-eq_of_lt l

pub fields_high : (low high bits : ℕ) → low < 2 ^ bits → (low + high * 2 ^ bits) / 2 ^ bits ≡ high
fields_high low high bits l =
    let sum = add-mul-div_right low high (pow_pos bits) in omega (arith, sum, div-eq_of_lt l)
