-- ===== src/Base/Bytes.antt =====
-- Bytes and the little-endian layout of unsigned integers.
use Prim.Native.Nat.{ℕ, zero, suc, ◌+◌, ◌*◌, ◌/◌, ◌%◌, ◌^◌, ◌<◌}
use mathlib.Core.Path.{sym, ◌≡◌, refl, ap}
use mathlib.Core.List.{List, [], ◌∷◌, ◌++◌, append-nil, append_assoc}
use native.Mathlib.Omega.{arith}
use native.Mathlib.Nat.{pow-suc, pow-zero, zero-add}
use wedding_cake_cpp.Base.Lists.{
  length, take, drop, All, replicate, length-append, take-append, drop-append, drop_all,
}

abbrev pub IsByte : ℕ → Type 0
IsByte b = b < 256

abbrev pub IsU64 : ℕ → Type 0
IsU64 v = v < 2 ^ 64

-- ~0ULL and numeric_limits<uint64_t>::max().
abbrev pub u64_max : ℕ
u64_max = 0xffff_ffff_ffff_ffff

-- The first n bytes of an integer in memory, on a little-endian machine.
unfoldable pub to_le : ℕ → ℕ → List ℕ
to_le zero v = []
to_le (suc n) v = (v % 256) ∷ to_le n (v / 256)

-- The integer that zeroed memory holds after these bytes are copied to its start.
unfoldable pub from_le : List ℕ → ℕ
from_le [] = 0
from_le (b ∷ bs) = b + 256 * from_le bs

-- `std::memcpy(dst + offset, src, src.size())`, where it stays inside `dst`.
unfoldable pub write_at : List ℕ → ℕ → List ℕ → List ℕ
write_at dst offset src = take offset dst ++ (src ++ drop (offset + length src) dst)

pub length-to_le : (n v : ℕ) → length (to_le n v) ≡ n
unfolding to_le
length-to_le zero v = refl
length-to_le (suc n) v = ap suc (length-to_le n (v / 256))

pub to_le-IsByte : (n v : ℕ) → All IsByte (to_le n v)
unfolding to_le
to_le-IsByte zero v = tt
to_le-IsByte (suc n) v = (omega arith, to_le-IsByte n (v / 256))

-- Reading back what was written, when it fits.
pub from_le-to_le : (n v : ℕ) → v < 256 ^ n → from_le (to_le n v) ≡ v
unfolding to_le from_le
from_le-to_le zero v h = omega (arith, pow-zero 256)
from_le-to_le (suc n) v h =
    omega (arith, pow-suc 256 n, from_le-to_le n (v / 256) (omega (arith, pow-suc 256 n)))

pub from_le-lt : (bs : List ℕ) → All IsByte bs → from_le bs < 256 ^ length bs
unfolding from_le
from_le-lt [] h = omega arith
from_le-lt (b ∷ bs) h = omega (arith, pow-suc 256 (length bs), from_le-lt bs h.1)

pub to_le-from_le : (bs : List ℕ) → All IsByte bs → to_le (length bs) (from_le bs) ≡ bs
unfolding to_le from_le
to_le-from_le [] h = refl
to_le-from_le (b ∷ bs) h =
    let lo : (b + 256 * from_le bs) % 256 ≡ b = omega (arith, h.0) in
    let hi : (b + 256 * from_le bs) / 256 ≡ from_le bs = omega (arith, h.0) in
    rw (lo, hi) (ap (◌∷◌ b) (to_le-from_le bs h.1))

-- The bytes behind the first are the quotient.
pub from_le-append :
    (xs ys : List ℕ) → from_le (xs ++ ys) ≡ from_le xs + 256 ^ length xs * from_le ys
unfolding from_le
from_le-append [] ys = omega arith
from_le-append (x ∷ xs) ys =
    omega (arith, from_le-append xs ys, ap (λ (t : ℕ). t * from_le ys) (pow-suc 256 (length xs)))

pub pow-add : (b m n : ℕ) → b ^ (m + n) ≡ b ^ m * b ^ n
pow-add b zero n = rw (zero-add, pow-zero) (omega arith)
pow-add b (suc m) n =
    let e : suc m + n ≡ suc (m + n) = omega arith in
    rw e (
      omega (
        arith,
        pow-suc b (m + n),
        ap (λ (t : ℕ). t * b) (pow-add b m n),
        ap (λ (t : ℕ). t * b ^ n) (pow-suc b m),
      ))

pub pow_bytes : (n : ℕ) → 256 ^ n ≡ 2 ^ (8 * n)
pow_bytes zero = refl
pow_bytes (suc n) =
    let e : 8 * suc n ≡ 8 * n + 8 = omega arith in
    rw (e, pow-add 2 (8 * n) 8) (omega (arith, pow-suc 256 n, pow_bytes n))

-- Copying over a stretch of the same length.
pub write_at-append :
    (n : ℕ) (xs ys zs ws : List ℕ)
    → length xs ≡ n
    → length ys ≡ length zs
    → write_at (xs ++ (ys ++ ws)) n zs ≡ xs ++ (zs ++ ws)
unfolding write_at
write_at-append n xs ys zs ws hx hy =
    let regroup : xs ++ (ys ++ ws) ≡ (xs ++ ys) ++ ws = sym (append_assoc xs ys ws) in
    let rest : drop (n + length zs) (xs ++ (ys ++ ws)) ≡ ws =
      rw regroup (drop-append (n + length zs) (xs ++ ys) ws (omega (arith, length-append xs ys))) in
    rw (take-append n xs (ys ++ ws) hx, rest) refl

-- The same at the end of the buffer, and over the whole of it.
pub write_at_end :
    (n : ℕ) (xs ys zs : List ℕ)
    → length xs ≡ n
    → length ys ≡ length zs
    → write_at (xs ++ ys) n zs ≡ xs ++ zs
unfolding write_at
write_at_end n xs ys zs hx hy =
    rw
      (
        take-append n xs ys hx,
        drop_all (n + length zs) (xs ++ ys) (omega (arith, length-append xs ys)),
      )
      (rw append-nil refl)

pub drop-replicate {ℓ} :
    {A : Type ℓ} (k m : ℕ) (a : A) → drop k (replicate (k + m) a) ≡ replicate m a
drop-replicate zero m a = rw zero-add refl
drop-replicate (suc k) m a =
    let e : suc k + m ≡ suc (k + m) = omega arith in rw e (drop-replicate k m a)

pub write_at-replicate :
    (k m a : ℕ) (xs : List ℕ)
    → length xs ≡ k
    → write_at (replicate (k + m) a) 0 xs ≡ xs ++ replicate m a
unfolding write_at
write_at-replicate k m a xs h =
    ap (λ (t : List ℕ). xs ++ t) (rw (h, zero-add) (drop-replicate k m a))
