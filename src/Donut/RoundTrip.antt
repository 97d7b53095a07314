-- ===== src/Donut/RoundTrip.antt =====
-- The two entries of a hash together give back the hash and its place.
use wedding_cake_cpp.Base.{
  ℕ, zero, suc, ◌+◌, ◌-◌, ◌*◌, ◌/◌, ◌^◌, ◌≤◌, ◌<◌, ◌≡◌, refl, subst, List, [], ◌++◌, Bool, false,
  nat_eq, nat_eq_iff, le→leb, Bool-cases, inl, inr, arith, length, replicate, All, length-append,
  length-replicate, drop_all, some, Result, ok, ◌>>=◌,
}
use wedding_cake_cpp.Base.Bytes.{IsByte, IsU64, to_le, pow_bytes, length-to_le}
use wedding_cake_cpp.Types.{Hash, GlobalPi, LocalPi, sub_base}
use wedding_cake_cpp.Donut.{
  Calculator, bit_width_fuel, bit_width, calculate_bytes_per_local_pi, new_calculator,
  hashes_order_entry_size, suffixes_entry_size, hashes_order_file_entry, suffixes_file_entry,
  read_hashes_order_entry_from_bytes, read_ls_suffixes_entry_from_bytes, hash_from_prefix_suffix,
}
use wedding_cake_cpp.Donut.Join.{
  IsValid, hash_from_prefix_suffix-masked, length-ms_prefix_bytes_masked,
}
use wedding_cake_cpp.Donut.Entries.{
  prefix_part, write_hashes_order_file_entry-some, write_suffixes_file_entry-some,
  read_hashes_order_entry-some, read_ls_suffixes_entry-some,
}
use native.Mathlib.Nat.{pow-suc, pow-le-pow_right}

bit_width_fuel-zero : (fuel : ℕ) → bit_width_fuel fuel 0 ≡ 0
unfolding bit_width_fuel
bit_width_fuel-zero zero = refl
bit_width_fuel-zero (suc fuel) = refl

bit_width_fuel_bounds :
    (fuel n : ℕ)
    → n < 2 ^ fuel
    → 0 < n
    → (n < 2 ^ bit_width_fuel fuel n)
      × (2 ^ bit_width_fuel fuel n ≤ 2 * n)
      × (bit_width_fuel fuel n ≤ fuel)
unfolding bit_width_fuel
bit_width_fuel_bounds zero n h pos = absurd (omega arith)
bit_width_fuel_bounds (suc fuel) n h pos =
    let test : nat_eq n 0 ≡ false = ground arith in
    let w : ℕ = bit_width_fuel fuel (n / 2) in
    rw test (elim (Bool-cases (nat_eq (n / 2) 0)) [
      | inl e ↦
          let one : n / 2 ≡ 0 = (nat_eq_iff (n / 2) 0).0 e in
          rw (one, bit_width_fuel-zero fuel) (omega arith)
      | inr e ↦
          let (lo, hi, small) =
            bit_width_fuel_bounds fuel (n / 2) (omega (arith, pow-suc 2 fuel)) (ground arith) in
          (omega (arith, pow-suc 2 w), omega (arith, pow-suc 2 w), omega arith)
    ])

bit_width_bounds :
    (n : ℕ)
    → IsU64 n
    → 0 < n
    → (n < 2 ^ bit_width n) × (2 ^ bit_width n ≤ 2 * n) × (bit_width n ≤ 64)
bit_width_bounds n h pos = unfold bit_width in bit_width_fuel_bounds 64 n h pos

-- For a capacity above zero that fits 64 bits the count of bytes of a local index is between 1
-- and 8 and is the least whose values reach the capacity, so that every local index stays below
-- the all-ones pattern.
pub calculate_bytes_per_local_pi_least :
    (entries : ℕ)
    → 0 < entries
    → IsU64 entries
    → (b : ℕ) × (calculate_bytes_per_local_pi entries ≡ ok b)
      × (1 ≤ b)
      × (b ≤ 8)
      × (entries < 256 ^ b)
      × (256 ^ (b - 1) ≤ entries)
unfolding calculate_bytes_per_local_pi
calculate_bytes_per_local_pi_least entries pos fits =
    let w : ℕ = bit_width entries in
    let b : ℕ = (w + 7) / 8 in
    let (lo, hi, small) = bit_width_bounds entries fits pos in
    let w_pos : 0 < w = width_pos w lo in
    let test : nat_eq entries 0 ≡ false = ground arith in
    let up : 2 ^ w ≤ 2 ^ (8 * b) = pow-le-pow_right (omega arith) (omega arith) in
    let down : 2 ^ (8 * (b - 1)) ≤ 2 ^ (w - 1) = pow-le-pow_right (omega arith) (omega arith) in
    let e : suc (w - 1) ≡ w = omega arith in
    let half : 2 ^ w ≡ 2 ^ (w - 1) * 2 =
      subst (λ (t : ℕ). 2 ^ t ≡ 2 ^ (w - 1) * 2) e (pow-suc 2 (w - 1)) in
    (
      b,
      rw (test, le→leb b 8 (omega arith)) refl,
      omega arith,
      omega arith,
      omega (arith, pow_bytes b),
      omega (arith, pow_bytes (b - 1)),
    )
  where
    width_pos : (w : ℕ) → entries < 2 ^ w → 0 < w
    width_pos zero h = omega arith
    width_pos (suc w) h = omega arith

-- What the constructor makes.
pub new_calculator-IsValid :
    (n bits : ℕ) (first : GlobalPi) (entries b : ℕ)
    → bits ≤ n * 8
    → bits < 256
    → calculate_bytes_per_local_pi entries ≡ ok b
    → (c : Calculator) × (new_calculator n bits first entries ≡ ok c)
      × IsValid c
      × (c.hash_bytes_count ≡ n)
      × (c.prefix_bits_count ≡ bits)
      × (c.first_global_pi ≡ first)
      × (c.entries_per_donut ≡ entries)
      × (c.bytes_per_local_pi ≡ b)
unfolding new_calculator
new_calculator-IsValid n bits first entries b fits small e = (
  record {
    hash_bytes_count = n;
    prefix_bits_count = bits;
    suffix_bits_count = n * 8 - bits;
    prefix_bytes_count = (bits + 7) / 8;
    suffix_bytes_count = (n * 8 - bits + 7) / 8;
    first_global_pi = first;
    entries_per_donut = entries;
    bytes_per_local_pi = b;
  },
  rw e refl,
  omega arith,
  refl,
  refl,
  refl,
  refl,
  refl,
)

-- The two entries of a hash, read and joined as hydration does it.
pub read_back : Calculator → ℕ → List ℕ → List ℕ → Result (Hash × LocalPi × ℕ × Bool)
read_back c k order_bytes suffix_bytes = do
  order ← read_hashes_order_entry_from_bytes c order_bytes k
  suffix ← read_ls_suffixes_entry_from_bytes c suffix_bytes
  ok (
    hash_from_prefix_suffix c order.ms_prefix_bytes suffix.ls_suffix_bytes,
    suffix.local_pi,
    order.suffixes_file_index,
    order.is_sentinel,
  )

-- For a calculator that the constructor can make, writing the two entries of a hash of the right
-- length and reading them back gives the hash, its local index and its suffix index, and no
-- sentinel, when the suffix index is below the all-ones value of its field and the local index
-- fits its field.
pub read_back_written :
    (c : Calculator) (h : Hash) (pi : GlobalPi) (index k : ℕ)
    → IsValid c
    → length h ≡ c.hash_bytes_count
    → All IsByte h
    → k ≤ 8
    → index + 1 < 256 ^ k
    → (sub_base pi c.first_global_pi).value < 256 ^ c.bytes_per_local_pi
    → (do
      order_bytes ← hashes_order_file_entry c (some h) index k
      suffix_bytes ← suffixes_file_entry c h pi
      read_back c k order_bytes suffix_bytes)
      ≡ ok (h, sub_base pi c.first_global_pi, index, false)
unfolding hashes_order_file_entry suffixes_file_entry read_back
read_back_written c h pi index k v len bytes hk fits local_fits =
    let n : ℕ = hashes_order_entry_size c k in
    let m : ℕ = suffixes_entry_size c in
    let local : ℕ = (sub_base pi c.first_global_pi).value in
    let ln = length-replicate {A = ℕ} n 0 in
    let lm = length-replicate {A = ℕ} m 0 in
    let prefix : List ℕ = prefix_part c v h len in
    let written : n ≡ length (prefix ++ (to_le k index ++ [])) = omega (
      arith,
      length-append prefix (to_le k index ++ []),
      length-append (to_le k index) [],
      length-to_le k index,
      length-ms_prefix_bytes_masked c v h len,
    ) in
    let whole = (nat_eq_iff n _).1 written in
    rw
      (
        write_hashes_order_file_entry-some c v h len index k (replicate n 0) hk fits (omega arith),
        write_suffixes_file_entry-some c v h len pi (replicate m 0) (omega arith),
        drop_all n (replicate {A = ℕ} n 0) (omega arith),
        drop_all m (replicate {A = ℕ} m 0) (omega arith),
      )
      (rw
        (
          whole,
          read_hashes_order_entry-some c v h len index k [] fits,
          read_ls_suffixes_entry-some c v h len local [] local_fits,
          hash_from_prefix_suffix-masked c h v len bytes,
        )
        refl)
