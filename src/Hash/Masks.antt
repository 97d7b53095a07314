-- ===== src/Hash/Masks.antt =====
-- Cutting a hash in two, and what the masks keep of the byte that both parts share.
use wedding_cake_cpp.Base.{
  ℕ, zero, suc, ◌+◌, ◌-◌, ◌*◌, ◌≤◌, ◌<◌, ◌≡◌, refl, sym, List, [], ◌∷◌, ◌++◌, Bool, true, ◌&&◌,
  nat_eq, nat_eq_iff, ltb, lt→ltb, bit_and, bit_or, arith, length, take-append, drop-append,
  set-append, get_or-append, length-append, take_all, append_assoc,
}
use wedding_cake_cpp.Hash.{
  prefix_bytes_count, suffix_bytes_count, high_mask, low_mask, ms_prefix_bytes, ls_suffix_bytes,
  ms_prefix_bytes_masked, ls_suffix_bytes_masked,
}

every_below : (ℕ → Bool) → ℕ → Bool
every_below test zero = true
every_below test (suc bound) = every_below test bound && test bound

every_below-test :
    (test : ℕ → Bool) (bound i : ℕ) → i < bound → every_below test bound ≡ true → test i ≡ true
unfolding every_below
every_below-test test zero i below h = absurd (omega arith)
every_below-test test (suc bound) i below h = ground (arith, every_below-test test bound i)

-- The two masked copies of a byte make up the byte, for each number of bits cut off.
joins : ℕ → ℕ → Bool
joins z b = nat_eq (bit_or (bit_and b (low_mask (8 - z))) (bit_and b (high_mask z))) b

mask_table : every_below (λ z. every_below (joins z) 256) 9 ≡ true
unfolding every_below joins
mask_table = refl

pub bit_or-masks :
    (z b : ℕ)
    → z ≤ 8
    → b < 256
    → bit_or (bit_and b (low_mask (8 - z))) (bit_and b (high_mask z)) ≡ b
unfolding joins
bit_or-masks z b hz hb = (nat_eq_iff _ b).0 (
    every_below-test (joins z) 256 b hb
      (every_below-test (λ z. every_below (joins z) 256) 9 z (omega arith) mask_table))

-- A prefix of whole bytes: nothing is masked.
module _ (n q : ℕ) (lo hi : List ℕ) (lo_len : length lo + q ≡ n) (hi_len : length hi ≡ q) where
  pub aligned_prefix : ms_prefix_bytes_masked n (lo ++ hi) (8 * q) ≡ hi
  unfolding ms_prefix_bytes_masked ms_prefix_bytes
  aligned_prefix =
      let pb : prefix_bytes_count (8 * q) ≡ q = omega arith in
      let off : n - q ≡ length lo = omega arith in
      let zb : q * 8 - 8 * q ≡ 0 = omega arith in
      rw (pb, off, zb) (rw (drop-append (length lo) lo hi refl) (take_all q hi (omega arith)))

  pub aligned_suffix : ls_suffix_bytes_masked n (lo ++ hi) (8 * q) ≡ lo
  unfolding ls_suffix_bytes_masked ls_suffix_bytes
  aligned_suffix =
      let sb : suffix_bytes_count n (8 * q) ≡ length lo = omega arith in
      let zb : length lo * 8 - (n * 8 - 8 * q) ≡ 0 = omega arith in
      rw sb (rw (take-append (length lo) lo hi refl) (rw zb refl))

-- A prefix that ends `r` bits into the byte `b`.
module _ (n q r b : ℕ) (lo hi : List ℕ) (lo_len : length lo + suc q ≡ n) (hi_len : length hi ≡ q)
    (r_pos : 0 < r) (r_lt : r < 8) where
  pub split_prefix :
      ms_prefix_bytes_masked n (lo ++ (b ∷ hi)) (8 * q + r) ≡ bit_and b (high_mask (8 - r)) ∷ hi
  unfolding ms_prefix_bytes_masked ms_prefix_bytes
  split_prefix =
      let pb : prefix_bytes_count (8 * q + r) ≡ suc q = omega arith in
      let off : n - suc q ≡ length lo = omega arith in
      let zb : suc q * 8 - (8 * q + r) ≡ 8 - r = omega arith in
      let test : ltb 0 (8 - r) ≡ true = lt→ltb 0 (8 - r) (omega arith) in
      rw (pb, off, zb)
        (rw (drop-append (length lo) lo (b ∷ hi) refl)
          (rw (take_all q hi (omega arith), test) refl))

  last_byte : (suffix_bytes_count n (8 * q + r)) ≡ length (lo ++ (b ∷ []))
  last_byte = omega (arith, length-append lo (b ∷ []))

  pub split_suffix :
      ls_suffix_bytes_masked n (lo ++ (b ∷ hi)) (8 * q + r) ≡ lo ++ (bit_and b (low_mask r) ∷ [])
  unfolding ls_suffix_bytes_masked ls_suffix_bytes
  split_suffix =
      let regroup : lo ++ (b ∷ hi) ≡ (lo ++ (b ∷ [])) ++ hi = sym (append_assoc lo (b ∷ []) hi) in
      let len : length (lo ++ (b ∷ [])) ≡ suc (length lo) =
        omega (arith, length-append lo (b ∷ [])) in
      let zb : suc (length lo) * 8 - (n * 8 - (8 * q + r)) ≡ r = omega arith in
      let last : suc (length lo) - 1 ≡ length lo = omega arith in
      rw (last_byte, regroup)
        (rw (take-append (length (lo ++ (b ∷ []))) (lo ++ (b ∷ [])) hi refl) (
          rw (len, zb, last, lt→ltb 0 r r_pos)
            (rw (get_or-append (length lo) lo b 0 [] refl)
              (set-append (length lo) lo b _ [] refl))))
