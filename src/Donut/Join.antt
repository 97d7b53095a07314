-- ===== src/Donut/Join.antt =====
-- A hash is put together again from its masked prefix and suffix.
use wedding_cake_cpp.Base.{
  ℕ, zero, suc, ◌+◌, ◌-◌, ◌*◌, ◌/◌, ◌%◌, ◌≤◌, ◌<◌, ◌≡◌, refl, sym, ap, subst, ◌∙◌, inl, inr, List,
  [], ◌∷◌, ◌++◌, Bool, true, false, nat_eq, bit_or, ltb, if◌then◌else◌, lt→ltb, Bool-cases, arith,
  length, take, drop, replicate, All, length-append, length-take, length-drop, length-set,
  take-append-drop, take_all, split_at, All-of-append, get_or-append, set-append, append_assoc,
  length-replicate,
}
use wedding_cake_cpp.Base.Bytes.{IsByte, write_at, write_at_end, write_at-replicate}
use wedding_cake_cpp.Types.{Hash}
use wedding_cake_cpp.Hash.{
  ms_prefix_bytes, ls_suffix_bytes, ms_prefix_bytes_masked, ls_suffix_bytes_masked, and_at,
}
use wedding_cake_cpp.Hash.Masks.{
  bit_or-masks, aligned_prefix, aligned_suffix, split_prefix, split_suffix,
}
use wedding_cake_cpp.Donut.{Calculator, hash_from_prefix_suffix}

-- The fields that the constructor derives, for a prefix that lies in the hash and in a uint8_t.
pub record IsValid (c : Calculator) : Type 0 where
  pub prefix_fits : c.prefix_bits_count ≤ c.hash_bytes_count * 8
  pub prefix_small : c.prefix_bits_count < 256
  pub suffix_bits : c.suffix_bits_count ≡ c.hash_bytes_count * 8 - c.prefix_bits_count
  pub prefix_bytes : c.prefix_bytes_count ≡ (c.prefix_bits_count + 7) / 8
  pub suffix_bytes : c.suffix_bytes_count ≡ (c.suffix_bits_count + 7) / 8

-- The bytes of the prefix above the shared one, copied if there are any.
high_bytes :
    (n q : ℕ) (xs hi : List ℕ)
    → length xs ≡ n
    → length hi ≡ q
    → (if ltb 1 (suc q) then write_at (xs ++ replicate q 0) n hi else xs ++ replicate q 0)
      ≡ xs ++ hi
high_bytes n zero xs hi hn hq = ap (λ (t : List ℕ). xs ++ t) (take_all 0 hi (omega arith))
high_bytes n (suc q) xs hi hn hq = rw (lt→ltb 1 (suc (suc q)) (omega arith)) (
    write_at_end n xs (replicate (suc q) 0) hi hn
      (omega (arith, length-replicate {A = ℕ} (suc q) 0)))

module _ (c : Calculator) (v : IsValid c) (q : ℕ) (lo hi : List ℕ) (hi_len : length hi ≡ q) where
  join_aligned :
      c.prefix_bits_count ≡ 8 * q
      → length lo + q ≡ c.hash_bytes_count
      → hash_from_prefix_suffix c hi lo ≡ lo ++ hi
  unfolding hash_from_prefix_suffix
  join_aligned bits n =
      let test : nat_eq (c.prefix_bits_count % 8) 0 ≡ true = ground arith in
      let pb : c.prefix_bytes_count ≡ q = omega arith in
      let sb : c.suffix_bytes_count ≡ length lo = omega arith in
      let start : c.hash_bytes_count - c.prefix_bytes_count ≡ length lo = omega arith in
      rw
        (
          test,
          start,
          pb,
          sb,
          ← n,
          take_all (length lo) lo (omega arith),
          take_all q hi (omega arith),
          write_at-replicate (length lo) q 0 lo refl,
        )
        (write_at_end (length lo) lo (replicate q 0) hi refl
          (omega (arith, length-replicate {A = ℕ} q 0)))

  join_split :
      (r m m' : ℕ)
      → c.prefix_bits_count ≡ 8 * q + r
      → 0 < r
      → r < 8
      → length lo + suc q ≡ c.hash_bytes_count
      → hash_from_prefix_suffix c (m' ∷ hi) (lo ++ (m ∷ [])) ≡ lo ++ (bit_or m m' ∷ hi)
  unfolding hash_from_prefix_suffix
  join_split r m m' bits r_pos r_lt n =
      let test : nat_eq (c.prefix_bits_count % 8) 0 ≡ false = ground arith in
      let pb : c.prefix_bytes_count ≡ suc q = omega arith in
      let len : length (lo ++ (m ∷ [])) ≡ suc (length lo) =
        omega (arith, length-append lo (m ∷ [])) in
      let sb : c.suffix_bytes_count ≡ suc (length lo) = omega arith in
      let n' : c.hash_bytes_count ≡ suc (length lo) + q = omega arith in
      let start : suc (length lo) + q - suc q ≡ length lo = omega arith in
      let next : length lo + 1 ≡ suc (length lo) = omega arith in
      let one_less : suc q - 1 ≡ q = omega arith in
      let high = high_bytes (suc (length lo)) q (lo ++ (m ∷ [])) hi len hi_len in
      let regroup : (lo ++ (m ∷ [])) ++ hi ≡ lo ++ (m ∷ hi) = append_assoc lo (m ∷ []) hi in
      rw (test, n', pb, sb, start, next, one_less)
        (rw
          (
            take_all (suc (length lo)) (lo ++ (m ∷ [])) (omega arith),
            take_all q hi (omega arith),
            write_at-replicate (suc (length lo)) q 0 (lo ++ (m ∷ [])) len,
          )
          (rw (high, regroup, get_or-append (length lo) lo m 0 hi refl)
            (set-append (length lo) lo m _ hi refl)))

length-masked :
    (test : Bool) (vec : List ℕ) (i mask : ℕ)
    → length (if test then and_at vec i mask else vec) ≡ length vec
length-masked true vec i mask = length-set vec i _
length-masked false vec i mask = refl

-- The lengths that a valid calculator gives the two parts of a hash.
module _ (c : Calculator) (v : IsValid c) (h : Hash) (len : length h ≡ c.hash_bytes_count) where
  pub length-ms_prefix_bytes_masked :
      length (ms_prefix_bytes_masked c.hash_bytes_count h c.prefix_bits_count)
      ≡ c.prefix_bytes_count
  unfolding ms_prefix_bytes_masked ms_prefix_bytes
  length-ms_prefix_bytes_masked =
      let n : ℕ = (c.prefix_bits_count + 7) / 8 in
      let start : ℕ = c.hash_bytes_count - n in
      length-masked _ (take n (drop start h)) _ _
      ∙ omega (arith, length-take n (drop start h), length-drop start h)

  pub length-ls_suffix_bytes_masked :
      length (ls_suffix_bytes_masked c.hash_bytes_count h c.prefix_bits_count)
      ≡ c.suffix_bytes_count
  unfolding ls_suffix_bytes_masked ls_suffix_bytes
  length-ls_suffix_bytes_masked =
      let n : ℕ = (c.hash_bytes_count * 8 - c.prefix_bits_count + 7) / 8 in
      length-masked _ (take n h) _ _ ∙ omega (arith, length-take n h)

-- A hash cut before its last `q` bytes, and around the byte before them.
abbrev Joins : Calculator → Hash → ℕ → Type 0
Joins c h bits =
    hash_from_prefix_suffix c (ms_prefix_bytes_masked c.hash_bytes_count h bits)
      (ls_suffix_bytes_masked c.hash_bytes_count h bits)
    ≡ h

Joins-aligned :
    (c : Calculator) (q : ℕ) (lo hi : List ℕ)
    → IsValid c
    → c.prefix_bits_count ≡ 8 * q
    → length lo + q ≡ c.hash_bytes_count
    → length hi ≡ q
    → Joins c (lo ++ hi) (8 * q)
Joins-aligned c q lo hi v bits n hl =
    rw (aligned_prefix c.hash_bytes_count q lo hi n hl)
      (rw (aligned_suffix c.hash_bytes_count q lo hi n hl) (join_aligned c v q lo hi hl bits n))

Joins-split :
    (c : Calculator) (q r b : ℕ) (lo hi : List ℕ)
    → IsValid c
    → c.prefix_bits_count ≡ 8 * q + r
    → 0 < r
    → r < 8
    → length lo + suc q ≡ c.hash_bytes_count
    → length hi ≡ q
    → IsByte b
    → Joins c (lo ++ (b ∷ hi)) (8 * q + r)
Joins-split c q r b lo hi v bits r_pos r_lt n hl byte =
    let e : 8 - (8 - r) ≡ r = omega arith in
    let whole = rw e at (bit_or-masks (8 - r) b (omega arith) byte) in
    rw (split_prefix c.hash_bytes_count q r b lo hi n hl r_pos r_lt) (
      rw (split_suffix c.hash_bytes_count q r b lo hi n hl r_pos r_lt)
        (join_split c v q lo hi hl r _ _ bits r_pos r_lt n ∙ ap (λ (t : ℕ). lo ++ (t ∷ hi)) whole))

module _ (c : Calculator) (h : Hash) (v : IsValid c) (len : length h ≡ c.hash_bytes_count)
    (bytes : All IsByte h) where
  Joins-whole : c.prefix_bits_count % 8 ≡ 0 → Joins c h c.prefix_bits_count
  Joins-whole r =
      let q : ℕ = c.prefix_bits_count / 8 in
      let k : ℕ = c.hash_bytes_count - q in
      let bits : c.prefix_bits_count ≡ 8 * q = omega arith in
      let e : h ≡ take k h ++ drop k h = sym (take-append-drop k h) in
      subst (λ (t : ℕ). Joins c h t) (sym bits)
        (subst (λ (t : Hash). Joins c t (8 * q)) (sym e)
          (Joins-aligned c q (take k h) (drop k h) v bits (omega (arith, length-take k h))
            (omega (arith, length-drop k h))))

  Joins-part : 0 < c.prefix_bits_count % 8 → Joins c h c.prefix_bits_count
  Joins-part r =
      let q : ℕ = c.prefix_bits_count / 8 in
      let bits : c.prefix_bits_count ≡ 8 * q + c.prefix_bits_count % 8 = omega arith in
      let (lo, b, hi, e, ll) = split_at (c.hash_bytes_count - suc q) h (omega arith) in
      let hl : length lo + suc (length hi) ≡ length h =
        omega (arith, ap length e, length-append lo (b ∷ hi)) in
      let byte : IsByte b = (All-of-append IsByte lo (b ∷ hi) (subst (All IsByte) e bytes)).1.0 in
      subst (λ (t : ℕ). Joins c h t) (sym bits)
        (subst (λ (t : Hash). Joins c t (8 * q + c.prefix_bits_count % 8)) (sym e)
          (Joins-split c q (c.prefix_bits_count % 8) b lo hi v bits r (omega arith) (omega arith)
            (omega arith) byte))

-- Cutting a hash of the right length into its masked prefix and its masked suffix and joining
-- the two gives the hash, for every count of prefix bits up to the length of the hash, those
-- that split a byte included.
pub hash_from_prefix_suffix-masked :
    (c : Calculator) (h : Hash)
    → IsValid c
    → length h ≡ c.hash_bytes_count
    → All IsByte h
    → hash_from_prefix_suffix c
        (ms_prefix_bytes_masked c.hash_bytes_count h c.prefix_bits_count)
        (ls_suffix_bytes_masked c.hash_bytes_count h c.prefix_bits_count)
      ≡ h
hash_from_prefix_suffix-masked c h v len bytes =
    elim (Bool-cases (nat_eq (c.prefix_bits_count % 8) 0)) [
      | inl whole ↦ Joins-whole c h v len bytes (ground arith)
      | inr part ↦ Joins-part c h v len bytes (ground arith)
    ]
