-- ===== src/Donut/Entries.antt =====
-- What the entry writers write, and that the entry readers read it back.
use wedding_cake_cpp.Base.{
  ℕ, zero, suc, ◌+◌, ◌%◌, ◌^◌, ◌≤◌, ◌<◌, ◌≡◌, refl, ap, List, [], ◌∷◌, ◌++◌, true, false, le→leb,
  Bool-cases, inl, inr, arith, length, take, drop, replicate, length-append, take_all, take-append,
  drop-append, drop-append_more, drop-drop, length-replicate, append_assoc, none, some, ok,
}
use wedding_cake_cpp.Base.Bytes.{u64_max, to_le, from_le, write_at, length-to_le, from_le-to_le}
use wedding_cake_cpp.Types.{Hash, GlobalPi, sub_base}
use wedding_cake_cpp.Hash.{ms_prefix_bytes_masked, ls_suffix_bytes_masked}
use wedding_cake_cpp.Donut.{
  Calculator, all_ones, hashes_order_entry_size, suffixes_entry_size, write_hashes_order_file_entry,
  write_suffixes_file_entry, read_hashes_order_entry_from_bytes, read_ls_suffixes_entry_from_bytes,
}
use wedding_cake_cpp.Donut.Join.{
  IsValid, length-ms_prefix_bytes_masked, length-ls_suffix_bytes_masked,
}
use native.Mathlib.Nat.{pow-suc, mod-eq_of_lt, zero-add}

all_ones→eq : (bs : List ℕ) → all_ones bs ≡ true → from_le bs + 1 ≡ 256 ^ length bs
unfolding all_ones from_le
all_ones→eq [] h = refl
all_ones→eq (b ∷ bs) h = ground (arith, all_ones→eq bs, pow-suc 256 (length bs))

-- A value below the all-ones pattern is not taken for it.
pub all_ones-to_le : (k v : ℕ) → v + 1 < 256 ^ k → all_ones (to_le k v) ≡ false
all_ones-to_le k v h = elim (Bool-cases (all_ones (to_le k v))) [
  | inl e ↦ absurd (
      omega (
        arith,
        all_ones→eq (to_le k v) e,
        from_le-to_le k v (omega arith),
        ap (λ (t : ℕ). 256 ^ t) (length-to_le k v),
      ))
  | inr e ↦ e
]

all_ones-replicate : (n : ℕ) → all_ones (replicate n 0xff) ≡ true
unfolding all_ones
all_ones-replicate zero = refl
all_ones-replicate (suc n) = all_ones-replicate n

all_ones-append : (xs ys : List ℕ) → all_ones ys ≡ false → all_ones (xs ++ ys) ≡ false
unfolding all_ones
all_ones-append [] ys h = h
all_ones-append (x ∷ xs) ys h = ground (arith, all_ones-append xs ys h)

-- Two writes side by side at the start of a buffer.
write_two :
    (buffer xs ys : List ℕ) (m n : ℕ)
    → length xs ≡ m
    → length ys ≡ n
    → write_at (write_at buffer 0 xs) m ys ≡ xs ++ (ys ++ drop (m + n) buffer)
unfolding write_at
write_two buffer xs ys m n hx hy =
    rw (zero-add, hx, hy)
      (rw (take-append m xs (drop m buffer) hx, drop-append_more m n xs (drop m buffer) hx)
        (rw (drop-drop m n buffer) refl))

module _ (c : Calculator) (v : IsValid c) where
  small : c.prefix_bits_count % 256 ≡ c.prefix_bits_count
  small = mod-eq_of_lt v.prefix_small

  module _ (h : Hash) (len : length h ≡ c.hash_bytes_count) where
    abbrev pub prefix_part : List ℕ
    prefix_part = ms_prefix_bytes_masked c.hash_bytes_count h c.prefix_bits_count

    abbrev pub suffix_part : List ℕ
    suffix_part = ls_suffix_bytes_masked c.hash_bytes_count h c.prefix_bits_count

    -- A hash is recorded as its masked prefix and the suffix index, over the start of the buffer.
    pub write_hashes_order_file_entry-some :
        (index k : ℕ) (buffer : List ℕ)
        → k ≤ 8
        → index + 1 < 256 ^ k
        → hashes_order_entry_size c k ≤ length buffer
        → write_hashes_order_file_entry c (some h) index k buffer
          ≡ ok (
            hashes_order_entry_size c k,
            prefix_part ++ (to_le k index ++ drop (hashes_order_entry_size c k) buffer),
          )
    unfolding write_hashes_order_file_entry
    write_hashes_order_file_entry-some index k buffer hk fits room =
        let lp = length-ms_prefix_bytes_masked c v h len in
        let all = take_all c.prefix_bytes_count prefix_part (omega arith) in
        let two =
          write_two buffer prefix_part (to_le k index) c.prefix_bytes_count k lp
            (length-to_le k index) in
        let field =
          take-append k (to_le k index) (drop (c.prefix_bytes_count + k) buffer)
            (length-to_le k index) in
        rw (le→leb _ _ room, le→leb _ _ hk, small, all, two)
          (rw
            (drop-append c.prefix_bytes_count prefix_part _ lp, field, all_ones-to_le k index fits)
            refl)

    pub write_suffixes_file_entry-some :
        (pi : GlobalPi) (buffer : List ℕ)
        → suffixes_entry_size c ≤ length buffer
        → write_suffixes_file_entry c (some h) pi buffer
          ≡ ok (
            suffixes_entry_size c,
            suffix_part
                ++ (to_le c.bytes_per_local_pi (sub_base pi c.first_global_pi).value
                    ++ drop (suffixes_entry_size c) buffer),
          )
    unfolding write_suffixes_file_entry
    write_suffixes_file_entry-some pi buffer room =
        let local : ℕ = (sub_base pi c.first_global_pi).value in
        let ls = length-ls_suffix_bytes_masked c v h len in
        let all = take_all c.suffix_bytes_count suffix_part (omega arith) in
        rw (le→leb _ _ room, small, all)
          (ap (λ (t : List ℕ). ok (suffixes_entry_size c, t))
            (write_two buffer suffix_part (to_le c.bytes_per_local_pi local) c.suffix_bytes_count
              c.bytes_per_local_pi ls (length-to_le c.bytes_per_local_pi local)))

    -- Reading at the start of a span that holds an entry, whatever follows.
    pub read_hashes_order_entry-some :
        (index k : ℕ) (rest : List ℕ)
        → index + 1 < 256 ^ k
        → read_hashes_order_entry_from_bytes c (prefix_part ++ (to_le k index ++ rest)) k
          ≡ ok (record {
            ms_prefix_bytes = prefix_part;
            suffixes_file_index = index;
            is_sentinel = false;
          })
    unfolding read_hashes_order_entry_from_bytes
    read_hashes_order_entry-some index k rest fits =
        let lp = length-ms_prefix_bytes_masked c v h len in
        let lk = length-to_le k index in
        let room : c.prefix_bytes_count + k ≤ length (prefix_part ++ (to_le k index ++ rest)) =
          omega (
            arith,
            length-append prefix_part (to_le k index ++ rest),
            length-append (to_le k index) rest,
          ) in
        let whole : take (c.prefix_bytes_count + k) (prefix_part ++ (to_le k index ++ rest))
            ≡ prefix_part ++ to_le k index =
          rw (← append_assoc prefix_part (to_le k index) rest) (
            take-append (c.prefix_bytes_count + k) (prefix_part ++ to_le k index) rest
              (omega (arith, length-append prefix_part (to_le k index)))) in
        rw
          (
            le→leb _ _ room,
            whole,
            all_ones-append prefix_part (to_le k index) (all_ones-to_le k index fits),
            drop-append c.prefix_bytes_count prefix_part (to_le k index ++ rest) lp,
            take-append c.prefix_bytes_count prefix_part (to_le k index ++ rest) lp,
            take-append k (to_le k index) rest lk,
            from_le-to_le k index (omega arith),
          )
          refl

    pub read_ls_suffixes_entry-some :
        (local : ℕ) (rest : List ℕ)
        → local < 256 ^ c.bytes_per_local_pi
        → read_ls_suffixes_entry_from_bytes c
            (suffix_part ++ (to_le c.bytes_per_local_pi local ++ rest))
          ≡ ok (record { ls_suffix_bytes = suffix_part; local_pi = record { value = local } })
    unfolding read_ls_suffixes_entry_from_bytes
    read_ls_suffixes_entry-some local rest fits =
        let k : ℕ = c.bytes_per_local_pi in
        let ls = length-ls_suffix_bytes_masked c v h len in
        let lk = length-to_le k local in
        let room : suffixes_entry_size c ≤ length (suffix_part ++ (to_le k local ++ rest)) = omega (
          arith,
          length-append suffix_part (to_le k local ++ rest),
          length-append (to_le k local) rest,
        ) in
        rw
          (
            le→leb _ _ room,
            drop-append c.suffix_bytes_count suffix_part (to_le k local ++ rest) ls,
            take-append c.suffix_bytes_count suffix_part (to_le k local ++ rest) ls,
            take-append k (to_le k local) rest lk,
            from_le-to_le k local fits,
          )
          refl

-- Where there is no hash, the entry of HashesOrder.bin is all ones over the start of the buffer.
pub write_hashes_order_file_entry-none :
    (c : Calculator) (index k : ℕ) (buffer : List ℕ)
    → k ≤ 8
    → hashes_order_entry_size c k ≤ length buffer
    → write_hashes_order_file_entry c none index k buffer
      ≡ ok (
        hashes_order_entry_size c k,
        replicate (hashes_order_entry_size c k) 0xff ++ drop (hashes_order_entry_size c k) buffer,
      )
unfolding write_hashes_order_file_entry write_at
write_hashes_order_file_entry-none c index k buffer hk room =
    rw (le→leb _ _ room, le→leb _ _ hk)
      (rw (zero-add, length-replicate {A = ℕ} (c.prefix_bytes_count + k) 0xff) refl)

pub read_hashes_order_entry-none :
    (c : Calculator) (k : ℕ) (rest : List ℕ)
    → read_hashes_order_entry_from_bytes c (replicate (hashes_order_entry_size c k) 0xff ++ rest) k
      ≡ ok (record {
        ms_prefix_bytes =
            take c.prefix_bytes_count (replicate (hashes_order_entry_size c k) 0xff ++ rest);
        suffixes_file_index = u64_max;
        is_sentinel = true;
      })
unfolding read_hashes_order_entry_from_bytes
read_hashes_order_entry-none c k rest =
    let n : ℕ = c.prefix_bytes_count + k in
    let ln = length-replicate {A = ℕ} n 0xff in
    let room : n ≤ length (replicate n 0xff ++ rest) =
      omega (arith, length-append (replicate n 0xff) rest) in
    rw (le→leb _ _ room, take-append n (replicate n 0xff) rest ln, all_ones-replicate n) refl
