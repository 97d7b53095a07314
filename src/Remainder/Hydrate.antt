-- ===== src/Remainder/Hydrate.antt =====
-- Hydration reads back the items whose entries the two files hold.
use wedding_cake_cpp.Base.{
  ℕ, suc, ◌+◌, ◌^◌, ◌≤◌, ◌<◌, ◌≡◌, refl, sym, List, [], ◌∷◌, ◌++◌, false, none, some, le→leb,
  nat_eq_iff, length, All, take-append, drop-append, length-append, append-nil, append_assoc,
  nat_Eq, string_Eq, list_Eq, ok, arith,
}
use wedding_cake_cpp.Base.Bytes.{to_le, length-to_le}
use wedding_cake_cpp.Base.Dict.{insert}
use wedding_cake_cpp.Types.{Hash, LocalPi}
use wedding_cake_cpp.Donut.{
  Calculator, hashes_order_entry_size, suffixes_entry_size, read_hashes_order_entry_from_bytes,
  read_ls_suffixes_entry_from_bytes, hash_from_prefix_suffix,
}
use wedding_cake_cpp.Donut.Join.{hash_from_prefix_suffix-masked}
use wedding_cake_cpp.Donut.Entries.{
  read_hashes_order_entry-some, read_ls_suffixes_entry-some, read_hashes_order_entry-none,
}
use wedding_cake_cpp.Remainder.{
  HashItem, insert_hashes, hydrate_hash, hydrate_entry, hydrate_entries,
}
use wedding_cake_cpp.Remainder.Files.{
  IsHash, IsItem, count_hashes, order_bytes, suffix_bytes, IsIngester, no_prefix_part,
  whole_suffix_part,
}
use native.Mathlib.Nat.{add-zero}

module _ (c : Calculator) (v : IsIngester c) where
  pub two_bytes : hashes_order_entry_size c 2 ≡ 2
  two_bytes = omega (arith, v.no_prefix, v.valid.prefix_bytes)

  read_order :
      (h : Hash) (index : ℕ)
      → IsHash c.hash_bytes_count h
      → index < 65535
      → read_hashes_order_entry_from_bytes c (to_le 2 index) 2
        ≡ ok (record { ms_prefix_bytes = []; suffixes_file_index = index; is_sentinel = false })
  read_order h index p small =
      let e = read_hashes_order_entry-some c v.valid h p.0 index 2 [] (omega arith) in
      rw (no_prefix_part c v h p, append-nil) at e

  read_suffix :
      (h : Hash) (local : ℕ)
      → IsHash c.hash_bytes_count h
      → local < 256 ^ c.bytes_per_local_pi
      → read_ls_suffixes_entry_from_bytes c (h ++ to_le c.bytes_per_local_pi local)
        ≡ ok (record { ls_suffix_bytes = h; local_pi = record { value = local } })
  read_suffix h local p small =
      let e = read_ls_suffixes_entry-some c v.valid h p.0 local [] small in
      rw (whole_suffix_part c v h p, append-nil) at e

  entry_length :
      (h : Hash) (local : ℕ)
      → IsHash c.hash_bytes_count h
      → length (h ++ to_le c.bytes_per_local_pi local) ≡ suffixes_entry_size c
  entry_length h local p = omega (
    arith,
    length-append h (to_le c.bytes_per_local_pi local),
    length-to_le c.bytes_per_local_pi local,
    p.0,
    v.valid.suffix_bytes,
    v.valid.suffix_bits,
    v.no_prefix,
  )

  join : (h : Hash) → IsHash c.hash_bytes_count h → hash_from_prefix_suffix c [] h ≡ h
  join h p =
      let e = hash_from_prefix_suffix-masked c h v.valid p.0 p.1 in
      rw (no_prefix_part c v h p, whole_suffix_part c v h p) at e

  hydrate_some :
      (h : Hash) (order suffix : List ℕ) (local next : ℕ) (vec : List HashItem)
      (m : List (Hash × LocalPi))
      → IsHash c.hash_bytes_count h
      → local < 256 ^ c.bytes_per_local_pi
      → next < 65535
      → hydrate_entry c 2 (record {
        order_stream = to_le 2 next ++ order;
        suffix_stream = (h ++ to_le c.bytes_per_local_pi local) ++ suffix;
        vector = vec;
        reverse_map = m;
        expected_next_suffix_index = next;
      })
        ≡ ok (record {
          order_stream = order;
          suffix_stream = suffix;
          vector = vec ++ (some h ∷ []);
          reverse_map = insert h (record { value = length vec }) m;
          expected_next_suffix_index = next + 1;
        })
  unfolding hydrate_entry hydrate_hash
  hydrate_some h order suffix local next vec m p small_local small =
      let n : ℕ = suffixes_entry_size c in
      let entry : List ℕ = h ++ to_le c.bytes_per_local_pi local in
      let lo = length-to_le 2 next in
      let le = entry_length h local p in
      let room : 2 ≤ length (to_le 2 next ++ order) =
        omega (arith, length-append (to_le 2 next) order) in
      let suffix_room : n ≤ length (entry ++ suffix) = omega (arith, length-append entry suffix) in
      rw
        (
          two_bytes,
          le→leb _ _ room,
          take-append 2 (to_le 2 next) order lo,
          drop-append 2 (to_le 2 next) order lo,
          read_order h next p small,
        )
        (rw
          (
            (nat_eq_iff next next).1 refl,
            le→leb _ _ suffix_room,
            take-append n entry suffix le,
            drop-append n entry suffix le,
            read_suffix h local p small_local,
            join h p,
          )
          refl)

  hydrate_gap :
      (order suffix : List ℕ) (next : ℕ) (vec : List HashItem) (m : List (Hash × LocalPi))
      → hydrate_entry c 2 (record {
        order_stream = 0xff ∷ 0xff ∷ order;
        suffix_stream = suffix;
        vector = vec;
        reverse_map = m;
        expected_next_suffix_index = next;
      })
        ≡ ok (record {
          order_stream = order;
          suffix_stream = suffix;
          vector = vec ++ (none ∷ []);
          reverse_map = m;
          expected_next_suffix_index = next;
        })
  unfolding hydrate_entry
  hydrate_gap order suffix next vec m =
      let read = rw two_bytes at (read_hashes_order_entry-none c 2 []) in
      let room : 2 ≤ length (0xff ∷ 0xff ∷ order) = omega arith in
      rw (two_bytes, le→leb _ _ room, read) refl

  -- Reading as many entries as there are items, from their place in the two files on.
  pub hydrate_entries-items :
      (items : List HashItem) (next : ℕ) (vec : List HashItem) (m : List (Hash × LocalPi))
      → All (IsItem c.hash_bytes_count) items
      → length vec + length items ≤ 256 ^ c.bytes_per_local_pi
      → next + count_hashes items ≤ 65535
      → hydrate_entries (length items) c 2 (record {
        order_stream = order_bytes items next;
        suffix_stream = suffix_bytes c.bytes_per_local_pi items (length vec);
        vector = vec;
        reverse_map = m;
        expected_next_suffix_index = next;
      })
        ≡ ok (record {
          order_stream = [];
          suffix_stream = [];
          vector = vec ++ items;
          reverse_map = insert_hashes items (length vec) m;
          expected_next_suffix_index = next + count_hashes items;
        })
  unfolding hydrate_entries insert_hashes
  hydrate_entries-items [] next vec m p h k = rw (append-nil, add-zero) refl
  hydrate_entries-items (none ∷ items) next vec m p h k =
      let longer : length vec + 1 ≡ length (vec ++ (none ∷ [])) =
        omega (arith, length-append vec (none ∷ [])) in
      let regroup : vec ++ (none ∷ items) ≡ (vec ++ (none ∷ [])) ++ items =
        sym (append_assoc vec (none ∷ []) items) in
      rw
        (
          hydrate_gap (order_bytes items next)
              (suffix_bytes c.bytes_per_local_pi items (length vec + 1)) next vec m,
          longer,
          regroup,
        )
        (hydrate_entries-items items next (vec ++ (none ∷ [])) m p.1 (omega arith) k)
  hydrate_entries-items (some x ∷ items) next vec m p h k =
      let longer : length vec + 1 ≡ length (vec ++ (some x ∷ [])) =
        omega (arith, length-append vec (some x ∷ [])) in
      let regroup : vec ++ (some x ∷ items) ≡ (vec ++ (some x ∷ [])) ++ items =
        sym (append_assoc vec (some x ∷ []) items) in
      let count : next + suc (count_hashes items) ≡ next + 1 + count_hashes items = omega arith in
      rw
        (
          hydrate_some x (order_bytes items (next + 1))
              (suffix_bytes c.bytes_per_local_pi items (length vec + 1)) (length vec) next vec m p.0
              (omega arith) (omega arith),
          longer,
          regroup,
          count,
        )
        (hydrate_entries-items items (next + 1) (vec ++ (some x ∷ []))
          (insert x (record { value = length vec }) m) p.1 (omega arith) (omega arith))
