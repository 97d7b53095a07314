-- ===== src/Remainder/Append.antt =====
-- The loop of append_hashes writes exactly the entries that the files are to hold.
use wedding_cake_cpp.Base.{
  ℕ, ◌+◌, ◌≤◌, ◌<◌, ◌≡◌, refl, sym, ap, ◌∙◌, List, [], ◌∷◌, ◌++◌, none, some, lt→ltb, le→leb,
  length, drop, All, take-append, length-append, append-nil, append_assoc, ok, arith,
}
use wedding_cake_cpp.Base.Bytes.{u64_max, to_le, length-to_le}
use wedding_cake_cpp.Types.{Hash, GlobalPi, pi_no_match_val, add_base, sub_base-add_base}
use wedding_cake_cpp.Donut.{
  Calculator, hashes_order_entry_size, suffixes_entry_size, write_suffixes_file_entry,
  write_hashes_order_file_entry,
}
use wedding_cake_cpp.Donut.Entries.{
  write_hashes_order_file_entry-some, write_suffixes_file_entry-some,
  write_hashes_order_file_entry-none,
}
use wedding_cake_cpp.Remainder.{
  Remainder, HashItem, Writing, append_suffix_entry, append_entry, append_entries,
}
use wedding_cake_cpp.Remainder.Files.{
  IsHash, IsItem, count_hashes, count_hashes-cons, order_bytes, suffix_bytes, IsIngester, Streams,
  append-order, append-suffix, no_prefix_part, whole_suffix_part, order_bytes-append,
  suffix_bytes-append,
}

module _ (d : Remainder) (v : IsIngester d.donut_entries_calculator) where
  abbrev pub calc : Calculator
  calc = d.donut_entries_calculator

  -- The buffers keep their sizes.
  pub record Room (w : Writing) : Type 0 where
    pub suffix_room : suffixes_entry_size calc ≤ length w.suffix_buffer
    pub order_room : 2 ≤ length w.hashes_order_buffer

  write_suffix :
      (h : Hash) (local : ℕ) (buffer : List ℕ)
      → IsHash calc.hash_bytes_count h
      → calc.first_global_pi ≡ d.first_global_pi
      → local + d.first_global_pi.value < pi_no_match_val
      → suffixes_entry_size calc ≤ length buffer
      → write_suffixes_file_entry calc
          (some h)
          (add_base (record { value = local }) d.first_global_pi)
          buffer
        ≡ ok (
          suffixes_entry_size calc,
          (h ++ to_le calc.bytes_per_local_pi local) ++ drop (suffixes_entry_size calc) buffer,
        )
  write_suffix h local buffer p first below room =
      let w =
        write_suffixes_file_entry-some calc v.valid h p.0
          (add_base (record { value = local }) d.first_global_pi) buffer room in
      let back = (sub_base-add_base (record { value = local }) d.first_global_pi below).0 in
      w ∙ rw (whole_suffix_part calc v h p, first, back) (rw append_assoc refl)

  write_order :
      (h : Hash) (index : ℕ) (buffer : List ℕ)
      → IsHash calc.hash_bytes_count h
      → index < 65535
      → 2 ≤ length buffer
      → write_hashes_order_file_entry calc (some h) index 2 buffer
        ≡ ok (2, to_le 2 index ++ drop 2 buffer)
  write_order h index buffer p small room =
      let e : hashes_order_entry_size calc 2 ≡ 2 =
        omega (arith, v.no_prefix, v.valid.prefix_bytes) in
      let w =
        write_hashes_order_file_entry-some calc v.valid h p.0 index 2 buffer (omega arith)
          (omega arith) (omega arith) in
      w ∙ rw (no_prefix_part calc v h p, e) refl

  no_suffix :
      (pi : GlobalPi) (buffer : List ℕ)
      → suffixes_entry_size calc ≤ length buffer
      → write_suffixes_file_entry calc none pi buffer ≡ ok (0, buffer)
  unfolding write_suffixes_file_entry
  no_suffix pi buffer room = rw (le→leb _ _ room) refl

  gap_order :
      (index : ℕ) (buffer : List ℕ)
      → 2 ≤ length buffer
      → write_hashes_order_file_entry calc none index 2 buffer ≡ ok (2, 0xff ∷ 0xff ∷ drop 2 buffer)
  gap_order index buffer room =
      let e : hashes_order_entry_size calc 2 ≡ 2 =
        omega (arith, v.no_prefix, v.valid.prefix_bytes) in
      write_hashes_order_file_entry-none calc index 2 buffer (omega arith) (omega arith) ∙ rw e refl

  -- What appending `items` does to the loop's state.
  pub record Wrote (items : List HashItem) (order suffix : List ℕ) (w w' : Writing) : Type 0 where
    pub streams :
        Streams d w'.manifest
          (order ++ order_bytes items w.next_suffix_file_index)
          (suffix ++ suffix_bytes calc.bytes_per_local_pi items w.local_pi_int)
    pub room : Room w'
    pub local : w'.local_pi_int ≡ w.local_pi_int + length items
    pub next : w'.next_suffix_file_index ≡ w.next_suffix_file_index + count_hashes items

  module _ (first : calc.first_global_pi ≡ d.first_global_pi) where
    append_hash :
        (h : Hash) (order suffix : List ℕ) (w : Writing)
        → IsHash calc.hash_bytes_count h
        → Streams d w.manifest order suffix
        → Room w
        → w.local_pi_int + d.first_global_pi.value < pi_no_match_val
        → w.next_suffix_file_index < 65535
        → (w' : Writing) × (append_entry d (some h) w ≡ ok w')
          × Wrote (some h ∷ []) order suffix w w'
    unfolding append_entry append_suffix_entry
    append_hash h order suffix w p s r below small =
        let k : ℕ = calc.bytes_per_local_pi in
        let n : ℕ = suffixes_entry_size calc in
        let entry : List ℕ = h ++ to_le k w.local_pi_int in
        let entry_len : length entry ≡ n = omega (
          arith,
          length-append h (to_le k w.local_pi_int),
          length-to_le k w.local_pi_int,
          p.0,
          v.valid.suffix_bytes,
          v.valid.suffix_bits,
          v.no_prefix,
        ) in
        let (m₁, e₁, s₁) = append-suffix d w.manifest order suffix entry s in
        let (m₂, e₂, s₂) =
          append-order d m₁ order (suffix ++ entry) (to_le 2 w.next_suffix_file_index) s₁ in
        let buffer : List ℕ = entry ++ drop n w.suffix_buffer in
        let order_buffer : List ℕ =
          to_le 2 w.next_suffix_file_index ++ drop 2 w.hashes_order_buffer in
        (
          record {
            manifest = m₂;
            local_pi_int = w.local_pi_int + 1;
            next_suffix_file_index = w.next_suffix_file_index + 1;
            suffix_buffer = buffer;
            hashes_order_buffer = order_buffer;
          },
          rw
              (
                write_suffix h w.local_pi_int w.suffix_buffer p first below r.suffix_room,
                lt→ltb 0 n (
                    omega (
                      arith, v.some_bytes, v.valid.suffix_bytes, v.valid.suffix_bits, v.no_prefix,
                    )),
                take-append n entry (drop n w.suffix_buffer) entry_len,
                e₁,
                write_order h w.next_suffix_file_index w.hashes_order_buffer p small r.order_room,
              )
              (rw
                (
                  take-append 2 (to_le 2 w.next_suffix_file_index) (drop 2 w.hashes_order_buffer)
                      (length-to_le 2 _),
                  e₂,
                )
                refl),
          record {
            streams = rw (append-nil, append-nil) s₂;
            room = record {
              suffix_room = omega (arith, entry_len, length-append entry (drop n w.suffix_buffer));
              order_room = omega (
                arith,
                length-to_le 2 w.next_suffix_file_index,
                length-append (to_le 2 w.next_suffix_file_index) (drop 2 w.hashes_order_buffer),
              );
            };
            local = refl;
            next = refl;
          },
        )

    append_gap :
        (order suffix : List ℕ) (w : Writing)
        → Streams d w.manifest order suffix
        → Room w
        → (w' : Writing) × (append_entry d none w ≡ ok w') × Wrote (none ∷ []) order suffix w w'
    unfolding append_entry append_suffix_entry
    append_gap order suffix w s r =
        let (m, e, s') = append-order d w.manifest order suffix (0xff ∷ 0xff ∷ []) s in
        (
          record w {
            manifest = m;
            local_pi_int = w.local_pi_int + 1;
            hashes_order_buffer = 0xff ∷ 0xff ∷ drop 2 w.hashes_order_buffer;
          },
          rw
              (
                no_suffix (add_base (record { value = w.local_pi_int }) d.first_global_pi)
                    w.suffix_buffer r.suffix_room,
                gap_order u64_max w.hashes_order_buffer r.order_room,
                e,
              )
              refl,
          record {
            streams = rw append-nil s';
            room = record { suffix_room = r.suffix_room; order_room = omega arith };
            local = refl;
            next = omega arith;
          },
        )

    append_item :
        (item : HashItem) (order suffix : List ℕ) (w : Writing)
        → IsItem calc.hash_bytes_count item
        → Streams d w.manifest order suffix
        → Room w
        → w.local_pi_int + d.first_global_pi.value < pi_no_match_val
        → w.next_suffix_file_index + count_hashes (item ∷ []) ≤ 65535
        → (w' : Writing) × (append_entry d item w ≡ ok w') × Wrote (item ∷ []) order suffix w w'
    append_item none order suffix w p s r below small = append_gap order suffix w s r
    append_item (some h) order suffix w p s r below small =
        append_hash h order suffix w p s r below (omega arith)

    Wrote-cons :
        (item : HashItem) (items : List HashItem) (order suffix : List ℕ) (w w' w'' : Writing)
        → Wrote (item ∷ []) order suffix w w'
        → Wrote items
            (order ++ order_bytes (item ∷ []) w.next_suffix_file_index)
            (suffix ++ suffix_bytes calc.bytes_per_local_pi (item ∷ []) w.local_pi_int)
            w'
            w''
        → Wrote (item ∷ items) order suffix w w''
    Wrote-cons item items order suffix w w' w'' a b =
        let k : ℕ = calc.bytes_per_local_pi in
        let next : ℕ = w.next_suffix_file_index in
        let local : ℕ = w.local_pi_int in
        let orders : order ++ order_bytes (item ∷ items) w.next_suffix_file_index
            ≡ (order ++ order_bytes (item ∷ []) w.next_suffix_file_index)
              ++ order_bytes items w'.next_suffix_file_index =
          ap (λ (t : List ℕ). order ++ t)
            (order_bytes-append (item ∷ []) items w.next_suffix_file_index)
          ∙ sym (
              append_assoc order (order_bytes (item ∷ []) next)
                (order_bytes items (next + count_hashes (item ∷ []))))
          ∙ ap (λ (t : ℕ). (order ++ order_bytes (item ∷ []) next) ++ order_bytes items t)
              (sym a.next) in
        let suffixes : suffix ++ suffix_bytes k (item ∷ items) w.local_pi_int
            ≡ (suffix ++ suffix_bytes k (item ∷ []) w.local_pi_int)
              ++ suffix_bytes k items w'.local_pi_int =
          ap (λ (t : List ℕ). suffix ++ t) (suffix_bytes-append k (item ∷ []) items w.local_pi_int)
          ∙ sym (
              append_assoc suffix (suffix_bytes k (item ∷ []) local)
                (suffix_bytes k items (local + 1)))
          ∙ ap (λ (t : ℕ). (suffix ++ suffix_bytes k (item ∷ []) local) ++ suffix_bytes k items t)
              (sym a.local) in
        record {
          streams = rw (orders, suffixes) b.streams;
          room = b.room;
          local = omega (arith, a.local, b.local);
          next = omega (arith, a.next, b.next, count_hashes-cons item items);
        }

    -- The whole loop.
    pub append_entries-Wrote :
        (items : List HashItem) (order suffix : List ℕ) (w : Writing)
        → All (IsItem calc.hash_bytes_count) items
        → Streams d w.manifest order suffix
        → Room w
        → w.local_pi_int + length items + d.first_global_pi.value ≤ pi_no_match_val
        → w.next_suffix_file_index + count_hashes items ≤ 65535
        → (w' : Writing) × (append_entries d items w ≡ ok w') × Wrote items order suffix w w'
    unfolding append_entries
    append_entries-Wrote [] order suffix w p s r below small = (
      w,
      refl,
      record {
        streams = rw (append-nil, append-nil) s;
        room = r;
        local = omega arith;
        next = omega arith;
      },
    )
    append_entries-Wrote (item ∷ items) order suffix w p s r below small =
        let (w', e, a) =
          append_item item order suffix w p.0 s r (omega arith)
            (omega (arith, count_hashes-cons item items)) in
        let (w'', e', b) =
          append_entries-Wrote items _ _ w' p.1 a.streams a.room (omega (arith, a.local))
            (omega (arith, a.next, count_hashes-cons item items)) in
        (w'', rw e e', Wrote-cons item items order suffix w w' w'' a b)
