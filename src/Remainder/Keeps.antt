-- ===== src/Remainder/Keeps.antt =====
-- append_hashes keeps a donut stored.
use wedding_cake_cpp.Base.{
  ℕ, ◌+◌, ◌≤◌, ◌<◌, ◌≡◌, refl, sym, ap, ◌∙◌, List, [], ◌∷◌, ◌++◌, some, min, le→leb, nat_eq, length,
  take, drop, replicate, All, All-append, All-of-append, take-append-drop, length-append,
  length-take, append-nil, length-replicate, nat_Eq, string_Eq, list_Eq, ok, arith,
}
use wedding_cake_cpp.Base.Dict.{lookup}
use wedding_cake_cpp.Types.{Hash, LocalPi}
use wedding_cake_cpp.Donut.{Calculator, suffixes_entry_size}
use wedding_cake_cpp.Manifest.{Manifest}
use wedding_cake_cpp.Remainder.{
  Remainder, HashItem, Writing, insert_hashes, append_entries, append_hashes, remaining_capacity,
  seal_if_full, hashes_order_filename, hash_entries_filename,
}
use wedding_cake_cpp.Remainder.Files.{
  IsItem, order_bytes, suffix_bytes, Streams, order_bytes-append, suffix_bytes-append,
}
use wedding_cake_cpp.Remainder.Append.{append_entries-Wrote}
use wedding_cake_cpp.Remainder.Hydrate.{two_bytes}
use wedding_cake_cpp.Remainder.Durable.{
  IsStored, Fresh, length-insert_hashes, insert_hashes-append, count_hashes-le,
  remaining_capacity-fits, count_hashes-append,
}
use wedding_cake_cpp.Remainder.Sealing.{seal_if_full-SealsTo}

-- The state in which append_hashes enters its first loop.
abbrev start : Remainder → Writing
start d = record {
  manifest = d.st00_manifest;
  local_pi_int = length d.forward_lookup_vector;
  next_suffix_file_index = length d.reverse_lookup_map;
  suffix_buffer = replicate (d.donut_entries_calculator.hash_bytes_count + 2) 0;
  hashes_order_buffer = replicate 2 0;
}

-- The files after `taken` was written.
record Written (d : Remainder) (taken : List HashItem) (m : Manifest) : Type 0 where
  pub order_file :
      lookup hashes_order_filename m.folder
      ≡ some (2 ∷ order_bytes (d.forward_lookup_vector ++ taken) 0)
  pub suffix_file :
      lookup hash_entries_filename m.folder
      ≡ some (
          suffix_bytes d.donut_entries_calculator.bytes_per_local_pi
            (d.forward_lookup_vector ++ taken)
            0)
  pub streams :
      length (d.forward_lookup_vector ++ taken) < d.capacity
      → Streams d m (2 ∷ order_bytes (d.forward_lookup_vector ++ taken) 0) (
          suffix_bytes d.donut_entries_calculator.bytes_per_local_pi
            (d.forward_lookup_vector ++ taken)
            0)

module _ (d : Remainder) (s : IsStored d) where
  abbrev vec : List HashItem
  vec = d.forward_lookup_vector

  Streams-Written :
      (taken : List HashItem) (m : Manifest)
      → Streams d m ((2 ∷ order_bytes vec 0) ++ order_bytes taken (length d.reverse_lookup_map)) (
          suffix_bytes d.donut_entries_calculator.bytes_per_local_pi vec 0
          ++ suffix_bytes d.donut_entries_calculator.bytes_per_local_pi taken (length vec))
      → Written d taken m
  Streams-Written taken m t =
      let k : ℕ = d.donut_entries_calculator.bytes_per_local_pi in
      let orders : (2 ∷ order_bytes vec 0) ++ order_bytes taken (length d.reverse_lookup_map)
          ≡ 2 ∷ order_bytes (vec ++ taken) 0 =
        ap (λ (x : ℕ). (2 ∷ order_bytes vec 0) ++ order_bytes taken x) (omega (arith, s.counted))
        ∙ ap (λ (x : List ℕ). 2 ∷ x) (sym (order_bytes-append vec taken 0)) in
      let suffixes : suffix_bytes k vec 0 ++ suffix_bytes k taken (length vec)
          ≡ suffix_bytes k (vec ++ taken) 0 =
        ap (λ (x : ℕ). suffix_bytes k vec 0 ++ suffix_bytes k taken x) (omega arith)
        ∙ sym (suffix_bytes-append k vec taken 0) in
      let t' : Streams d m (2 ∷ order_bytes (vec ++ taken) 0) (suffix_bytes k (vec ++ taken) 0) =
        rw (← orders, ← suffixes) t in
      record { order_file = t'.order_file; suffix_file = t'.suffix_file; streams = λ _. t' }

  write_taken :
      (taken : List HashItem)
      → All (IsItem d.donut_entries_calculator.hash_bytes_count) taken
      → length vec + length taken ≤ d.capacity
      → (w : Writing) × (append_entries d taken (start d) ≡ ok w) × Written d taken w.manifest
  unfolding append_entries
  write_taken [] p room = (
    start d,
    refl,
    record {
      order_file = rw append-nil s.order_file;
      suffix_file = rw append-nil s.suffix_file;
      streams = λ h. rw append-nil (s.streams (omega (arith, length-append vec [])));
    },
  )
  write_taken (x ∷ xs) p room =
      let n : ℕ = d.donut_entries_calculator.hash_bytes_count in
      let (w, e, a) =
        append_entries-Wrote d s.ingester s.first (x ∷ xs) _ _ (start d) p (s.streams (omega arith))
          (record {
            suffix_room = omega (
              arith,
              length-replicate {A = ℕ} (n + 2) 0,
              s.ingester.narrow,
              s.ingester.no_prefix,
              s.ingester.valid.suffix_bits,
              s.ingester.valid.suffix_bytes,
            );
            order_room = omega arith;
          })
          (omega (arith, s.below))
          (omega (arith, s.counted, s.small, count_hashes-le vec, count_hashes-le (x ∷ xs))) in
      (w, e, Streams-Written (x ∷ xs) w.manifest a.streams)

  abbrev grown : List HashItem → Manifest → Remainder
  grown taken m = record d {
    st00_manifest = m;
    reverse_lookup_map = insert_hashes taken (length vec) d.reverse_lookup_map;
    forward_lookup_vector = vec ++ taken;
  }

  grown-IsStored :
      (taken : List HashItem) (m : Manifest)
      → All (IsItem d.donut_entries_calculator.hash_bytes_count) taken
      → length vec + length taken ≤ d.capacity
      → Fresh taken (length vec) d.reverse_lookup_map
      → Written d taken m
      → IsStored (grown taken m)
  grown-IsStored taken m p room f w = record {
    ingester = s.ingester;
    first = s.first;
    made = s.made;
    named_by = s.named_by;
    items = All-append (IsItem d.donut_entries_calculator.hash_bytes_count) vec taken s.items p;
    fits = omega (arith, length-append vec taken);
    small = s.small;
    local_fits = s.local_fits;
    below = s.below;
    mapped =
        ap (λ (t : List (Hash × LocalPi)). insert_hashes taken (length vec) t) s.mapped
        ∙ ap (λ (t : ℕ). insert_hashes taken t (insert_hashes vec 0 [])) (omega arith)
        ∙ sym (insert_hashes-append vec taken 0 []);
    counted = omega (
      arith,
      length-insert_hashes taken (length vec) d.reverse_lookup_map f,
      count_hashes-append vec taken,
      s.counted,
    );
    order_file = w.order_file;
    suffix_file = w.suffix_file;
    streams = λ h.
        let t = w.streams h in
        record {
          i = t.i;
          j = t.j;
          order_handle = t.order_handle;
          suffix_handle = t.suffix_handle;
          unsealed = t.unsealed;
          order_open = t.order_open;
          suffix_open = t.suffix_open;
          order_file = t.order_file;
          suffix_file = t.suffix_file;
        };
  }

-- What a call of append_hashes leaves behind.
pub record Appended (d d' : Remainder) (taken : List HashItem) : Type 0 where
  pub stored : IsStored d'
  pub vector : d'.forward_lookup_vector ≡ d.forward_lookup_vector ++ taken
  pub mapped :
      d'.reverse_lookup_map
      ≡ insert_hashes taken (length d.forward_lookup_vector) d.reverse_lookup_map
  pub capacity : d'.capacity ≡ d.capacity
  pub path : d'.object_path ≡ d.object_path
  pub first : d'.first_global_pi ≡ d.first_global_pi
  pub calculator : d'.donut_entries_calculator ≡ d.donut_entries_calculator
  pub sealed :
      d'.st00_manifest.finished_sealed ≡ nat_eq (length d'.forward_lookup_vector) d'.capacity

-- append_hashes takes as many hashes as are given and fit, and what it returns is again a stored
-- donut: its vector is the old one followed by the taken hashes, its two files are the encoding
-- of that vector, and its manifest is sealed when the donut is full and is not when it has room.
-- The batch holds hashes of the donut's length and its taken part repeats no hash.
pub append_hashes-Appended :
    (d : Remainder) (ram_buffer : List HashItem)
    → IsStored d
    → All (IsItem d.donut_entries_calculator.hash_bytes_count) ram_buffer
    → Fresh
        (take (min (length ram_buffer) (remaining_capacity d)) ram_buffer)
        (length d.forward_lookup_vector)
        d.reverse_lookup_map
    → (d' : Remainder) × (append_hashes d ram_buffer
        ≡ ok (d', min (length ram_buffer) (remaining_capacity d)))
      × Appended d d' (take (min (length ram_buffer) (remaining_capacity d)) ram_buffer)
unfolding append_hashes
append_hashes-Appended d ram_buffer s p f =
    let c : Calculator = d.donut_entries_calculator in
    let left = remaining_capacity-fits d s.fits in
    let taking : ℕ = min (length ram_buffer) (remaining_capacity d) in
    let taken : List HashItem = take taking ram_buffer in
    let taken_len = length-take taking ram_buffer in
    let items =
      (All-of-append (IsItem c.hash_bytes_count) taken (drop taking ram_buffer)
        (rw (take-append-drop taking ram_buffer) p)).0 in
    let room : length d.forward_lookup_vector + length taken ≤ d.capacity =
      omega (arith, left, s.fits) in
    let (w, e, written) = write_taken d s taken items room in
    let stored = grown-IsStored d s taken w.manifest items room f written in
    let d' : Remainder = grown d s taken w.manifest in
    let q = seal_if_full-SealsTo d' stored in
    let fits : suffixes_entry_size c ≤ c.hash_bytes_count + 2 = omega (
      arith, s.ingester.narrow, s.ingester.no_prefix, s.ingester.valid.suffix_bits,
      s.ingester.valid.suffix_bytes,
    ) in
    let size : length (d.forward_lookup_vector ++ taken) ≤ d.capacity =
      omega (arith, length-append d.forward_lookup_vector taken) in
    (
      seal_if_full d',
      rw (le→leb _ _ fits, two_bytes c s.ingester, e, le→leb _ _ size) refl,
      record {
        stored = q.stored;
        vector = q.vector;
        mapped = q.mapped;
        capacity = q.capacity;
        path = q.path;
        first = q.first;
        calculator = q.calculator;
        sealed = q.sealed;
      },
    )
