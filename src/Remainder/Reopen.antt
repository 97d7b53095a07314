-- ===== src/Remainder/Reopen.antt =====
-- A new donut is stored, and a donut opened over the folder of a stored one holds the same.
use wedding_cake_cpp.Base.{
  ℕ, zero, suc, ◌+◌, ◌-◌, ◌^◌, ◌≤◌, ◌<◌, ◌≡◌, refl, sym, ap, ◌∙◌, List, [], ◌∷◌, ◌++◌, false, none,
  some, min, length, take, All, nat_Eq, string_Eq, list_Eq, ok, arith,
}
use wedding_cake_cpp.Base.Dict.{lookup, assign, contains}
use wedding_cake_cpp.Types.{pi_no_match_val}
use wedding_cake_cpp.Donut.{Calculator, new_calculator}
use wedding_cake_cpp.Donut.RoundTrip.{calculate_bytes_per_local_pi_least, new_calculator-IsValid}
use wedding_cake_cpp.Manifest.{
  Manifest, Folder, new_manifest, unregistered, register_file, register_files, create_new_file,
  append_to_file, get_file_handle,
}
use wedding_cake_cpp.ObjectFolder.{FileName, object_folder_single_offset}
use wedding_cake_cpp.Remainder.{
  Remainder, HashItem, new_remainder, insert_hashes, append_hashes, remaining_capacity,
  hashes_order_filename, hash_entries_filename,
}
use wedding_cake_cpp.Remainder.Files.{IsItem, IsIngester}
use wedding_cake_cpp.Remainder.Durable.{IsStored, Fresh, hydrate-IsStored}
use wedding_cake_cpp.Remainder.Keeps.{append_hashes-Appended}
use native.Mathlib.Nat.{pow-le-pow_right}

-- The calculator that the constructor of a donut makes.
made_calculator :
    (n offset capacity : ℕ)
    → 0 < n
    → 0 < capacity
    → capacity ≤ 65535
    → (c : Calculator) × (new_calculator n 0 (record { value = offset }) capacity ≡ ok c)
      × IsIngester c
      × (c.hash_bytes_count ≡ n)
      × (c.first_global_pi ≡ record { value = offset })
      × (capacity ≤ 256 ^ c.bytes_per_local_pi)
made_calculator n offset capacity n_pos c_pos small =
    let (b, e, lo, hi, fits, least) =
      calculate_bytes_per_local_pi_least capacity c_pos (omega arith) in
    let (c, made, valid, en, bits, ef, _, eb) =
      new_calculator-IsValid n 0 (record { value = offset }) capacity b (omega arith) (omega arith)
        e in
    let narrow : b ≤ 2 = narrow b least in
    (
      c,
      made,
      record { valid = valid; no_prefix = bits; some_bytes = omega arith; narrow = omega arith },
      en,
      ef,
      rw eb (omega arith),
    )
  where
    narrow : (b : ℕ) → 256 ^ (b - 1) ≤ capacity → b ≤ 2
    narrow zero h = omega arith
    narrow (suc zero) h = omega arith
    narrow (suc (suc zero)) h = omega arith
    narrow (suc (suc (suc b))) h =
        let up : 256 ^ 2 ≤ 256 ^ (suc (suc (suc b)) - 1) =
          pow-le-pow_right (omega arith) {i = 2} (omega arith) in
        absurd (omega arith)

-- In a new folder named Offset_N the constructor succeeds for a positive hash length and a
-- capacity between 1 and 65535 whose indices stay below the sentinel, and gives an empty donut
-- at offset N that is stored, so that batches can be appended to it.
pub new_remainder-IsStored :
    (n : ℕ) (path : FileName) (capacity offset : ℕ)
    → object_folder_single_offset path ≡ ok offset
    → 0 < n
    → 0 < capacity
    → capacity ≤ 65535
    → capacity + offset ≤ pi_no_match_val
    → (d : Remainder) × (new_remainder n path capacity none ≡ ok d)
      × IsStored d
      × (d.forward_lookup_vector ≡ [])
      × (d.reverse_lookup_map ≡ [])
      × (d.capacity ≡ capacity)
      × (d.object_path ≡ path)
      × (d.first_global_pi ≡ record { value = offset })
      × (d.donut_entries_calculator.hash_bytes_count ≡ n)
unfolding new_remainder new_manifest create_new_file append_to_file lookup assign contains
    insert_hashes
new_remainder-IsStored n path capacity offset e n_pos c_pos small below =
    let (c, made, v, en, ef, local_fits) = made_calculator n offset capacity n_pos c_pos small in
    let folder : Folder = (hashes_order_filename, 2 ∷ []) ∷ (hash_entries_filename, []) ∷ [] in
    let m : Manifest = record {
      folder = folder;
      next_file_handle = 2;
      finished_sealed = false;
      file_handles_by_rel_path = (hashes_order_filename, 0) ∷ (hash_entries_filename, 1) ∷ [];
      rel_paths_by_handle = (0, hashes_order_filename) ∷ (1, hash_entries_filename) ∷ [];
      file_sizes_by_handle = (0, 1) ∷ (1, 0) ∷ [];
      open_files_by_handle = (0, hashes_order_filename) ∷ (1, hash_entries_filename) ∷ [];
    } in
    (
      record {
        forward_lookup_vector = [];
        reverse_lookup_map = [];
        capacity = capacity;
        object_path = path;
        first_global_pi = record { value = offset };
        st00_manifest = m;
        donut_entries_calculator = c;
        file_handle_hashes_order = some 0;
        file_handle_suffix_entries = some 1;
      },
      rw (e, made) refl,
      record {
        ingester = v;
        first = ef;
        made = rw en made;
        named_by = e;
        items = tt;
        fits = omega arith;
        small = small;
        local_fits = local_fits;
        below = below;
        mapped = refl;
        counted = refl;
        order_file = refl;
        suffix_file = refl;
        streams = λ h. record {
          i = 0;
          j = 1;
          order_handle = refl;
          suffix_handle = refl;
          unsealed = refl;
          order_open = refl;
          suffix_open = refl;
          order_file = refl;
          suffix_file = refl;
        };
      },
      refl,
      refl,
      refl,
      refl,
      refl,
      en,
    )

ap₃ :
    {A B C D : Type 0} {a a' : A} {b b' : B} {c c' : C} (f : A → B → C → D)
    → a ≡ a'
    → b ≡ b'
    → c ≡ c'
    → f a b c ≡ f a' b' c'
ap₃ f p q r = cc

pub register_files-folder :
    (m : Manifest) (files : Folder)
    → ((register_files m files).folder ≡ m.folder)
      × ((register_files m files).open_files_by_handle ≡ m.open_files_by_handle)
unfolding register_files register_file
register_files-folder m [] = (refl, refl)
register_files-folder m ((p, bytes) ∷ files) =
    register_files-folder (register_file m (p, bytes)) files

-- Opening the folder of a stored donut again, under the same name and capacity, gives a donut
-- with the same entries in the same places, the same reverse lookup map and an unchanged folder.
pub new_remainder-reopen :
    (d : Remainder)
    → IsStored d
    → (d' : Remainder) × (new_remainder d.donut_entries_calculator.hash_bytes_count d.object_path
          d.capacity
          (some d.st00_manifest.folder)
        ≡ ok d')
      × (d'.forward_lookup_vector ≡ d.forward_lookup_vector)
      × (d'.reverse_lookup_map ≡ d.reverse_lookup_map)
      × (d'.capacity ≡ d.capacity)
      × (d'.first_global_pi ≡ d.first_global_pi)
      × (d'.st00_manifest.folder ≡ d.st00_manifest.folder)
unfolding new_remainder new_manifest
new_remainder-reopen d s =
    let (same, _) =
      register_files-folder (unregistered d.st00_manifest.folder) d.st00_manifest.folder in
    let m : Manifest =
      register_files (unregistered d.st00_manifest.folder) d.st00_manifest.folder in
    (
      record {
        forward_lookup_vector = d.forward_lookup_vector;
        reverse_lookup_map = d.reverse_lookup_map;
        capacity = d.capacity;
        object_path = d.object_path;
        first_global_pi = d.first_global_pi;
        st00_manifest = m;
        donut_entries_calculator = d.donut_entries_calculator;
        file_handle_hashes_order = get_file_handle m hashes_order_filename;
        file_handle_suffix_entries = get_file_handle m hash_entries_filename;
      },
      rw (s.named_by, s.made, same, hydrate-IsStored d s) refl,
      refl,
      refl,
      refl,
      refl,
      same,
    )

-- Hashes appended to a stored donut survive a restart: a batch of hashes of the donut's length,
-- whose accepted part repeats no hash of the donut or of itself, is accepted up to the remaining
-- capacity, and opening the folder again gives the old entries followed by the accepted ones,
-- with the same reverse lookup map.
pub append_hashes-reopen :
    (d : Remainder) (ram_buffer : List HashItem)
    → IsStored d
    → All (IsItem d.donut_entries_calculator.hash_bytes_count) ram_buffer
    → Fresh
        (take (min (length ram_buffer) (remaining_capacity d)) ram_buffer)
        (length d.forward_lookup_vector)
        d.reverse_lookup_map
    → (d' : Remainder) × (d'' : Remainder) × (append_hashes d ram_buffer
        ≡ ok (d', min (length ram_buffer) (remaining_capacity d)))
      × (new_remainder d.donut_entries_calculator.hash_bytes_count d.object_path d.capacity
            (some d'.st00_manifest.folder)
          ≡ ok d'')
      × (d''.forward_lookup_vector
          ≡ d.forward_lookup_vector
            ++ take (min (length ram_buffer) (remaining_capacity d)) ram_buffer)
      × (d''.reverse_lookup_map ≡ d'.reverse_lookup_map)
append_hashes-reopen d ram_buffer s p f =
    let (d', e, a) = append_hashes-Appended d ram_buffer s p f in
    let (d'', o, v, m, _, _, _) = new_remainder-reopen d' a.stored in
    (
      d',
      d'',
      e,
      ap₃
            (λ (n : ℕ) (path : FileName) (cap : ℕ).
              new_remainder n path cap (some d'.st00_manifest.folder))
            (sym (ap (λ (c : Calculator). c.hash_bytes_count) a.calculator)) (sym a.path)
            (sym a.capacity)
          ∙ o,
      v ∙ a.vector,
      m,
    )
