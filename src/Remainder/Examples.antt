-- ===== src/Remainder/Examples.antt =====
-- Donuts of two-byte hashes with room for five, in the folder Offset_3.
use wedding_cake_cpp.Base.{
  ◌≤◌, ◌+◌, subst, get_elem?, ℕ, ◌≡◌, ◌≢◌, refl, List, [], ◌∷◌, false, All, none, some, Result, ok,
  err, assertion_failed, ◌>>=◌, arith,
}
use wedding_cake_cpp.Types.{Hash, add_base, sub_base}
use wedding_cake_cpp.ObjectFolder.{FileName, codes, object_folder_single_offset, stoi_whole}
use wedding_cake_cpp.Manifest.{
  Manifest, new_manifest, register_files, register_file, unregistered, get_file_handle,
  append_to_file,
}
use wedding_cake_cpp.Base.Dict.{lookup, insert, assign}
use wedding_cake_cpp.Base.Bytes.{to_le, from_le, write_at}
use wedding_cake_cpp.Hash.{
  ls_suffix_bytes, ls_suffix_bytes_masked, ms_prefix_bytes, ms_prefix_bytes_masked,
}
use wedding_cake_cpp.Donut.{
  bit_width, write_suffixes_file_entry, write_hashes_order_file_entry, all_ones,
  hash_from_prefix_suffix, read_hashes_order_entry_from_bytes, read_ls_suffixes_entry_from_bytes,
  Calculator, new_calculator, calculate_bytes_per_local_pi,
}
use wedding_cake_cpp.Remainder.{
  Remainder, HashItem, insert_hashes, remaining_capacity, hydrate_self_for_lookup, forward_lookup,
  reverse_lookup, hydrate_from_bytes, hydrate_entries, hydrate_entry, hydrate_hash, append_entries,
  append_entry, append_suffix_entry, seal_if_full, new_remainder, append_hashes,
  hashes_order_filename, hash_entries_filename,
}
use wedding_cake_cpp.Remainder.Files.{IsItem}
use wedding_cake_cpp.Remainder.Durable.{IsStored, Fresh}
use wedding_cake_cpp.Remainder.Keeps.{Appended, append_hashes-Appended}
use wedding_cake_cpp.Remainder.Reopen.{
  new_remainder-IsStored, new_remainder-reopen, append_hashes-reopen,
}
use wedding_cake_cpp.Remainder.Places.{
  IsMapped, forward_lookup-reverse_lookup, reverse_lookup-earliest,
}
use wedding_cake_cpp.Remainder.Grown.{append_hashes-earliest}
use wedding_cake_cpp.Remainder.Closed.{append_hashes-reopened}

abbrev path : FileName
path = codes "Offset_3"

abbrev pub hash_a : Hash
hash_a = 1 ∷ 2 ∷ []

abbrev pub hash_b : Hash
hash_b = 7 ∷ 255 ∷ []

abbrev calculator : Calculator
calculator = record {
  hash_bytes_count = 2;
  prefix_bits_count = 0;
  suffix_bits_count = 16;
  prefix_bytes_count = 0;
  suffix_bytes_count = 2;
  first_global_pi = record { value = 3 };
  entries_per_donut = 5;
  bytes_per_local_pi = 1;
}

abbrev empty_manifest : Manifest
empty_manifest = record {
  folder = (hashes_order_filename, 2 ∷ []) ∷ (hash_entries_filename, []) ∷ [];
  next_file_handle = 2;
  finished_sealed = false;
  file_handles_by_rel_path = (hashes_order_filename, 0) ∷ (hash_entries_filename, 1) ∷ [];
  rel_paths_by_handle = (0, hashes_order_filename) ∷ (1, hash_entries_filename) ∷ [];
  file_sizes_by_handle = (0, 1) ∷ (1, 0) ∷ [];
  open_files_by_handle = (0, hashes_order_filename) ∷ (1, hash_entries_filename) ∷ [];
}

abbrev pub empty_donut : Remainder
empty_donut = record {
  forward_lookup_vector = [];
  reverse_lookup_map = [];
  capacity = 5;
  object_path = path;
  first_global_pi = record { value = 3 };
  st00_manifest = empty_manifest;
  donut_entries_calculator = calculator;
  file_handle_hashes_order = some 0;
  file_handle_suffix_entries = some 1;
}

abbrev batch : List HashItem
batch = some hash_a ∷ none ∷ some hash_b ∷ []

-- The batch, accepted by the new donut.
offset : object_folder_single_offset path ≡ ok 3
unfolding object_folder_single_offset stoi_whole
offset = refl

calculator_lem : new_calculator 2 0 (record { value = 3 }) 5 ≡ ok calculator
unfolding new_calculator calculate_bytes_per_local_pi bit_width
calculator_lem = refl

pub empty_donut-IsStored : IsStored empty_donut
unfolding lookup insert_hashes
empty_donut-IsStored = record {
  ingester = record {
    valid = record {
      prefix_fits = omega arith;
      prefix_small = omega arith;
      suffix_bits = refl;
      prefix_bytes = refl;
      suffix_bytes = refl;
    };
    no_prefix = refl;
    some_bytes = omega arith;
    narrow = omega arith;
  };
  first = refl;
  made = calculator_lem;
  named_by = offset;
  items = tt;
  fits = omega arith;
  small = omega arith;
  local_fits = omega arith;
  below = omega arith;
  mapped = refl;
  counted = refl;
  order_file = refl;
  suffix_file = refl;
  streams = λ h. record {
    i = 0;
    j = 1;
    order_handle = refl;
    suffix_handle = refl;
    unsealed = refl;
    order_open = refl;
    suffix_open = refl;
    order_file = refl;
    suffix_file = refl;
  };
}

batch-IsItem : All (IsItem 2) batch
batch-IsItem =
    ((refl, (omega arith, (omega arith, tt))), (tt, ((refl, (omega arith, (omega arith, tt))), tt)))

batch-Fresh : Fresh batch 0 []
unfolding lookup insert
batch-Fresh = (refl, (refl, tt))

new_remainder-IsStored_example :
    (d : Remainder) × (new_remainder 2 path 5 none ≡ ok d)
    × IsStored d
    × (d.forward_lookup_vector ≡ [])
    × (d.reverse_lookup_map ≡ [])
    × (d.capacity ≡ 5)
    × (d.object_path ≡ path)
    × (d.first_global_pi ≡ record { value = 3 })
    × (d.donut_entries_calculator.hash_bytes_count ≡ 2)
new_remainder-IsStored_example =
    new_remainder-IsStored 2 path 5 3 offset (omega arith) (omega arith) (omega arith) (omega arith)

batch_accepted :
    (d' : Remainder) × (append_hashes empty_donut batch ≡ ok (d', 3))
    × Appended empty_donut d' batch
unfolding remaining_capacity
batch_accepted =
    append_hashes-Appended empty_donut batch empty_donut-IsStored batch-IsItem batch-Fresh

append_hashes-Appended_example :
    (d' : Remainder) × (append_hashes empty_donut batch ≡ ok (d', 3))
    × Appended empty_donut d' batch
unfolding remaining_capacity
append_hashes-Appended_example =
    append_hashes-Appended empty_donut batch empty_donut-IsStored batch-IsItem batch-Fresh

new_remainder-reopen_example :
    (d' : Remainder) × (new_remainder 2 path 5 (some empty_manifest.folder) ≡ ok d')
    × (d'.forward_lookup_vector ≡ [])
    × (d'.reverse_lookup_map ≡ [])
    × (d'.capacity ≡ 5)
    × (d'.first_global_pi ≡ record { value = 3 })
    × (d'.st00_manifest.folder ≡ empty_manifest.folder)
new_remainder-reopen_example = new_remainder-reopen empty_donut empty_donut-IsStored

append_hashes-reopen_example :
    (d' : Remainder) × (d'' : Remainder) × (append_hashes empty_donut batch ≡ ok (d', 3))
    × (new_remainder 2 path 5 (some d'.st00_manifest.folder) ≡ ok d'')
    × (d''.forward_lookup_vector ≡ batch)
    × (d''.reverse_lookup_map ≡ d'.reverse_lookup_map)
unfolding remaining_capacity
append_hashes-reopen_example =
    append_hashes-reopen empty_donut batch empty_donut-IsStored batch-IsItem batch-Fresh

-- The donut after the batch.
abbrev filled_donut : Remainder
filled_donut = record empty_donut {
  forward_lookup_vector = batch;
  reverse_lookup_map = (hash_a, record { value = 0 }) ∷ (hash_b, record { value = 2 }) ∷ [];
  st00_manifest = record empty_manifest {
    folder =
        (hashes_order_filename, 2 ∷ 0 ∷ 0 ∷ 255 ∷ 255 ∷ 1 ∷ 0 ∷ [])
        ∷ (hash_entries_filename, 1 ∷ 2 ∷ 0 ∷ 7 ∷ 255 ∷ 2 ∷ [])
        ∷ [];
    file_sizes_by_handle = (0, 7) ∷ (1, 6) ∷ [];
  };
}

filled_donut_lem : append_hashes empty_donut batch ≡ ok (filled_donut, 3)
unfolding append_hashes append_entries remaining_capacity append_entry append_suffix_entry
    write_suffixes_file_entry append_to_file lookup write_hashes_order_file_entry all_ones write_at
    to_le ls_suffix_bytes_masked ls_suffix_bytes ms_prefix_bytes_masked ms_prefix_bytes seal_if_full
    insert_hashes insert add_base sub_base assign
filled_donut_lem = refl

filled_donut-IsStored : IsStored filled_donut
filled_donut-IsStored =
    let (d, e, a) = batch_accepted in
    let same : d ≡ filled_donut = ground (arith, e, filled_donut_lem) in
    subst IsStored same a.stored

forward_lookup-reverse_lookup_example :
    forward_lookup filled_donut (reverse_lookup filled_donut hash_b) ≡ ok (some hash_b)
unfolding reverse_lookup lookup add_base
forward_lookup-reverse_lookup_example =
    forward_lookup-reverse_lookup filled_donut hash_b filled_donut-IsStored (λ e. ground (arith, e))

-- A hash that stands at two places: what append_hashes makes of it in memory.
abbrev repeating : List HashItem
repeating = some hash_b ∷ none ∷ some hash_b ∷ []

abbrev repeating_donut : Remainder
repeating_donut = record empty_donut {
  forward_lookup_vector = repeating;
  reverse_lookup_map = (hash_b, record { value = 0 }) ∷ [];
  st00_manifest = record empty_manifest {
    folder =
        (hashes_order_filename, 2 ∷ 0 ∷ 0 ∷ 255 ∷ 255 ∷ 1 ∷ 0 ∷ [])
        ∷ (hash_entries_filename, 7 ∷ 255 ∷ 0 ∷ 7 ∷ 255 ∷ 2 ∷ [])
        ∷ [];
    file_sizes_by_handle = (0, 7) ∷ (1, 6) ∷ [];
  };
}

repeating_donut_lem : append_hashes empty_donut repeating ≡ ok (repeating_donut, 3)
unfolding append_hashes append_entries remaining_capacity append_entry append_suffix_entry
    write_suffixes_file_entry append_to_file lookup write_hashes_order_file_entry all_ones write_at
    to_le ls_suffix_bytes_masked ls_suffix_bytes ms_prefix_bytes_masked ms_prefix_bytes seal_if_full
    insert_hashes insert add_base sub_base assign
repeating_donut_lem = refl

empty_donut-IsMapped : IsMapped empty_donut
unfolding insert_hashes
empty_donut-IsMapped = record { fits = omega arith; below = omega arith; mapped = refl }

append_hashes-earliest_example :
    (j : ℕ) × (j ≤ 2)
    × (reverse_lookup repeating_donut hash_b ≡ record { value = j + 3 })
    × (get_elem? repeating j ≡ some (some hash_b))
append_hashes-earliest_example =
    append_hashes-earliest empty_donut repeating_donut repeating 3 hash_b 2 empty_donut-IsMapped
      repeating_donut_lem refl

repeating_donut-IsMapped : IsMapped repeating_donut
unfolding insert_hashes insert
repeating_donut-IsMapped = record { fits = omega arith; below = omega arith; mapped = refl }

reverse_lookup-earliest_example :
    (j : ℕ) × (j ≤ 2)
    × (reverse_lookup repeating_donut hash_b ≡ record { value = j + 3 })
    × (get_elem? repeating j ≡ some (some hash_b))
reverse_lookup-earliest_example =
    reverse_lookup-earliest repeating_donut hash_b 2 repeating_donut-IsMapped refl

-- It is the first of the two places.
repeating_donut_first : reverse_lookup repeating_donut hash_b ≡ record { value = 3 }
unfolding reverse_lookup lookup insert_hashes insert add_base
repeating_donut_first = refl

-- The folder of the new donut, opened again.
abbrev reopened_donut : Remainder
reopened_donut = record empty_donut {
  st00_manifest = register_files (unregistered empty_manifest.folder) empty_manifest.folder;
  file_handle_hashes_order = some 0;
  file_handle_suffix_entries = some 1;
}

reopened_donut_lem : new_remainder 2 path 5 (some empty_manifest.folder) ≡ ok reopened_donut
unfolding new_remainder new_manifest object_folder_single_offset stoi_whole new_calculator
    calculate_bytes_per_local_pi bit_width hydrate_self_for_lookup lookup register_file
    hydrate_from_bytes hydrate_entries get_file_handle assign
reopened_donut_lem = refl

append_hashes-reopened_example : append_hashes reopened_donut batch ≢ ok (reopened_donut, 3)
unfolding remaining_capacity
append_hashes-reopened_example =
    append_hashes-reopened 2 path 5 empty_manifest.folder reopened_donut (some hash_a)
      (none ∷ some hash_b ∷ []) (reopened_donut, 3) reopened_donut_lem (omega arith)

-- A hash that is in the donut already is written again, but the map keeps its size: the next suffix
-- index is one too small, and the folder cannot be read back.
duplicate_run : Result (List HashItem)
duplicate_run = do
  (d, n) ← append_hashes empty_donut (some hash_a ∷ some hash_a ∷ [])
  (d, n) ← append_hashes d (some hash_b ∷ [])
  d ← new_remainder 2 path 5 (some d.st00_manifest.folder)
  ok d.forward_lookup_vector

duplicate_run_lem : duplicate_run ≡ err assertion_failed
unfolding duplicate_run append_hashes new_remainder append_entries remaining_capacity append_entry
    append_suffix_entry write_suffixes_file_entry append_to_file lookup
    write_hashes_order_file_entry all_ones write_at to_le from_le ls_suffix_bytes_masked
    ls_suffix_bytes ms_prefix_bytes_masked ms_prefix_bytes seal_if_full insert_hashes insert
    object_folder_single_offset stoi_whole bit_width calculate_bytes_per_local_pi new_calculator
    hash_from_prefix_suffix read_hashes_order_entry_from_bytes read_ls_suffixes_entry_from_bytes
    get_file_handle new_manifest register_file register_files hydrate_entries hydrate_entry
    hydrate_from_bytes hydrate_hash hydrate_self_for_lookup add_base sub_base assign
duplicate_run_lem = refl
