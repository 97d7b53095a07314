-- ===== src/Worker/Examples.antt =====
-- A tier whose hatchling has room for two entries gets three of them: the hatchling is promoted, and
-- its successor, in Offset_2, takes the third.
use wedding_cake_cpp.Base.{
  ℕ, ◌≡◌, refl, List, [], ◌∷◌, false, Option, some, none, Result, ok, err, arith,
}
use wedding_cake_cpp.Base.Bytes.{to_le, write_at}
use wedding_cake_cpp.Base.Dict.{lookup, insert, assign, contains, erase}
use wedding_cake_cpp.Types.{HashItem, add_base, sub_base}
use wedding_cake_cpp.Hash.{
  ls_suffix_bytes, ls_suffix_bytes_masked, ms_prefix_bytes, ms_prefix_bytes_masked,
}
use wedding_cake_cpp.Donut.{
  bit_width, calculate_bytes_per_local_pi, new_calculator, write_suffixes_file_entry,
  write_hashes_order_file_entry, all_ones,
}
use wedding_cake_cpp.Manifest.{
  new_manifest, create_new_file, append_to_file, close_file, finish_and_seal, flush,
}
use wedding_cake_cpp.ObjectFolder.{
  codes, object_folder_name, object_folder_single_offset, stoi_whole,
}
use wedding_cake_cpp.Remainder.{
  Remainder, new_remainder, append_hashes, append_entries, append_entry, append_suffix_entry,
  remaining_capacity, seal_if_full, insert_hashes, hashes_order_filename, hash_entries_filename,
}
use wedding_cake_cpp.FilledDonut.{new_filled_donut}
use wedding_cake_cpp.BufferRoom.{feed}
use wedding_cake_cpp.TierFolder.{IngesterTierFolder, directory_of, promote_hatchling_and_spawn_next}
use wedding_cake_cpp.Worker.{ingest, ingest_round, promote_if_full, worker_lambda}
use wedding_cake_cpp.Worker.Order.{tier_entries, IsNewDisk}
use wedding_cake_cpp.Worker.Ingest.{worker_lambda-entries, ingest_enough}

abbrev batch : List HashItem
batch = some (1 ∷ 2 ∷ []) ∷ none ∷ some (7 ∷ 255 ∷ []) ∷ []

abbrev nothing : List HashItem
nothing = []

abbrev hatchling : Remainder
hatchling = record {
  forward_lookup_vector = [];
  reverse_lookup_map = [];
  capacity = 2;
  object_path = codes "Offset_0";
  first_global_pi = record { value = 0 };
  st00_manifest = record {
    folder = (hashes_order_filename, 2 ∷ []) ∷ (hash_entries_filename, []) ∷ [];
    next_file_handle = 2;
    finished_sealed = false;
    file_handles_by_rel_path = (hashes_order_filename, 0) ∷ (hash_entries_filename, 1) ∷ [];
    rel_paths_by_handle = (0, hashes_order_filename) ∷ (1, hash_entries_filename) ∷ [];
    file_sizes_by_handle = (0, 1) ∷ (1, 0) ∷ [];
    open_files_by_handle = (0, hashes_order_filename) ∷ (1, hash_entries_filename) ∷ [];
  };
  donut_entries_calculator = record {
    hash_bytes_count = 2;
    prefix_bits_count = 0;
    suffix_bits_count = 16;
    prefix_bytes_count = 0;
    suffix_bytes_count = 2;
    first_global_pi = record { value = 0 };
    entries_per_donut = 2;
    bytes_per_local_pi = 1;
  };
  file_handle_hashes_order = some 0;
  file_handle_suffix_entries = some 1;
}

abbrev tier : IngesterTierFolder
tier = record {
  hash_bytes_count = 2;
  disk = [];
  sorted_offsets_found_at_startup = [];
  hatchling = hatchling;
  buffer_room = record {
    capacity = 4;
    items = [];
    active_readers = 0;
    is_discarding = false;
    reading = 0;
    waiting_discards = 0;
    clearing_discards = 0;
    resetting_discards = 0;
  };
}

tier-IsNewDisk : IsNewDisk tier
unfolding directory_of lookup
tier-IsNewDisk path = refl

abbrev tier_of : Result (Option (IngesterTierFolder × List HashItem × ℕ)) → IngesterTierFolder
tier_of (err error) = tier
tier_of (ok none) = tier
tier_of (ok (some (t, rest, capacity))) = t

abbrev worked : IngesterTierFolder
worked = tier_of (worker_lambda tier batch false)

worked_lem : worker_lambda tier batch false ≡ ok (some (worked, [], 65534))
unfolding worker_lambda ingest ingest_round promote_if_full promote_hatchling_and_spawn_next
    new_filled_donut feed directory_of object_folder_name object_folder_single_offset stoi_whole
    append_hashes append_entries remaining_capacity append_entry append_suffix_entry
    write_suffixes_file_entry append_to_file lookup write_hashes_order_file_entry all_ones write_at
    to_le ls_suffix_bytes_masked ls_suffix_bytes ms_prefix_bytes_masked ms_prefix_bytes seal_if_full
    insert_hashes insert add_base sub_base assign contains erase new_remainder new_manifest
    create_new_file close_file finish_and_seal flush new_calculator calculate_bytes_per_local_pi
    bit_width
worked_lem = refl

worker_lambda-entries_example :
    (nothing ≡ []) × (tier_entries worked ≡ batch) × (65534 ≡ remaining_capacity worked.hatchling)
worker_lambda-entries_example =
    worker_lambda-entries tier worked batch nothing false 65534 tier-IsNewDisk worked_lem

ingest_enough_example : ingest 10 tier batch ≡ ingest 3 tier batch
ingest_enough_example = ingest_enough 3 10 tier batch tier-IsNewDisk (omega arith) (omega arith)
