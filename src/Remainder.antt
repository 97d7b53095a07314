-- ===== src/Remainder.antt =====
-- apps/wedding_cake/include/ingester_evolver_types.hpp: Ingester_ST00_RemainderDonut, a donut that
-- has not reached its capacity, in memory and in the two files of its ST00 folder.
-- A hash is a list of `hash_bytes_count` bytes; the path of the object folder is its name.
pub mod Examples
pub mod Grown
pub mod Places
pub mod Closed
pub mod Reopen
mod Sealing
pub mod Keeps
pub mod Durable
pub mod Hydrate
pub mod Append
pub mod Files
use Prim.Native.String.{String}
use wedding_cake_cpp.Base.{
  ℕ, zero, suc, ◌+◌, ◌-◌, ◌*◌, ◌/◌, ◌%◌, ◌^◌, ◌≤◌, ◌<◌, ◌≡◌, refl, List, [], ◌∷◌, ◌++◌, Bool, true,
  false, not, Option, none, some, min, if◌then◌else◌, ltb, leb, nat_eq, length, take, drop,
  get_elem?, replicate, Eq, nat_Eq, string_Eq, list_Eq, Result, ok, err, runtime_error,
  assertion_failed, out_of_bounds, guard, ◌>>=◌, ◌>>◌, arith,
}
use wedding_cake_cpp.Base.Bytes.{u64_max}
use wedding_cake_cpp.Base.Dict.{lookup, insert}
pub use wedding_cake_cpp.Types.{HashItem}
use wedding_cake_cpp.Types.{Hash, LocalPi, GlobalPi, global_pi_no_match, add_base}
use wedding_cake_cpp.Donut.{
  Calculator, new_calculator, hashes_order_entry_size, suffixes_entry_size,
  write_suffixes_file_entry, write_hashes_order_file_entry, read_hashes_order_entry_from_bytes,
  read_ls_suffixes_entry_from_bytes, hash_from_prefix_suffix,
}
use wedding_cake_cpp.Manifest.{
  Manifest, Folder, FilePath, FileHandle, new_manifest, create_new_file, get_file_handle,
  append_to_file, close_file, finish_and_seal,
}
use wedding_cake_cpp.ObjectFolder.{FileName, object_folder_single_offset}
use wedding_cake_cpp.Lookup.{contains_pi}
use wedding_cake_cpp.TierConstants.{ingester_donut_local_pi_bytes}

abbrev pub hashes_order_filename : FilePath
hashes_order_filename = "HashesOrder.bin"

-- make_ms_prefix_path("", 0, MsPrefixIndex(0))
abbrev pub hash_entries_filename : FilePath
hash_entries_filename = "HashEntries.bin"

pub record Remainder : Type 0 where
  pub forward_lookup_vector : List HashItem
  pub reverse_lookup_map : List (Hash × LocalPi)
  pub capacity : ℕ
  pub object_path : FileName
  pub first_global_pi : GlobalPi
  pub st00_manifest : Manifest
  pub donut_entries_calculator : Calculator
  pub file_handle_hashes_order : FileHandle
  pub file_handle_suffix_entries : FileHandle

-- A size_t, which wraps around when a donut was opened that holds more than its capacity.
unfoldable pub remaining_capacity : Remainder → ℕ
remaining_capacity d =
    let size = length d.forward_lookup_vector in
    if leb size d.capacity then d.capacity - size else 2 ^ 64 + d.capacity - size

unfoldable pub next_offset : Remainder → GlobalPi
next_offset d = add_base (record { value = length d.forward_lookup_vector }) d.first_global_pi

unfoldable pub forward_lookup : Remainder → GlobalPi → Result HashItem
forward_lookup d global_pi = do
  guard (contains_pi d.first_global_pi (next_offset d) global_pi) assertion_failed
  elim (get_elem? d.forward_lookup_vector (global_pi.value - d.first_global_pi.value)) [
    | none ↦ err out_of_bounds
    | some item ↦ ok item
  ]

unfoldable pub reverse_lookup : Remainder → Hash → GlobalPi
reverse_lookup d hash = elim (lookup hash d.reverse_lookup_map) [
  | none ↦ global_pi_no_match
  | some local ↦ add_base local d.first_global_pi
]

-- What the first loop of append_hashes carries from one hash to the next.
pub record Writing : Type 0 where
  pub manifest : Manifest
  pub local_pi_int : ℕ
  pub next_suffix_file_index : ℕ
  pub suffix_buffer : List ℕ
  pub hashes_order_buffer : List ℕ

-- The suffix entry, appended if there is one; the result has the suffix index to record.
unfoldable pub append_suffix_entry : Remainder → HashItem → Writing → Result (Writing × ℕ)
append_suffix_entry d item w = do
  (count, buffer) ←
      write_suffixes_file_entry d.donut_entries_calculator item
        (add_base (record { value = w.local_pi_int }) d.first_global_pi) w.suffix_buffer
  if ltb 0 count
      then (do
        m ← append_to_file w.manifest d.file_handle_suffix_entries (take count buffer)
        ok (
          record w {
            manifest = m;
            next_suffix_file_index = w.next_suffix_file_index + 1;
            suffix_buffer = buffer;
          },
          w.next_suffix_file_index,
        ))
      else ok (record w { suffix_buffer = buffer }, u64_max)

unfoldable pub append_entry : Remainder → HashItem → Writing → Result Writing
append_entry d item w = do
  (w', suffix_index) ← append_suffix_entry d item w
  (count, buffer) ←
      write_hashes_order_file_entry d.donut_entries_calculator item suffix_index
        ingester_donut_local_pi_bytes w'.hashes_order_buffer
  m ← append_to_file w'.manifest d.file_handle_hashes_order (take count buffer)
  ok (record w' { manifest = m; local_pi_int = w'.local_pi_int + 1; hashes_order_buffer = buffer })

unfoldable pub append_entries : Remainder → List HashItem → Writing → Result Writing
append_entries d [] w = ok w
append_entries d (item ∷ items) w = do w' ← append_entry d item w; append_entries d items w'

-- The second loop of append_hashes.
unfoldable pub insert_hashes : List HashItem → ℕ → List (Hash × LocalPi) → List (Hash × LocalPi)
insert_hashes [] local_pi_int m = m
insert_hashes (none ∷ items) local_pi_int m = insert_hashes items (local_pi_int + 1) m
insert_hashes (some hash ∷ items) local_pi_int m =
    insert_hashes items (local_pi_int + 1) (insert hash (record { value = local_pi_int }) m)

unfoldable pub seal_if_full : Remainder → Remainder
seal_if_full d =
    if nat_eq (length d.forward_lookup_vector) d.capacity
    then record d {
      st00_manifest = finish_and_seal (
          close_file (close_file d.st00_manifest d.file_handle_suffix_entries)
            d.file_handle_hashes_order);
    }
    else d

-- Returns the number of hashes taken from the front of `ram_buffer`.
unfoldable pub append_hashes : Remainder → List HashItem → Result (Remainder × ℕ)
append_hashes d ram_buffer = do
  let taking = min (length ram_buffer) (remaining_capacity d)
  let taken = take taking ram_buffer
  let n = d.donut_entries_calculator.hash_bytes_count
  let max_suffix_entry = n + ingester_donut_local_pi_bytes
  guard (leb (suffixes_entry_size d.donut_entries_calculator) max_suffix_entry) assertion_failed
  guard
      (leb (hashes_order_entry_size d.donut_entries_calculator ingester_donut_local_pi_bytes)
        ingester_donut_local_pi_bytes)
      assertion_failed
  w ← append_entries d taken (record {
    manifest = d.st00_manifest;
    local_pi_int = length d.forward_lookup_vector;
    next_suffix_file_index = length d.reverse_lookup_map;
    suffix_buffer = replicate max_suffix_entry 0;
    hashes_order_buffer = replicate ingester_donut_local_pi_bytes 0;
  })
  let d' = record d {
    st00_manifest = w.manifest;
    reverse_lookup_map = insert_hashes taken (length d.forward_lookup_vector) d.reverse_lookup_map;
    forward_lookup_vector = d.forward_lookup_vector ++ taken;
  }
  guard (leb (length d'.forward_lookup_vector) d.capacity) assertion_failed
  ok (seal_if_full d', taking)

-- What the loop of hydrate_self_for_lookup carries: the unread bytes of the two streams, and the
-- containers built so far.
pub record Hydration : Type 0 where
  pub order_stream : List ℕ
  pub suffix_stream : List ℕ
  pub vector : List HashItem
  pub reverse_map : List (Hash × LocalPi)
  pub expected_next_suffix_index : ℕ

unfoldable pub hydrate_hash : Calculator → List ℕ → ℕ → Hydration → Result Hydration
hydrate_hash calc ms_prefix suffixes_file_index s = do
  guard (nat_eq suffixes_file_index s.expected_next_suffix_index) assertion_failed
  let suffix_entry_size = suffixes_entry_size calc
  guard (leb suffix_entry_size (length s.suffix_stream)) runtime_error
  suffix_entry ← read_ls_suffixes_entry_from_bytes calc (take suffix_entry_size s.suffix_stream)
  let full_hash = hash_from_prefix_suffix calc ms_prefix suffix_entry.ls_suffix_bytes
  ok (record s {
    suffix_stream = drop suffix_entry_size s.suffix_stream;
    vector = s.vector ++ (some full_hash ∷ []);
    reverse_map = insert full_hash (record { value = length s.vector }) s.reverse_map;
    expected_next_suffix_index = s.expected_next_suffix_index + 1;
  })

unfoldable pub hydrate_entry : Calculator → ℕ → Hydration → Result Hydration
hydrate_entry calc bytes_per_suffix_index s = do
  let order_entry_size = hashes_order_entry_size calc bytes_per_suffix_index
  guard (leb order_entry_size (length s.order_stream)) runtime_error
  order_entry ←
      read_hashes_order_entry_from_bytes calc (take order_entry_size s.order_stream)
        bytes_per_suffix_index
  let s' = record s { order_stream = drop order_entry_size s.order_stream }
  if order_entry.is_sentinel
      then ok (record s' { vector = s.vector ++ (none ∷ []) })
      else hydrate_hash calc order_entry.ms_prefix_bytes order_entry.suffixes_file_index s'

unfoldable pub hydrate_entries : ℕ → Calculator → ℕ → Hydration → Result Hydration
hydrate_entries zero calc bytes_per_suffix_index s = ok s
hydrate_entries (suc num_entries) calc bytes_per_suffix_index s = do
  s' ← hydrate_entry calc bytes_per_suffix_index s
  hydrate_entries num_entries calc bytes_per_suffix_index s'

-- The two containers, from the bytes of HashesOrder.bin and of HashEntries.bin.
unfoldable pub hydrate_from_bytes :
    Calculator → List ℕ → List ℕ → Result (List HashItem × List (Hash × LocalPi))
hydrate_from_bytes calc [] suffix_bytes = ok ([], [])
hydrate_from_bytes calc (bytes_per_suffix_index ∷ payload) suffix_bytes = do
  guard (nat_eq bytes_per_suffix_index ingester_donut_local_pi_bytes) assertion_failed
  let order_entry_size = hashes_order_entry_size calc bytes_per_suffix_index
  guard (nat_eq (length payload % order_entry_size) 0) runtime_error
  s ← hydrate_entries (length payload / order_entry_size) calc bytes_per_suffix_index (record {
    order_stream = payload;
    suffix_stream = suffix_bytes;
    vector = [];
    reverse_map = [];
    expected_next_suffix_index = 0;
  })
  ok (s.vector, s.reverse_map)

unfoldable pub hydrate_self_for_lookup :
    Calculator → Folder → Result (List HashItem × List (Hash × LocalPi))
hydrate_self_for_lookup calc folder = elim (lookup hashes_order_filename folder) [
  | none ↦ ok ([], [])
  | some order_bytes ↦ elim (lookup hash_entries_filename folder) [
    | none ↦ ok ([], [])
    | some suffix_bytes ↦ hydrate_from_bytes calc order_bytes suffix_bytes
  ]
]

-- The constructor. `st00` is the ST00 folder inside the object folder, if it exists.
unfoldable pub new_remainder : ℕ → FileName → ℕ → Option Folder → Result Remainder
new_remainder hash_bytes_count object_path capacity none = do
  offset ← object_folder_single_offset object_path
  m ← new_manifest (some [])
  calc ← new_calculator hash_bytes_count 0 (record { value = offset }) capacity
  (m, order) ← create_new_file m hashes_order_filename
  (m, suffix) ← create_new_file m hash_entries_filename
  m ← append_to_file m order (ingester_donut_local_pi_bytes ∷ [])
  ok (record {
    forward_lookup_vector = [];
    reverse_lookup_map = [];
    capacity = capacity;
    object_path = object_path;
    first_global_pi = record { value = offset };
    st00_manifest = m;
    donut_entries_calculator = calc;
    file_handle_hashes_order = order;
    file_handle_suffix_entries = suffix;
  })
new_remainder hash_bytes_count object_path capacity (some folder) = do
  offset ← object_folder_single_offset object_path
  m ← new_manifest (some folder)
  calc ← new_calculator hash_bytes_count 0 (record { value = offset }) capacity
  (vector, reverse_map) ← hydrate_self_for_lookup calc m.folder
  ok (record {
    forward_lookup_vector = vector;
    reverse_lookup_map = reverse_map;
    capacity = capacity;
    object_path = object_path;
    first_global_pi = record { value = offset };
    st00_manifest = m;
    donut_entries_calculator = calc;
    file_handle_hashes_order = get_file_handle m hashes_order_filename;
    file_handle_suffix_entries = get_file_handle m hash_entries_filename;
  })
