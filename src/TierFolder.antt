-- ===== src/TierFolder.antt =====
-- apps/wedding_cake/include/ingester_tier_folder.hpp: IngesterTierFolder, the donut that is being
-- filled (the hatchling) and the buffer room of full ones, with their object folders on disk.
-- `disk` has the object folders by name as they were found at startup; what is written later is in
-- the manifests of the donuts.
use wedding_cake_cpp.Base.{
  ℕ, ◌+◌, ◌%◌, ◌^◌, List, [], ◌∷◌, map, true, false, Option, none, some, leb, length, nat_Eq,
  list_Eq, Result, ok, err, runtime_error, assertion_failed, guard, ◌>>=◌, ◌>>◌,
}
use wedding_cake_cpp.Base.Dict.{lookup}
use wedding_cake_cpp.Types.{GlobalPi}
use wedding_cake_cpp.ObjectFolder.{
  FileName, object_folder_name, object_folder_single_offset, object_folder_offsets,
}
use wedding_cake_cpp.TierConstants.{ingester_donut_capacity, tier_fanout}
use wedding_cake_cpp.Remainder.{Remainder, new_remainder}
use wedding_cake_cpp.Remainder
use wedding_cake_cpp.FilledDonut.{
  FilledDonut, ObjectDirectory, remainder_donut, filled_donut, new_filled_donut,
  ingester_hydrate_evolver_from_disk,
}
use wedding_cake_cpp.BufferRoom.{BufferRoom, new_buffer_room, initialize_add, feed}

abbrev pub Disk : Type 0
Disk = List (FileName × ObjectDirectory)

-- A folder that does not exist has no ST00 folder either.
unfoldable pub directory_of : FileName → Disk → ObjectDirectory
directory_of object_path disk = elim (lookup object_path disk) [
  | none ↦ record { st00 = none; st01_exists = false }
  | some directory ↦ directory
]

pub record IngesterTierFolder : Type 0 where
  pub hash_bytes_count : ℕ
  pub disk : Disk
  pub sorted_offsets_found_at_startup : List ℕ
  pub hatchling : Remainder
  pub buffer_room : BufferRoom FilledDonut

unfoldable pub find_sorted_offsets : Disk → List ℕ
find_sorted_offsets disk =
    object_folder_offsets
      (some (map (λ (entry : FileName × ObjectDirectory). (entry.0, true)) disk))

-- sorted_offsets_found.back(), or 0 if nothing was found.
unfoldable pub hatchling_offset : List ℕ → ℕ
hatchling_offset [] = 0
hatchling_offset (offset ∷ []) = offset
hatchling_offset (offset ∷ next ∷ offsets) = hatchling_offset (next ∷ offsets)

unfoldable pub create_or_hydrate_hatchling : ℕ → Disk → List ℕ → Result Remainder
create_or_hydrate_hatchling hash_bytes_count disk sorted_offsets_found =
    let object_path = object_folder_name (hatchling_offset sorted_offsets_found) in
    new_remainder hash_bytes_count object_path ingester_donut_capacity
      (directory_of object_path disk).st00

-- One round of the loop of hydrate_buffer_room.
unfoldable pub hydrate_object :
    ℕ → Disk → ℕ → BufferRoom FilledDonut → Result (BufferRoom FilledDonut)
hydrate_object hash_bytes_count disk offset room = do
  let object_path = object_folder_name offset
  object ←
      ingester_hydrate_evolver_from_disk hash_bytes_count object_path
        (directory_of object_path disk)
  elim object [
    | remainder_donut st00 ↦ err assertion_failed
    | filled_donut st01 ↦ initialize_add st01 room
  ]

-- All offsets but the last.
unfoldable pub hydrate_objects :
    ℕ → Disk → List ℕ → BufferRoom FilledDonut → Result (BufferRoom FilledDonut)
hydrate_objects hash_bytes_count disk [] room = ok room
hydrate_objects hash_bytes_count disk (offset ∷ []) room = ok room
hydrate_objects hash_bytes_count disk (offset ∷ next ∷ offsets) room = do
  room' ← hydrate_object hash_bytes_count disk offset room
  hydrate_objects hash_bytes_count disk (next ∷ offsets) room'

unfoldable pub hydrate_buffer_room :
    ℕ → Disk → List ℕ → BufferRoom FilledDonut → Result (BufferRoom FilledDonut)
hydrate_buffer_room hash_bytes_count disk sorted_offsets_found room = do
  guard (leb (length sorted_offsets_found) (tier_fanout + 1)) runtime_error
  hydrate_objects hash_bytes_count disk sorted_offsets_found room

unfoldable pub new_tier_folder : ℕ → Disk → Result IngesterTierFolder
new_tier_folder hash_bytes_count disk = do
  let offsets = find_sorted_offsets disk
  hatchling ← create_or_hydrate_hatchling hash_bytes_count disk offsets
  room ← hydrate_buffer_room hash_bytes_count disk offsets (new_buffer_room tier_fanout)
  ok (record {
    hash_bytes_count = hash_bytes_count;
    disk = disk;
    sorted_offsets_found_at_startup = offsets;
    hatchling = hatchling;
    buffer_room = room;
  })

-- `ok none` is a Feed that waits, since the buffer room is full.
unfoldable pub promote_hatchling_and_spawn_next :
    IngesterTierFolder → Result (Option IngesterTierFolder)
promote_hatchling_and_spawn_next tier = do
  prev_offset ← object_folder_single_offset tier.hatchling.object_path
  let new_offset = (prev_offset + tier.hatchling.capacity) % 2 ^ 64
  let promoted_hatchling = new_filled_donut tier.hatchling
  elim (feed promoted_hatchling tier.buffer_room) [
    | none ↦ ok none
    | some room ↦ (do
      let object_path = object_folder_name new_offset
      replacement ←
          new_remainder tier.hash_bytes_count object_path ingester_donut_capacity
            (directory_of object_path tier.disk).st00
      ok (some (record tier { hatchling = replacement; buffer_room = room })))
  ]

-- first_offset would ask the buffer room first, by an operation that BufferRoom does not have.
unfoldable pub tier_next_offset : IngesterTierFolder → GlobalPi
tier_next_offset tier = Remainder.next_offset tier.hatchling
