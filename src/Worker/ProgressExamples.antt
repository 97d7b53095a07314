-- ===== src/Worker/ProgressExamples.antt =====
-- A tier whose hatchling has room for five entries gets five of them.
use wedding_cake_cpp.Base.{◌≡◌, refl, List, [], ◌∷◌, false, some, none, ok, arith, All}
use wedding_cake_cpp.Base.Dict.{lookup, insert}
use wedding_cake_cpp.Types.{HashItem}
use wedding_cake_cpp.Remainder.{remaining_capacity}
use wedding_cake_cpp.Remainder.Files.{IsItem}
use wedding_cake_cpp.Remainder.Durable.{IsStored, Fresh}
use wedding_cake_cpp.Remainder.Examples.{empty_donut, empty_donut-IsStored, hash_a, hash_b}
use wedding_cake_cpp.TierFolder.{IngesterTierFolder, directory_of}
use wedding_cake_cpp.Worker.{worker_lambda}
use wedding_cake_cpp.Worker.Order.{tier_entries, IsNewDisk}
use wedding_cake_cpp.Worker.Progress.{IsReady, Advanced, worker_lambda-returns}

abbrev five : List HashItem
five = some hash_a ∷ none ∷ some hash_b ∷ none ∷ none ∷ []

abbrev ready_tier : IngesterTierFolder
ready_tier = record {
  hash_bytes_count = 2;
  disk = [];
  sorted_offsets_found_at_startup = [];
  hatchling = empty_donut;
  buffer_room = record {
    capacity = 4;
    items = [];
    active_readers = 0;
    is_discarding = false;
    reading = 0;
    waiting_discards = 0;
    clearing_discards = 0;
    resetting_discards = 0;
  };
}

ready_tier-IsReady : IsReady ready_tier
ready_tier-IsReady = record {
  stored = empty_donut-IsStored;
  room = omega arith;
  hash_size = refl;
  some_hash = omega arith;
  free = omega arith;
  not_discarding = refl;
  not_reading = refl;
  next_named = omega arith;
}

ready_tier-IsNewDisk : IsNewDisk ready_tier
unfolding directory_of lookup
ready_tier-IsNewDisk path = refl

five-IsItem : All (IsItem 2) five
five-IsItem = (
  (refl, (omega arith, (omega arith, tt))),
  (tt, ((refl, (omega arith, (omega arith, tt))), (tt, (tt, tt)))),
)

five-Fresh : Fresh five 0 []
unfolding lookup insert
five-Fresh = (refl, (refl, tt))

worker_lambda-returns_example :
    (tier' : IngesterTierFolder) × (worker_lambda ready_tier five false
      ≡ ok (some (tier', [], remaining_capacity tier'.hatchling)))
    × IsStored tier'.hatchling
    × (tier_entries tier' ≡ five)
    × Advanced ready_tier tier' five
unfolding remaining_capacity
worker_lambda-returns_example =
    worker_lambda-returns ready_tier ready_tier-IsReady ready_tier-IsNewDisk five false
      (omega arith) five-IsItem five-Fresh
