-- ===== src/IngesterBuffer/Examples.antt =====
-- A buffer at index 100 with room for two entries, and a worker that keeps what it gets in a list.
use wedding_cake_cpp.Base.{
  ℕ, ◌+◌, ◌≤◌, ◌<◌, ◌≡◌, refl, List, [], ◌∷◌, ◌++◌, none, some, true, false, ◌||◌, ◌&&◌, nat_eq, ok,
  arith,
}
use wedding_cake_cpp.Types.{Hash, HashItem}
use wedding_cake_cpp.Lookup.Index.{Indexes-empty}
use wedding_cake_cpp.IngesterBuffer.{
  IngesterBuffer, Consumer, feed_block_of_hashes, request_flush, stop, consume,
  with_at_least_n_hashes, forward_lookup, reverse_lookup, has_items, can_feed, flush_returns,
}
use wedding_cake_cpp.IngesterBuffer.Cases.{fed}
use wedding_cake_cpp.IngesterBuffer.Lookups.{IsIndexed, Indexes-index_block, reverse_lookup-latest}
use wedding_cake_cpp.IngesterBuffer.Steps.{
  Downstream, Step, Run, entries, IsNumbered, Run-entries, Run-IsNumbered, no_mutual_wait,
  consume-wakes,
}

abbrev hash_a : Hash
hash_a = 1 ∷ 2 ∷ []

abbrev block : List HashItem
block = some hash_a ∷ none ∷ some hash_a ∷ []

abbrev buffer : IngesterBuffer
buffer = record {
  downstream_remaining_capacity = 2;
  buffer = [];
  reverse_lookup_map = [];
  first_global_pi = record { value = 100 };
  please_flush = false;
  stopping = false;
}

abbrev full_buffer : IngesterBuffer
full_buffer = fed buffer block

abbrev drained_buffer : IngesterBuffer
drained_buffer = record buffer {
  downstream_remaining_capacity = 7;
  first_global_pi = record { value = 103 };
}

abbrev keep : Consumer (List HashItem)
keep kept items is_flushing = ok (kept ++ items, [], 7)

abbrev keeper : Downstream (List HashItem)
keeper = record {
  func = keep;
  stored = λ kept. kept;
  stores = λ s s' items is_flushing capacity e. ground (arith, e);
}

fed_lem : feed_block_of_hashes block buffer ≡ some full_buffer
unfolding feed_block_of_hashes
fed_lem = refl

consumed_lem : consume keep [] full_buffer ≡ ok (block, drained_buffer)
unfolding consume
consumed_lem = refl

worked_lem : with_at_least_n_hashes keep [] full_buffer ≡ some (ok (block, drained_buffer))
unfolding with_at_least_n_hashes consume
worked_lem = refl

abbrev run : Run keeper ([], buffer) block (block, drained_buffer)
run =
    Run.next (Run.next Run.here (Step.feed [] buffer full_buffer block fed_lem))
      (Step.work [] block full_buffer drained_buffer worked_lem)

Run-entries_example : entries keeper (block, drained_buffer) ≡ block
Run-entries_example = Run-entries keeper run

buffer-IsNumbered : IsNumbered keeper 100 ([], buffer)
buffer-IsNumbered = record { behind = refl; indexed = Indexes-empty ◌≤◌ }

Run-IsNumbered_example : IsNumbered keeper 100 (block, drained_buffer)
Run-IsNumbered_example = Run-IsNumbered keeper 100 run buffer-IsNumbered

full_buffer-IsIndexed : IsIndexed full_buffer
full_buffer-IsIndexed = Indexes-index_block block [] [] (Indexes-empty ◌≤◌)

reverse_lookup-latest_example :
    (j : ℕ) × (0 ≤ j)
    × (reverse_lookup full_buffer hash_a ≡ record { value = j + 100 })
    × (forward_lookup full_buffer (reverse_lookup full_buffer hash_a) ≡ ok (some hash_a))
reverse_lookup-latest_example =
    reverse_lookup-latest full_buffer hash_a 0 full_buffer-IsIndexed (omega arith) refl

no_mutual_wait_example :
    ((can_feed full_buffer || has_items full_buffer) ≡ true)
    × ((flush_returns full_buffer || has_items full_buffer) ≡ true)
    × ((nat_eq 3 0 || has_items (request_flush full_buffer)) ≡ true)
    × ((can_feed (stop full_buffer)
          && (has_items (stop full_buffer) && flush_returns (stop full_buffer)))
        ≡ true)
no_mutual_wait_example = no_mutual_wait full_buffer

consume-wakes_example :
    ((can_feed drained_buffer && flush_returns drained_buffer) ≡ true)
    × (drained_buffer.buffer ≡ [])
    × (0 < drained_buffer.downstream_remaining_capacity)
consume-wakes_example = consume-wakes keep [] block full_buffer drained_buffer consumed_lem
