-- ===== src/Ingester.antt =====
-- apps/wedding_cake/include/ingester.hpp: Ingester, the tier and its queue; the worker thread runs
-- Worker.worker_lambda in rounds of IngesterBuffer.with_at_least_n_hashes. The block height of feed
-- is not used by the code either.
use wedding_cake_cpp.Base.{ℕ, List, Option, none, some, Result, ok, ◌>>=◌}
use wedding_cake_cpp.Types.{HashItem, GlobalPi}
use wedding_cake_cpp.Remainder.{remaining_capacity}
use wedding_cake_cpp.Remainder
use wedding_cake_cpp.TierFolder.{IngesterTierFolder, Disk, new_tier_folder}
use wedding_cake_cpp.IngesterBuffer.{
  IngesterBuffer, new_ingester_buffer, feed_block_of_hashes, request_flush,
}
use wedding_cake_cpp.IngesterBuffer

pub record Ingester : Type 0 where
  pub ingester_tier_folder : IngesterTierFolder
  pub ingester_buffer : IngesterBuffer

unfoldable pub new_ingester : ℕ → Disk → Result Ingester
new_ingester hash_bytes_count disk = do
  tier ← new_tier_folder hash_bytes_count disk
  buffer ←
      new_ingester_buffer (remaining_capacity tier.hatchling) (Remainder.next_offset tier.hatchling)
  ok (record { ingester_tier_folder = tier; ingester_buffer = buffer })

-- `none` waits, as the buffer does.
unfoldable pub ingester_feed : List HashItem → Ingester → Option Ingester
ingester_feed hashes ingester = elim (feed_block_of_hashes hashes ingester.ingester_buffer) [
  | none ↦ none
  | some buffer ↦ some (record ingester { ingester_buffer = buffer })
]

unfoldable pub ingester_flush : Ingester → Ingester
ingester_flush ingester = record ingester {
  ingester_buffer = request_flush ingester.ingester_buffer;
}

-- The destructor, before the thread is joined.
unfoldable pub ingester_stop : Ingester → Ingester
ingester_stop ingester = record ingester {
  ingester_buffer = IngesterBuffer.stop ingester.ingester_buffer;
}

unfoldable pub ingester_next_offset : Ingester → GlobalPi
ingester_next_offset ingester = IngesterBuffer.next_offset ingester.ingester_buffer
