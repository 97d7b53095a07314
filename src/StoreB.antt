-- ===== src/StoreB.antt =====
-- apps/wedding_cake/include/store_b.hpp: StoreB, the store as its clients see it. Every call is one
-- of the ingester. The two lookups are not implemented: they report a failed MISHAP_ASSERT, at which
-- a debug build breaks, and find nothing.
use wedding_cake_cpp.Base.{ℕ, List, Option, none, some, Result, ok, ◌>>=◌}
use wedding_cake_cpp.Types.{Hash, HashItem, GlobalPi, global_pi_no_match}
use wedding_cake_cpp.TierFolder.{Disk}
use wedding_cake_cpp.Ingester.{
  Ingester, new_ingester, ingester_feed, ingester_flush, ingester_next_offset,
}

pub record StoreB : Type 0 where
  pub ingester_tier : Ingester

unfoldable pub new_store : ℕ → Disk → Result StoreB
new_store hash_bytes_count disk = do
  ingester ← new_ingester hash_bytes_count disk
  ok (record { ingester_tier = ingester })

unfoldable pub store_feed : List HashItem → StoreB → Option StoreB
store_feed hashes store = elim (ingester_feed hashes store.ingester_tier) [
  | none ↦ none
  | some ingester ↦ some (record { ingester_tier = ingester })
]

unfoldable pub store_flush : StoreB → StoreB
store_flush store = record { ingester_tier = ingester_flush store.ingester_tier }

unfoldable pub store_next_offset : StoreB → GlobalPi
store_next_offset store = ingester_next_offset store.ingester_tier

unfoldable pub store_forward_lookup : StoreB → GlobalPi → HashItem
store_forward_lookup store global_pi = none

unfoldable pub store_reverse_lookup : StoreB → Hash → GlobalPi
store_reverse_lookup store hash = global_pi_no_match
