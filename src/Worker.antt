-- ===== src/Worker.antt =====
-- apps/wedding_cake/include/ingestor_worker.hpp: one round of ingestor_worker, which moves the
-- queued entries into the tier. `none` is a round that waits for room in the buffer room.
pub mod Order
pub mod Ingest
pub mod Progress
mod Examples
mod ProgressExamples
use wedding_cake_cpp.Base.{
  ℕ, zero, suc, ◌+◌, List, [], ◌∷◌, Bool, true, false, Option, none, some, if◌then◌else◌, nat_eq,
  length, drop, Result, ok, err, assertion_failed, guard, ◌>>=◌, ◌>>◌,
}
use wedding_cake_cpp.Types.{HashItem}
use wedding_cake_cpp.Remainder.{Remainder, append_hashes, remaining_capacity}
use wedding_cake_cpp.TierFolder.{IngesterTierFolder, promote_hatchling_and_spawn_next}

-- How one round of the ingestion loop ends: `moved` goes on with the rest of the buffer, `stuck` is
-- the break, `waiting` a promotion that waits.
pub data Round : Type 0 where
  waiting : Round
  stuck moved : IngesterTierFolder → List HashItem → Round

-- Step 4 of the loop.
unfoldable pub promote_if_full : IngesterTierFolder → Result (Option IngesterTierFolder)
promote_if_full tier =
    if nat_eq (remaining_capacity tier.hatchling) 0
    then promote_hatchling_and_spawn_next tier
    else ok (some tier)

unfoldable pub ingest_round : IngesterTierFolder → List HashItem → Result Round
ingest_round tier ram_buffer = do
  (st00, consumed_count) ← append_hashes tier.hatchling ram_buffer
  let tier' = record tier { hatchling = st00 }
  if nat_eq consumed_count 0 then ok (stuck tier' ram_buffer) else (do
    promoted ← promote_if_full tier'
    ok (elim promoted [ none ↦ waiting | some next ↦ moved next (drop consumed_count ram_buffer) ]))

abbrev pub Drained : Type 0
Drained = Option (IngesterTierFolder × List HashItem)

-- What follows a round, when `again` is the rest of the loop.
abbrev pub after_round :
    (IngesterTierFolder → List HashItem → Result Drained) → Round → Result Drained
after_round again waiting = ok none
after_round again (stuck tier rest) = ok (some (tier, rest))
after_round again (moved tier rest) = again tier rest

-- The ingestion loop. Each round but the last takes an entry, so that as many rounds as there are
-- entries are enough.
unfoldable pub ingest : ℕ → IngesterTierFolder → List HashItem → Result Drained
ingest fuel tier [] = ok (some (tier, []))
ingest zero tier (item ∷ ram_buffer) = ok (some (tier, item ∷ ram_buffer))
ingest (suc fuel) tier (item ∷ ram_buffer) = do
  round ← ingest_round tier (item ∷ ram_buffer)
  after_round (λ tier' rest. ingest fuel tier' rest) round

-- What follows the loop: the buffer must be empty.
abbrev pub after_ingest : Drained → Result (Option (IngesterTierFolder × List HashItem × ℕ))
after_ingest none = ok none
after_ingest (some (tier, rest)) = do
  guard (nat_eq (length rest) 0) assertion_failed
  ok (some (tier, rest, remaining_capacity tier.hatchling))

-- The lambda; flush_manifest_to_disk does nothing.
unfoldable pub worker_lambda :
    IngesterTierFolder
    → List HashItem
    → Bool
    → Result (Option (IngesterTierFolder × List HashItem × ℕ))
worker_lambda tier [] is_flushing = ok (some (tier, [], remaining_capacity tier.hatchling))
worker_lambda tier (item ∷ ram_buffer) is_flushing = do
  result ← ingest (suc (length ram_buffer)) tier (item ∷ ram_buffer)
  after_ingest result
