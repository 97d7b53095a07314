-- ===== src/Worker/Progress.antt =====
-- That a round of the worker returns.
use wedding_cake_cpp.Base.{
  ℕ, ◌+◌, ◌%◌, ◌^◌, ◌<◌, ◌≤◌, ◌≡◌, refl, sym, ap, subst, ◌∙◌, List, [], ◌∷◌, ◌++◌, Bool, true,
  false, some, nat_eq, nat_eq_iff, ltb, ◌⊎◌, length-append, lt→ltb, length, take, drop, min,
  take_all, drop_all, append-nil, ok, Bool-cases, inl, inr, All, arith,
}
use native.Mathlib.Nat.{mod-eq_of_lt}
use wedding_cake_cpp.Types.{HashItem, GlobalPi}
use wedding_cake_cpp.ObjectFolder.{object_folder_name, object_folder_single_offset}
use wedding_cake_cpp.ObjectFolder.RoundTrip.{object_folder_single_offset-name}
use wedding_cake_cpp.TierConstants.{ingester_donut_capacity}
use wedding_cake_cpp.Remainder.{Remainder, remaining_capacity}
use wedding_cake_cpp.Remainder.Durable.{IsStored, Fresh, remaining_capacity-fits}
use wedding_cake_cpp.Remainder.Files.{IsItem}
use wedding_cake_cpp.Remainder.Keeps.{Appended, append_hashes-Appended}
use wedding_cake_cpp.Remainder.Reopen.{new_remainder-IsStored}
use wedding_cake_cpp.FilledDonut.{new_filled_donut}
use wedding_cake_cpp.BufferRoom.{feed}
use wedding_cake_cpp.TierFolder.{IngesterTierFolder, promote_hatchling_and_spawn_next}
use wedding_cake_cpp.Worker.{moved, promote_if_full, ingest_round, ingest, worker_lambda}
use wedding_cake_cpp.Worker.Order.{IsNewDisk, tier_entries}
use wedding_cake_cpp.Worker.Ingest.{worker_lambda-entries}

-- A tier that can go on: its hatchling is stored and has room, and the buffer room takes a donut.
pub record IsReady (tier : IngesterTierFolder) : Type 0 where
  pub stored : IsStored tier.hatchling
  pub room : length tier.hatchling.forward_lookup_vector < tier.hatchling.capacity
  pub hash_size : tier.hatchling.donut_entries_calculator.hash_bytes_count ≡ tier.hash_bytes_count
  pub some_hash : 0 < tier.hash_bytes_count
  pub free : length tier.buffer_room.items < tier.buffer_room.capacity
  pub not_discarding : tier.buffer_room.is_discarding ≡ false
  pub not_reading : tier.buffer_room.reading ≡ 0
  pub next_named : tier.hatchling.first_global_pi.value + tier.hatchling.capacity < 2 ^ 31

-- The tier after a batch that leaves room in the hatchling.
pub record Grew (tier tier' : IngesterTierFolder) (batch : List HashItem) : Type 0 where
  pub same_room : tier'.buffer_room ≡ tier.buffer_room
  pub same_path : tier'.hatchling.object_path ≡ tier.hatchling.object_path
  pub vector : tier'.hatchling.forward_lookup_vector ≡ tier.hatchling.forward_lookup_vector ++ batch

-- The tier after a batch that fills the hatchling: the sealed donut is the last of the buffer room,
-- and a new and empty hatchling begins where it ends.
pub record Promoted (tier tier' : IngesterTierFolder) (batch : List HashItem) : Type 0 where
  pub donut : Remainder
  pub fed : tier'.buffer_room.items ≡ tier.buffer_room.items ++ (record { prior_st00 = donut } ∷ [])
  pub donut_stored : IsStored donut
  pub donut_sealed : donut.st00_manifest.finished_sealed ≡ true
  pub donut_vector : donut.forward_lookup_vector ≡ tier.hatchling.forward_lookup_vector ++ batch
  pub empty : tier'.hatchling.forward_lookup_vector ≡ []
  pub first :
      tier'.hatchling.first_global_pi.value
      ≡ tier.hatchling.first_global_pi.value + tier.hatchling.capacity
  pub capacity : tier'.hatchling.capacity ≡ ingester_donut_capacity

-- A hatchling that is full is promoted, and an empty one is stored behind it.
promote-some :
    (tier : IngesterTierFolder) (d : Remainder) (taken : List HashItem)
    → IsReady tier
    → IsNewDisk tier
    → Appended tier.hatchling d taken
    → nat_eq (length d.forward_lookup_vector) d.capacity ≡ true
    → (next : IngesterTierFolder) × (promote_hatchling_and_spawn_next
          (record tier { hatchling = d })
        ≡ ok (some next))
      × IsStored next.hatchling
      × Promoted tier next taken
unfolding promote_hatchling_and_spawn_next feed new_filled_donut
promote-some tier d taken ready new grown full =
    let base = tier.hatchling.first_global_pi.value in
    let named : object_folder_single_offset d.object_path ≡ ok base =
      ap object_folder_single_offset grown.path ∙ ready.stored.named_by in
    let offset = base + tier.hatchling.capacity in
    let wrap : (base + d.capacity) % 2 ^ 64 ≡ offset =
      ap (λ (t : ℕ). (base + t) % 2 ^ 64) grown.capacity
      ∙ mod-eq_of_lt (omega (arith, ready.next_named)) in
    let room : ltb (length tier.buffer_room.items) tier.buffer_room.capacity ≡ true =
      lt→ltb (length tier.buffer_room.items) tier.buffer_room.capacity ready.free in
    let path = object_folder_name offset in
    let (r, made, stored, empty, m, c, o, f, h) =
      new_remainder-IsStored tier.hash_bytes_count path ingester_donut_capacity offset
        (object_folder_single_offset-name offset ready.next_named) ready.some_hash (omega arith)
        (omega arith) (omega (arith, ready.next_named)) in
    rw (named, room, ready.not_discarding, ready.not_reading, wrap, new path, made)
      (
        _,
        refl,
        stored,
        record {
          donut = d;
          fed = refl;
          donut_stored = grown.stored;
          donut_sealed = grown.sealed ∙ full;
          donut_vector = grown.vector;
          empty = empty;
          first = ap (λ (g : GlobalPi). g.value) f;
          capacity = c;
        },
      )

-- What a batch does to a tier: it leaves room in the hatchling, or it fills it.
abbrev pub Advanced : IngesterTierFolder → IngesterTierFolder → List HashItem → Type 0
Advanced tier tier' batch =
    ((length batch < remaining_capacity tier.hatchling) × Grew tier tier' batch)
    ⊎ ((length batch ≡ remaining_capacity tier.hatchling) × Promoted tier tier' batch)

promote_if_full-some :
    (tier : IngesterTierFolder) (d : Remainder) (taken : List HashItem)
    → IsReady tier
    → IsNewDisk tier
    → Appended tier.hatchling d taken
    → (next : IngesterTierFolder) × (promote_if_full (record tier { hatchling = d })
        ≡ ok (some next))
      × IsStored next.hatchling
      × Advanced tier next taken
unfolding promote_if_full
promote_if_full-some tier d taken ready new grown =
    let sum : length d.forward_lookup_vector
        ≡ length tier.hatchling.forward_lookup_vector + length taken =
      ap length grown.vector ∙ length-append tier.hatchling.forward_lookup_vector taken in
    let left = remaining_capacity-fits d grown.stored.fits in
    let left_before = remaining_capacity-fits tier.hatchling ready.stored.fits in
    elim (Bool-cases (nat_eq (remaining_capacity d) 0)) [
      | inl full ↦
          let none_left = (nat_eq_iff _ _).0 full in
          let size : length d.forward_lookup_vector ≡ d.capacity =
            omega (arith, left, grown.stored.fits, none_left) in
          let (next, e, stored, promoted) =
            promote-some tier d taken ready new grown ((nat_eq_iff _ _).1 size) in
          rw full
            (next, e, stored, inr (omega (arith, left_before, sum, size, grown.capacity), promoted))
      | inr some_room ↦
          let size : length d.forward_lookup_vector < d.capacity =
            ground (arith, left, some_room) in
          rw some_room (
            record tier { hatchling = d },
            refl,
            grown.stored,
            inl (
              omega (arith, left_before, sum, size, grown.capacity),
              record { same_room = refl; same_path = grown.path; vector = grown.vector },
            ),
          )
    ]

module _ (tier : IngesterTierFolder) (ready : IsReady tier) (new : IsNewDisk tier) where
  -- A round that takes all of a batch.
  ingest_round-moved :
      (item : HashItem) (ram_buffer : List HashItem)
      → length (item ∷ ram_buffer) ≤ remaining_capacity tier.hatchling
      → All (IsItem tier.hash_bytes_count) (item ∷ ram_buffer)
      → Fresh
          (item ∷ ram_buffer)
          (length tier.hatchling.forward_lookup_vector)
          tier.hatchling.reverse_lookup_map
      → (next : IngesterTierFolder) × (ingest_round tier (item ∷ ram_buffer) ≡ ok (moved next []))
        × IsStored next.hatchling
        × Advanced tier next (item ∷ ram_buffer)
  unfolding ingest_round
  ingest_round-moved item ram_buffer fits items fresh =
      let batch = item ∷ ram_buffer in
      let taking = min (length batch) (remaining_capacity tier.hatchling) in
      let whole : taking ≡ length batch = omega arith in
      let all : take taking batch ≡ batch = take_all taking batch (omega arith) in
      let none_left : drop taking batch ≡ [] = drop_all taking batch (omega arith) in
      let sized : All (IsItem tier.hatchling.donut_entries_calculator.hash_bytes_count) batch =
        subst (λ (n : ℕ). All (IsItem n) batch) (sym ready.hash_size) items in
      let (d, e, grown) =
        append_hashes-Appended tier.hatchling batch ready.stored sized (rw all fresh) in
      let (next, promoted, stored, advanced) =
        promote_if_full-some tier d (take taking batch) ready new grown in
      let advanced' : Advanced tier next batch = subst (Advanced tier next) all advanced in
      let some_taken : nat_eq taking 0 ≡ false = ground (arith, whole) in
      rw e (rw (some_taken, promoted, none_left) (next, refl, stored, advanced'))

  -- For a tier whose hatchling is stored and has room, whose buffer room takes a donut, and whose
  -- next offset is below 2^31, on a disk without object folders of an earlier run, a batch of
  -- entries of the hash size that fits the hatchling and repeats no hash is taken as a whole: the
  -- lambda returns, without waiting and without an exception, nothing is left in the buffer, the
  -- entries follow those of the tier, and the hatchling is stored and its room is what is
  -- reported. A batch that leaves room extends the hatchling and leaves the buffer room as it was;
  -- one that fills the hatchling puts it, stored and sealed, behind the donuts of the buffer room,
  -- and the new hatchling is empty and begins where the old one ends.
  pub worker_lambda-returns :
      (ram_buffer : List HashItem) (is_flushing : Bool)
      → length ram_buffer ≤ remaining_capacity tier.hatchling
      → All (IsItem tier.hash_bytes_count) ram_buffer
      → Fresh ram_buffer
          (length tier.hatchling.forward_lookup_vector)
          tier.hatchling.reverse_lookup_map
      → (tier' : IngesterTierFolder) × (worker_lambda tier ram_buffer is_flushing
          ≡ ok (some (tier', [], remaining_capacity tier'.hatchling)))
        × IsStored tier'.hatchling
        × (tier_entries tier' ≡ tier_entries tier ++ ram_buffer)
        × Advanced tier tier' ram_buffer
  unfolding worker_lambda ingest
  worker_lambda-returns [] is_flushing fits items fresh = (
    tier,
    refl,
    ready.stored,
    sym (append-nil (tier_entries tier)),
    inl (
      omega (arith, remaining_capacity-fits tier.hatchling ready.stored.fits, ready.room),
      record {
        same_room = refl;
        same_path = refl;
        vector = sym (append-nil tier.hatchling.forward_lookup_vector);
      },
    ),
  )
  worker_lambda-returns (item ∷ ram_buffer) is_flushing fits items fresh =
      let (next, e, stored, advanced) = ingest_round-moved item ram_buffer fits items fresh in
      let done : worker_lambda tier (item ∷ ram_buffer) is_flushing
          ≡ ok (some (next, [], remaining_capacity next.hatchling)) =
        rw e refl in
      let (none_left, entries, room) =
        worker_lambda-entries tier next (item ∷ ram_buffer) [] is_flushing
          (remaining_capacity next.hatchling) new done in
      (next, done, stored, entries, advanced)
