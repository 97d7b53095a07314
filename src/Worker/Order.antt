-- ===== src/Worker/Order.antt =====
-- The tier takes the queued entries in their order.
use wedding_cake_cpp.Base.{
  ℕ, zero, suc, ◌+◌, ◌≤◌, ◌≡◌, inl, inr, refl, sym, ap, ap₂, subst, ◌∙◌, List, [], ◌∷◌, ◌++◌,
  append_assoc, append-nil, take-append-drop, false, Option, none, some, min, nat_eq, nat_eq_iff,
  length, length-drop, take, drop, ok, >>=-eq-ok, Bool-cases, Option-cases, ◌%◌, ◌^◌, arith,
}
use wedding_cake_cpp.Types.{HashItem}
use wedding_cake_cpp.TierConstants.{ingester_donut_capacity}
use wedding_cake_cpp.Manifest.{new_manifest, create_new_file, append_to_file}
use wedding_cake_cpp.ObjectFolder.{FileName, object_folder_name, object_folder_single_offset}
use wedding_cake_cpp.Donut.{new_calculator}
use wedding_cake_cpp.Remainder.{
  Remainder, append_hashes, remaining_capacity, new_remainder, hashes_order_filename,
  hash_entries_filename,
}
use wedding_cake_cpp.Remainder.Grown.{grown, append_hashes-grown, seal_if_full-vector}
use wedding_cake_cpp.TierFolder.{IngesterTierFolder, promote_hatchling_and_spawn_next, directory_of}
use wedding_cake_cpp.FilledDonut.{FilledDonut, new_filled_donut}
use wedding_cake_cpp.BufferRoom.{BufferRoom, feed}
use wedding_cake_cpp.Worker.{Round, waiting, stuck, moved, promote_if_full, ingest_round}

-- What an accepted batch does to the vector, for any donut.
pub append_hashes-vector :
    (d d' : Remainder) (ram_buffer : List HashItem) (n : ℕ)
    → append_hashes d ram_buffer ≡ ok (d', n)
    → (n ≡ min (length ram_buffer) (remaining_capacity d))
      × (d'.forward_lookup_vector ≡ d.forward_lookup_vector ++ take n ram_buffer)
append_hashes-vector d d' ram_buffer n e =
    let (m, count, same, _) = append_hashes-grown d d' ram_buffer n e in
    (
      count,
      ap (λ (t : Remainder). t.forward_lookup_vector) same
          ∙ seal_if_full-vector (grown d (take n ram_buffer) m),
    )

-- The entries of all donuts, the oldest first.
abbrev pub room_entries : List FilledDonut → List HashItem
room_entries [] = []
room_entries (donut ∷ donuts) = donut.prior_st00.forward_lookup_vector ++ room_entries donuts

abbrev pub tier_entries : IngesterTierFolder → List HashItem
tier_entries tier = room_entries tier.buffer_room.items ++ tier.hatchling.forward_lookup_vector

room_entries-snoc :
    (donuts : List FilledDonut) (donut : FilledDonut)
    → room_entries (donuts ++ (donut ∷ []))
      ≡ room_entries donuts ++ donut.prior_st00.forward_lookup_vector
room_entries-snoc [] donut = append-nil donut.prior_st00.forward_lookup_vector
room_entries-snoc (x ∷ donuts) donut =
    ap (λ (t : List HashItem). x.prior_st00.forward_lookup_vector ++ t)
      (room_entries-snoc donuts donut)
    ∙ sym (
        append_assoc x.prior_st00.forward_lookup_vector (room_entries donuts)
          donut.prior_st00.forward_lookup_vector)

-- No object folder is left over from an earlier run: a new hatchling is empty.
abbrev pub IsNewDisk : IngesterTierFolder → Type 0
IsNewDisk tier = (path : FileName) → (directory_of path tier.disk).st00 ≡ none

new_remainder-empty :
    (n : ℕ) (path : FileName) (capacity : ℕ) (d : Remainder)
    → new_remainder n path capacity none ≡ ok d
    → d.forward_lookup_vector ≡ []
unfolding new_remainder
new_remainder-empty n path capacity d e =
    let (offset, _, e₁) = >>=-eq-ok (object_folder_single_offset path) _ e in
    let (m, _, e₂) = >>=-eq-ok (new_manifest (some [])) _ e₁ in
    let (c, _, e₃) = >>=-eq-ok (new_calculator n 0 (record { value = offset }) capacity) _ e₂ in
    let ((m₁, order), _, e₄) = >>=-eq-ok (create_new_file m hashes_order_filename) _ e₃ in
    let ((m₂, suffix), _, e₅) = >>=-eq-ok (create_new_file m₁ hash_entries_filename) _ e₄ in
    let (m₃, _, e₆) = >>=-eq-ok (append_to_file m₂ order (2 ∷ [])) _ e₅ in ground (arith, e₆)

feed-items :
    (donut : FilledDonut) (room room' : BufferRoom FilledDonut)
    → feed donut room ≡ some room'
    → room'.items ≡ room.items ++ (donut ∷ [])
unfolding feed
feed-items donut room room' e = ground arith

promote-entries :
    (tier tier' : IngesterTierFolder)
    → IsNewDisk tier
    → promote_hatchling_and_spawn_next tier ≡ ok (some tier')
    → (tier_entries tier' ≡ tier_entries tier) × (tier'.disk ≡ tier.disk)
unfolding promote_hatchling_and_spawn_next new_filled_donut
promote-entries tier tier' new e =
    let (offset, _, e₁) = >>=-eq-ok (object_folder_single_offset tier.hatchling.object_path) _ e in
    let donut : FilledDonut = record { prior_st00 = tier.hatchling } in
    elim (Option-cases (feed donut tier.buffer_room)) [
      | inl waits ↦ absurd (ground (arith, waits, e₁))
      | inr (room, fed) ↦
          let path : FileName = object_folder_name ((offset + tier.hatchling.capacity) % 2 ^ 64) in
          let e₂ = simp fed at e₁ in
          let (next, made, e₃) =
            >>=-eq-ok
              (new_remainder tier.hash_bytes_count path ingester_donut_capacity
                (directory_of path tier.disk).st00)
              _ e₂ in
          let moved_on : IngesterTierFolder = record tier {
            hatchling = next;
            buffer_room = room;
          } in
          let same : tier' ≡ moved_on = ground (arith, e₃) in
          let none_yet = new path in
          let empty =
            new_remainder-empty tier.hash_bytes_count path ingester_donut_capacity next
              (rw none_yet at made) in
          (
            ap (λ (t : IngesterTierFolder). tier_entries t) same
                ∙ ap₂ (λ (a : List FilledDonut) (b : List HashItem). room_entries a ++ b)
                    (feed-items donut tier.buffer_room room fed) empty
                ∙ append-nil (room_entries (tier.buffer_room.items ++ (donut ∷ [])))
                ∙ room_entries-snoc tier.buffer_room.items donut,
            ap (λ (t : IngesterTierFolder). t.disk) same,
          )
    ]

promote_if_full-entries :
    (tier tier' : IngesterTierFolder)
    → IsNewDisk tier
    → promote_if_full tier ≡ ok (some tier')
    → (tier_entries tier' ≡ tier_entries tier) × (tier'.disk ≡ tier.disk)
unfolding promote_if_full
promote_if_full-entries tier tier' new e =
    elim (Bool-cases (nat_eq (remaining_capacity tier.hatchling) 0)) [
      | inl full ↦ promote-entries tier tier' new (simp full at e)
      | inr room ↦
          let same : tier' ≡ tier = ground (arith, e, room) in
          (
            ap (λ (t : IngesterTierFolder). tier_entries t) same,
            ap (λ (t : IngesterTierFolder). t.disk) same,
          )
    ]

-- The tier and the rest of the buffer together hold what they held before.
abbrev pub Keeps : IngesterTierFolder → List HashItem → IngesterTierFolder → List HashItem → Type 0
Keeps tier ram_buffer tier' rest =
    (tier_entries tier' ++ rest ≡ tier_entries tier ++ ram_buffer) × (tier'.disk ≡ tier.disk)

abbrev pub RoundKeeps : IngesterTierFolder → List HashItem → Round → Type 0
RoundKeeps tier ram_buffer waiting = Unit {0}
RoundKeeps tier ram_buffer (stuck tier' rest) = Keeps tier ram_buffer tier' rest
RoundKeeps tier ram_buffer (moved tier' rest) =
    Keeps tier ram_buffer tier' rest × (length ram_buffer ≤ length rest → ram_buffer ≡ [])

taken-entries :
    (tier : IngesterTierFolder) (d : Remainder) (ram_buffer : List HashItem) (n : ℕ)
    → d.forward_lookup_vector ≡ tier.hatchling.forward_lookup_vector ++ take n ram_buffer
    → tier_entries (record tier { hatchling = d }) ++ drop n ram_buffer
      ≡ tier_entries tier ++ ram_buffer
taken-entries tier d ram_buffer n e =
    let old = room_entries tier.buffer_room.items in
    let vec = tier.hatchling.forward_lookup_vector in
    ap (λ (t : List HashItem). (old ++ t) ++ drop n ram_buffer) e
    ∙ ap (λ (t : List HashItem). t ++ drop n ram_buffer)
        (sym (append_assoc old vec (take n ram_buffer)))
    ∙ append_assoc (old ++ vec) (take n ram_buffer) (drop n ram_buffer)
    ∙ ap (λ (t : List HashItem). (old ++ vec) ++ t) (take-append-drop n ram_buffer)

shorter :
    (n : ℕ) (ram_buffer : List HashItem)
    → nat_eq n 0 ≡ false
    → length ram_buffer ≤ length (drop n ram_buffer)
    → ram_buffer ≡ []
shorter n [] h le = refl
shorter zero (x ∷ ram_buffer) h le = absurd (ground (arith, h))
shorter (suc n) (x ∷ ram_buffer) h le = absurd (omega (arith, length-drop n ram_buffer))

pub ingest_round-RoundKeeps :
    (tier : IngesterTierFolder) (ram_buffer : List HashItem) (round : Round)
    → IsNewDisk tier
    → ingest_round tier ram_buffer ≡ ok round
    → RoundKeeps tier ram_buffer round
unfolding ingest_round
ingest_round-RoundKeeps tier ram_buffer round new e =
    let ((d, n), e₁, e₂) = >>=-eq-ok (append_hashes tier.hatchling ram_buffer) _ e in
    let (_, vec) = append_hashes-vector tier.hatchling d ram_buffer n e₁ in
    let kept = taken-entries tier d ram_buffer n vec in
    let tier₁ : IngesterTierFolder = record tier { hatchling = d } in
    elim (Bool-cases (nat_eq n 0)) [
      | inl nothing ↦
          let n_zero : n ≡ 0 = (nat_eq_iff n 0).0 nothing in
          let same : stuck tier₁ ram_buffer ≡ round = ground (arith, e₂, nothing) in
          subst (RoundKeeps tier ram_buffer) same (rw n_zero at kept, refl)
      | inr some_items ↦
          let e₃ = simp some_items at e₂ in
          let (promoted, e₄, e₅) = >>=-eq-ok (promote_if_full tier₁) _ e₃ in
          elim (Option-cases promoted) [
            | inl waits ↦
                let same : waiting ≡ round = ground (arith, e₅, waits) in
                subst (RoundKeeps tier ram_buffer) same tt
            | inr (next, goes) ↦
                let same : moved next (drop n ram_buffer) ≡ round = ground (arith, e₅, goes) in
                let (entries, disk) =
                  promote_if_full-entries tier₁ next new
                    (e₄ ∙ ap (λ (t : Option IngesterTierFolder). ok t) goes) in
                subst (RoundKeeps tier ram_buffer) same (
                  (ap (λ (t : List HashItem). t ++ drop n ram_buffer) entries ∙ kept, disk),
                  shorter n ram_buffer some_items,
                )
          ]
    ]
