-- ===== src/LookupableRoom.antt =====
-- apps/wedding_cake/include/lookupable_buffer_room.hpp: LookupableBufferRoom, lookups in a buffer
-- room of donuts. Each lookup is under with_current_contents, so on the items of one moment, and
-- finds nothing while the room is discarding. A donut is what its operations give.
pub mod Laws
mod Examples
use wedding_cake_cpp.Base.{
  ℕ, List, [], ◌∷◌, ◌++◌, Bool, true, false, Option, none, some, if◌then◌else◌, nat_eq, Result, ok,
  err, assertion_failed, guard, ◌>>=◌, ◌>>◌,
}
use wedding_cake_cpp.Types.{Hash, HashItem, GlobalPi, global_pi_no_match}
use wedding_cake_cpp.Lookup.{Lookupable, contains_pi}
use wedding_cake_cpp.BufferRoom.{BufferRoom}

unfoldable pub first_offset : BufferRoom Lookupable → Result GlobalPi
first_offset room =
    if room.is_discarding
    then ok global_pi_no_match
    else elim room.items [ [] ↦ err assertion_failed | donut ∷ donuts ↦ ok donut.first_offset ]

-- donuts.back()
unfoldable pub back : Lookupable → List Lookupable → Lookupable
back donut [] = donut
back donut (next ∷ donuts) = back next donuts

unfoldable pub next_offset : BufferRoom Lookupable → Result GlobalPi
next_offset room = if room.is_discarding then ok global_pi_no_match else elim room.items [
  | [] ↦ err assertion_failed
  | donut ∷ donuts ↦ ok (back donut donuts).next_offset
]

abbrev pub reverse : List Lookupable → List Lookupable
reverse [] = []
reverse (donut ∷ donuts) = reverse donuts ++ (donut ∷ [])

-- The first donut of the list that contains the index answers.
unfoldable pub search : List Lookupable → GlobalPi → Option (Result HashItem)
search [] global_pi = none
search (donut ∷ donuts) global_pi =
    if contains_pi donut.first_offset donut.next_offset global_pi
    then some (donut.forward_lookup global_pi)
    else search donuts global_pi

unfoldable pub forward_lookup : BufferRoom Lookupable → GlobalPi → Result HashItem
forward_lookup room global_pi = do
  first ← first_offset room
  next ← next_offset room
  guard (contains_pi first next global_pi) assertion_failed
  if room.is_discarding
      then err assertion_failed
      else elim (search (reverse room.items) global_pi) [
        | none ↦ err assertion_failed
        | some result ↦ result
      ]

-- The first donut of the list that knows the hash answers.
unfoldable pub search_hash : List Lookupable → Hash → GlobalPi
search_hash [] hash = global_pi_no_match
search_hash (donut ∷ donuts) hash =
    if nat_eq (donut.reverse_lookup hash).value global_pi_no_match.value
    then search_hash donuts hash
    else donut.reverse_lookup hash

unfoldable pub reverse_lookup : BufferRoom Lookupable → Hash → GlobalPi
reverse_lookup room hash =
    if room.is_discarding then global_pi_no_match else search_hash room.items hash
