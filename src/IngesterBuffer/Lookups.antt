-- ===== src/IngesterBuffer/Lookups.antt =====
-- Lookups in the buffer: its map tells the last place of each hash.
use wedding_cake_cpp.Base.{
  ℕ, ◌+◌, ◌≤◌, ◌<◌, ◌≡◌, ◌⊎◌, inl, inr, sym, ap, subst, ◌∙◌, List, [], ◌∷◌, ◌++◌, append_assoc,
  append-nil, none, some, nat_eq, length, length-append, get_elem?, nat_Eq, list_Eq, ok,
  Option-cases, Bool-cases, arith,
}
use wedding_cake_cpp.Base.Dict.{lookup, assign}
use wedding_cake_cpp.Types.{
  Hash, HashItem, LocalPi, GlobalPi, add_base, distance, global_pi_no_match, pi_no_match_val,
}
use wedding_cake_cpp.Lookup.{contains_pi}
use wedding_cake_cpp.Lookup.Index.{
  Indexes, Indexes-none, Indexes-assign, Indexes-empty, get_elem?-bound,
}
use wedding_cake_cpp.IngesterBuffer.Cases.{accepted, feed_block_of_hashes_cases, consume_cases}
use wedding_cake_cpp.IngesterBuffer.{
  IngesterBuffer, Consumer, index_block, feed_block_of_hashes, request_flush, consume, next_offset,
  forward_lookup, reverse_lookup,
}

-- The map of the buffer is that of its entries.
abbrev pub IsIndexed : IngesterBuffer → Type 0
IsIndexed b = Indexes ◌≤◌ b.buffer b.reverse_lookup_map

pub Indexes-index_block :
    (block vec : List HashItem) (m : List (Hash × LocalPi))
    → Indexes ◌≤◌ vec m
    → Indexes ◌≤◌ (vec ++ block) (index_block block (length vec) m)
unfolding index_block
Indexes-index_block [] vec m x = rw (append-nil vec) x
Indexes-index_block (none ∷ block) vec m x =
    let rest = Indexes-index_block block (vec ++ (none ∷ [])) m (Indexes-none vec m ◌≤◌ x) in
    rw (length-append vec (none ∷ []), append_assoc vec (none ∷ []) block) at rest
Indexes-index_block (some h ∷ block) vec m x =
    let m' = assign h (record { value = length vec }) m in
    let rest = Indexes-index_block block (vec ++ (some h ∷ [])) m' (Indexes-assign vec m h x) in
    rw (length-append vec (some h ∷ []), append_assoc vec (some h ∷ []) block) at rest

-- Feeding a block, whatever becomes of it, keeps the map that of the entries.
pub feed_block_of_hashes-IsIndexed :
    (block : List HashItem) (b b' : IngesterBuffer)
    → IsIndexed b
    → feed_block_of_hashes block b ≡ some b'
    → IsIndexed b'
feed_block_of_hashes-IsIndexed block b b' x e =
    subst IsIndexed (sym (feed_block_of_hashes_cases block b b' e))
      (Indexes-index_block (accepted b block) b.buffer b.reverse_lookup_map x)

pub request_flush-IsIndexed : (b : IngesterBuffer) → IsIndexed b → IsIndexed (request_flush b)
unfolding request_flush
request_flush-IsIndexed b x = elim (Bool-cases (nat_eq (length b.buffer) 0)) [
  | inl empty ↦ rw empty x
  | inr some_items ↦ rw some_items x
]

pub consume-IsIndexed :
    {S : Type 0} (func : Consumer S) (s s' : S) (b b' : IngesterBuffer)
    → consume func s b ≡ ok (s', b')
    → IsIndexed b'
consume-IsIndexed func s s' b b' e =
    let (capacity, _, _, after) = consume_cases func s s' b b' e in
    subst IsIndexed (sym after) (Indexes-empty ◌≤◌)

-- The entry at place i of the buffer is found at the index i places after the first.
pub forward_lookup-at :
    (b : IngesterBuffer) (i : ℕ) (item : HashItem)
    → length b.buffer + b.first_global_pi.value ≤ pi_no_match_val
    → get_elem? b.buffer i ≡ some item
    → forward_lookup b (record { value = i + b.first_global_pi.value }) ≡ ok item
unfolding forward_lookup contains_pi next_offset add_base distance
forward_lookup-at b i item below at =
    let inside = get_elem?-bound b.buffer i item at in ground (arith, at)

reverse_lookup_cases :
    (b : IngesterBuffer) (h : Hash)
    → ((lookup h b.reverse_lookup_map ≡ none) × (reverse_lookup b h ≡ global_pi_no_match))
      ⊎ ((local : LocalPi) × (lookup h b.reverse_lookup_map ≡ some local)
          × (reverse_lookup b h ≡ add_base local b.first_global_pi))
unfolding reverse_lookup
reverse_lookup_cases b h = elim (Option-cases (lookup h b.reverse_lookup_map)) [
  | inl missing ↦ inl (missing, ground (arith, missing))
  | inr (local, found) ↦ inr (local, found, ground (arith, found))
]

add_base_below :
    (local : LocalPi) (base : GlobalPi)
    → local.value + base.value < pi_no_match_val
    → add_base local base ≡ record { value = local.value + base.value }
unfolding add_base
add_base_below local base h = ground arith

-- For a hash that is queued, in a buffer whose map is that of its entries and whose indices do
-- not pass the sentinel, the reverse lookup gives the index of a place of the hash that is not
-- before any place it is known at, and the forward lookup of that index gives the hash back.
pub reverse_lookup-latest :
    (b : IngesterBuffer) (h : Hash) (i : ℕ)
    → IsIndexed b
    → length b.buffer + b.first_global_pi.value ≤ pi_no_match_val
    → get_elem? b.buffer i ≡ some (some h)
    → (j : ℕ) × (i ≤ j)
      × (reverse_lookup b h ≡ record { value = j + b.first_global_pi.value })
      × (forward_lookup b (reverse_lookup b h) ≡ ok (some h))
reverse_lookup-latest b h i x below at =
    let (local, found, late) = x.complete h i at in
    let there = x.sound h local found in
    let inside = get_elem?-bound b.buffer local.value (some h) there in
    elim (reverse_lookup_cases b h) [
      | inl (missing, e) ↦ absurd (ground (arith, missing, found))
      | inr (other, found', e) ↦
          let same : other ≡ local = ground (arith, found, found') in
          let index =
            e
            ∙ ap (λ (t : LocalPi). add_base t b.first_global_pi) same
            ∙ add_base_below local b.first_global_pi (omega arith) in
          (
            local.value,
            late,
            index,
            rw index (forward_lookup-at b local.value (some h) below there),
          )
    ]
