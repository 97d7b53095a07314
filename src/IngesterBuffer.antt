-- ===== src/IngesterBuffer.antt =====
-- apps/wedding_cake/include/ingester_buffer.hpp: IngesterBuffer, the queue in memory between the
-- clients and the worker. Each operation runs under the lock; an operation that waits on a condition
-- variable is `none` while its condition does not hold, and may be tried again. The containers are
-- those of one lock holder, so that operations happen in some order.
pub mod Cases
pub mod Lookups
pub mod Steps
mod Examples
use wedding_cake_cpp.Base.{
  ℕ, zero, suc, ◌+◌, ◌-◌, ◌%◌, ◌^◌, ◌≤◌, ◌<◌, ◌≡◌, refl, List, [], ◌∷◌, ◌++◌, Bool, true, false,
  not, ◌&&◌, ◌||◌, Option, none, some, if◌then◌else◌, ltb, leb, nat_eq, length, get_elem?, Eq,
  nat_Eq, list_Eq, Result, ok, err, assertion_failed, out_of_bounds, guard, ◌>>=◌, ◌>>◌,
}
use wedding_cake_cpp.Base.Dict.{lookup, assign}
use wedding_cake_cpp.Types.{
  Hash, HashItem, LocalPi, GlobalPi, global_pi_no_match, add_base, distance,
}
use wedding_cake_cpp.Lookup.{contains_pi}

pub record IngesterBuffer : Type 0 where
  pub downstream_remaining_capacity : ℕ
  pub buffer : List HashItem
  pub reverse_lookup_map : List (Hash × LocalPi)
  pub first_global_pi : GlobalPi
  pub please_flush : Bool
  pub stopping : Bool

unfoldable pub new_ingester_buffer : ℕ → GlobalPi → Result IngesterBuffer
new_ingester_buffer initial_downstream_remaining_capacity initial_first_global_pi = do
  guard (ltb 0 initial_downstream_remaining_capacity) assertion_failed
  ok (record {
    downstream_remaining_capacity = initial_downstream_remaining_capacity;
    buffer = [];
    reverse_lookup_map = [];
    first_global_pi = initial_first_global_pi;
    please_flush = false;
    stopping = false;
  })

-- The loop of feed_block_of_hashes over the block.
unfoldable pub index_block : List HashItem → ℕ → List (Hash × LocalPi) → List (Hash × LocalPi)
index_block [] local_pi_int m = m
index_block (none ∷ block) local_pi_int m = index_block block (local_pi_int + 1) m
index_block (some hash ∷ block) local_pi_int m =
    index_block block (local_pi_int + 1) (assign hash (record { value = local_pi_int }) m)

-- The condition that feed_block_of_hashes waits for.
abbrev pub can_feed : IngesterBuffer → Bool
can_feed b = ltb (length b.buffer) b.downstream_remaining_capacity || b.stopping

unfoldable pub feed_block_of_hashes : List HashItem → IngesterBuffer → Option IngesterBuffer
feed_block_of_hashes [] b = some b
feed_block_of_hashes (item ∷ block) b =
    if can_feed b
    then if b.stopping
      then some b
      else some (record b {
        reverse_lookup_map = index_block (item ∷ block) (length b.buffer) b.reverse_lookup_map;
        buffer = b.buffer ++ (item ∷ block);
      })
    else none

-- flush() up to its wait; an empty buffer has nothing to wait for.
unfoldable pub request_flush : IngesterBuffer → IngesterBuffer
request_flush b = if nat_eq (length b.buffer) 0 then b else record b { please_flush = true }

-- The condition that flush() waits for.
abbrev pub flush_returns : IngesterBuffer → Bool
flush_returns b = not b.please_flush || b.stopping

unfoldable pub stop : IngesterBuffer → IngesterBuffer
stop b = record b { stopping = true; please_flush = false }

-- The condition that with_at_least_n_hashes waits for.
abbrev pub has_items : IngesterBuffer → Bool
has_items b =
    leb b.downstream_remaining_capacity (length b.buffer) || (b.please_flush || b.stopping)

-- `func` has a state of its own and the buffer, which it may change, and returns the new capacity.
abbrev pub Consumer : Type 0 → Type 0
Consumer S = S → List HashItem → Bool → Result (S × List HashItem × ℕ)

unfoldable pub consume :
    {S : Type 0} → Consumer S → S → IngesterBuffer → Result (S × IngesterBuffer)
consume func s b = do
  let is_flush_active = b.please_flush
  let buffer_size_sent = length b.buffer
  (s', buffer, new_remaining_capacity) ← func s b.buffer is_flush_active
  guard (nat_eq (length buffer) 0) assertion_failed
  guard (ltb 0 new_remaining_capacity) assertion_failed
  ok (
    s',
    record b {
      buffer = buffer;
      downstream_remaining_capacity = new_remaining_capacity;
      first_global_pi = record { value = (b.first_global_pi.value + buffer_size_sent) % 2 ^ 64 };
      reverse_lookup_map = [];
      please_flush = if is_flush_active then false else b.please_flush;
    },
  )

unfoldable pub with_at_least_n_hashes :
    {S : Type 0} → Consumer S → S → IngesterBuffer → Option (Result (S × IngesterBuffer))
with_at_least_n_hashes func s b =
    if has_items b
    then if b.stopping && nat_eq (length b.buffer) 0
      then some (ok (s, b))
      else some (consume func s b)
    else none

abbrev pub size : IngesterBuffer → ℕ
size b = length b.buffer

abbrev pub first_offset : IngesterBuffer → GlobalPi
first_offset b = b.first_global_pi

unfoldable pub next_offset : IngesterBuffer → GlobalPi
next_offset b = add_base (record { value = length b.buffer }) b.first_global_pi

unfoldable pub forward_lookup : IngesterBuffer → GlobalPi → Result HashItem
forward_lookup b global_pi = do
  guard (contains_pi b.first_global_pi (next_offset b) global_pi) assertion_failed
  elim (get_elem? b.buffer (distance global_pi b.first_global_pi)) [
    | none ↦ err out_of_bounds
    | some item ↦ ok item
  ]

unfoldable pub reverse_lookup : IngesterBuffer → Hash → GlobalPi
reverse_lookup b hash = elim (lookup hash b.reverse_lookup_map) [
  | none ↦ global_pi_no_match
  | some local ↦ add_base local b.first_global_pi
]
