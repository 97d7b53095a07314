-- ===== src/OutputBuffer.antt =====
-- include/evolving_disk_state_old/pipeline_buffer.hpp: OutputBuffer, between the provider and the
-- consumers of a stage. A call of a consumer holds the mutex twice, shared while its lambda sees the
-- contents and exclusively while it wipes them: two operations here, between which others run.
pub mod Steps
mod Examples
use wedding_cake_cpp.Base.{
  ℕ, zero, suc, ◌+◌, ◌-◌, List, [], ◌∷◌, ◌++◌, Bool, true, false, Option, none, some, if◌then◌else◌,
  ltb, leb, nat_eq, length,
}

pub record OutputBuffer (A : Type 0) : Type 0 where
  pub capacity : ℕ
  pub contents : List A

module _ {A : Type 0} where
  abbrev pub new_output_buffer : ℕ → OutputBuffer A
  new_output_buffer capacity = record { capacity = capacity; contents = [] }

  -- `none` waits until there is room.
  unfoldable pub push_back_as_provider : A → OutputBuffer A → Option (OutputBuffer A)
  push_back_as_provider item b =
      if ltb (length b.contents) b.capacity
      then some (record b { contents = b.contents ++ (item ∷ []) })
      else none

  abbrev pub empty : OutputBuffer A → Bool
  empty b = nat_eq (length b.contents) 0

  -- The first half of both calls of a consumer: `none` is a batch that is not full, and otherwise
  -- it is should_wipe, what the lambda returned.
  unfoldable pub show_full_batch : (List A → Bool) → OutputBuffer A → Option Bool
  show_full_batch consumer_lambda b =
      if leb b.capacity (length b.contents) then some (consumer_lambda b.contents) else none

  -- The second half, when should_wipe holds: whether it wiped, and the buffer.
  unfoldable pub wipe_if_full : OutputBuffer A → Bool × OutputBuffer A
  wipe_if_full b =
      if leb b.capacity (length b.contents) then (true, record b { contents = [] }) else (false, b)

  -- The whole of a call that nothing interrupts: what it returns, and the buffer.
  abbrev pub try_after : OutputBuffer A → Option Bool → Bool × OutputBuffer A
  try_after b none = (false, b)
  try_after b (some false) = (true, b)
  try_after b (some true) = (true, (wipe_if_full b).1)

  unfoldable pub try_process_full_batch : (List A → Bool) → OutputBuffer A → Bool × OutputBuffer A
  try_process_full_batch consumer_lambda b = try_after b (show_full_batch consumer_lambda b)

  abbrev pub maybe_after : OutputBuffer A → Option Bool → Bool × OutputBuffer A
  maybe_after b none = (false, b)
  maybe_after b (some false) = (false, b)
  maybe_after b (some true) = wipe_if_full b

  -- The wait has ended, by its condition or by its time.
  unfoldable pub with_full_contents_as_consumer_maybe_wipe :
      (List A → Bool) → OutputBuffer A → Bool × OutputBuffer A
  with_full_contents_as_consumer_maybe_wipe consumer_lambda b =
      maybe_after b (show_full_batch consumer_lambda b)
