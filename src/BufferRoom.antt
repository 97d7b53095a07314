-- ===== src/BufferRoom.antt =====
-- libs/evolving_disk_state/include/evolving_disk_state/buffer_room.hpp: BufferRoom, a bounded batch
-- with producers, workers, readers and a caller who discards the batch.
-- What a thread does between taking and releasing a mutex is one operation. A wait on a condition
-- variable is an operation that is `none` until its condition holds. The lambda of a reader runs
-- between its operations `start_reading` and `stop_reading`, under the shared lock on the data, so
-- that no other thread changes `items` meanwhile; `Feed` holds both locks, and is one operation.
mod Safety
pub mod Steps
mod Examples
use wedding_cake_cpp.Base.{
  ℕ, zero, suc, ◌+◌, ◌-◌, List, [], ◌∷◌, ◌++◌, Bool, true, false, not, ◌&&◌, ◌||◌, Option, none,
  some, if◌then◌else◌, ltb, leb, nat_eq, length, Result, ok, err, invalid_argument, guard, ◌>>=◌,
  ◌>>◌,
}

-- `reading` counts the readers that hold the shared lock on the data. A call of Discard is counted
-- by the point that it has reached: it waits for the readers, it has released the state lock and is
-- about to clear the items, or it is about to take the state lock again.
pub record BufferRoom (T : Type 0) : Type 0 where
  pub capacity : ℕ
  pub items : List T
  pub active_readers : ℕ
  pub is_discarding : Bool
  pub reading : ℕ
  pub waiting_discards : ℕ
  pub clearing_discards : ℕ
  pub resetting_discards : ℕ

module _ {T : Type 0} where
  unfoldable pub new_buffer_room : ℕ → BufferRoom T
  new_buffer_room capacity = record {
    capacity = capacity;
    items = [];
    active_readers = 0;
    is_discarding = false;
    reading = 0;
    waiting_discards = 0;
    clearing_discards = 0;
    resetting_discards = 0;
  }

  -- Before any thread runs.
  unfoldable pub initialize_add : T → BufferRoom T → Result (BufferRoom T)
  initialize_add item room = do
    guard (not (leb room.capacity (length room.items))) invalid_argument
    ok (record room { items = room.items ++ (item ∷ []) })

  unfoldable pub feed : T → BufferRoom T → Option (BufferRoom T)
  feed item room =
      if (ltb (length room.items) room.capacity && not room.is_discarding) && nat_eq room.reading 0
      then some (record room { items = room.items ++ (item ∷ []) })
      else none

  -- The constructor of ReaderScope.
  abbrev pub enter_reader : BufferRoom T → BufferRoom T
  enter_reader room = record room { active_readers = room.active_readers + 1 }

  -- with_contents_when_filled up to its lambda: the wait, then `false` for a discard, or a reader.
  unfoldable pub enter_when_filled : BufferRoom T → Option (Bool × BufferRoom T)
  enter_when_filled room =
      if nat_eq (length room.items) room.capacity || room.is_discarding
      then if room.is_discarding then some (false, room) else some (true, enter_reader room)
      else none

  -- with_current_contents up to its lambda.
  unfoldable pub enter_current : BufferRoom T → Bool × BufferRoom T
  enter_current room = if room.is_discarding then (false, room) else (true, enter_reader room)

  -- A registered reader takes the shared lock, and sees `items`.
  unfoldable pub start_reading : BufferRoom T → Option (List T × BufferRoom T)
  start_reading room =
      if ltb room.reading room.active_readers
      then some (room.items, record room { reading = room.reading + 1 })
      else none

  unfoldable pub stop_reading : BufferRoom T → Option (BufferRoom T)
  stop_reading room =
      if ltb 0 room.reading then some (record room { reading = room.reading - 1 }) else none

  -- The destructor of ReaderScope, for a reader that has released the shared lock.
  unfoldable pub leave_reader : BufferRoom T → Option (BufferRoom T)
  leave_reader room =
      if ltb room.reading room.active_readers
      then some (record room { active_readers = room.active_readers - 1 })
      else none

  -- Discard up to its wait.
  unfoldable pub start_discard : BufferRoom T → BufferRoom T
  start_discard room = record room {
    is_discarding = true;
    waiting_discards = room.waiting_discards + 1;
  }

  -- The wait for the readers is over; the state lock is released.
  unfoldable pub pass_wait : BufferRoom T → Option (BufferRoom T)
  pass_wait room =
      if ltb 0 room.waiting_discards && nat_eq room.active_readers 0
      then some (record room {
        waiting_discards = room.waiting_discards - 1;
        clearing_discards = room.clearing_discards + 1;
      })
      else none

  -- The items are cleared under the exclusive lock on the data.
  unfoldable pub clear_items : BufferRoom T → Option (BufferRoom T)
  clear_items room =
      if ltb 0 room.clearing_discards && nat_eq room.reading 0
      then some (record room {
        items = [];
        clearing_discards = room.clearing_discards - 1;
        resetting_discards = room.resetting_discards + 1;
      })
      else none

  unfoldable pub finish_discard : BufferRoom T → Option (BufferRoom T)
  finish_discard room =
      if ltb 0 room.resetting_discards
      then some
          (record room { is_discarding = false; resetting_discards = room.resetting_discards - 1 })
      else none
