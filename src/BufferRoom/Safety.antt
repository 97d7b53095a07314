-- ===== src/BufferRoom/Safety.antt =====
-- The state of a buffer room that every operation keeps, with one thread at a time in Discard.
use wedding_cake_cpp.Base.{
  ℕ, ◌+◌, ◌≤◌, ◌<◌, ◌≡◌, List, [], ◌∷◌, length-append, Bool, true, false, some, length, arith,
}
use wedding_cake_cpp.BufferRoom.{
  BufferRoom, feed, enter_when_filled, enter_current, start_reading, stop_reading, leave_reader,
  start_discard, pass_wait, clear_items, finish_discard,
}

module _ {T : Type 0} where
  abbrev pub discards : BufferRoom T → ℕ
  discards room = room.waiting_discards + (room.clearing_discards + room.resetting_discards)

  -- The batch is bounded, a reader is registered while it reads, and the items are cleared only when
  -- no reader is registered and none can register.
  pub record IsSafe (r : BufferRoom T) : Type 0 where
    pub bounded : length r.items ≤ r.capacity
    pub registered : r.reading ≤ r.active_readers
    pub one_discard : discards r ≤ 1
    pub flagged : 0 < discards r → r.is_discarding ≡ true
    pub unflagged : discards r ≡ 0 → r.is_discarding ≡ false
    pub no_readers : 0 < r.clearing_discards + r.resetting_discards → r.active_readers ≡ 0
    pub emptied : 0 < r.resetting_discards → r.items ≡ []

  pub feed-IsSafe : (item : T) (r r' : BufferRoom T) → IsSafe r → feed item r ≡ some r' → IsSafe r'
  unfolding feed
  feed-IsSafe item r r' s e =
      let grown = length-append r.items (item ∷ []) in
      record {
        bounded = ground arith;
        registered = ground arith;
        one_discard = ground arith;
        flagged = λ h. ground arith;
        unflagged = λ h. ground arith;
        no_readers = λ h. ground arith;
        emptied = λ h. ground arith;
      }

  pub enter_when_filled-IsSafe :
      (ready : Bool) (r r' : BufferRoom T)
      → IsSafe r
      → enter_when_filled r ≡ some (ready, r')
      → IsSafe r'
  unfolding enter_when_filled
  enter_when_filled-IsSafe ready r r' s e = record {
    bounded = ground arith;
    registered = ground arith;
    one_discard = ground arith;
    flagged = λ h. ground arith;
    unflagged = λ h. ground arith;
    no_readers = λ h. ground arith;
    emptied = λ h. ground arith;
  }

  pub enter_current-IsSafe : (r : BufferRoom T) → IsSafe r → IsSafe (enter_current r).1
  unfolding enter_current
  enter_current-IsSafe r s = record {
    bounded = ground arith;
    registered = ground arith;
    one_discard = ground arith;
    flagged = λ h. ground arith;
    unflagged = λ h. ground arith;
    no_readers = λ h. ground arith;
    emptied = λ h. ground arith;
  }

  pub start_reading-IsSafe :
      (seen : List T) (r r' : BufferRoom T)
      → IsSafe r
      → start_reading r ≡ some (seen, r')
      → IsSafe r'
  unfolding start_reading
  start_reading-IsSafe seen r r' s e = record {
    bounded = ground arith;
    registered = ground arith;
    one_discard = ground arith;
    flagged = λ h. ground arith;
    unflagged = λ h. ground arith;
    no_readers = λ h. ground arith;
    emptied = λ h. ground arith;
  }

  pub stop_reading-IsSafe : (r r' : BufferRoom T) → IsSafe r → stop_reading r ≡ some r' → IsSafe r'
  unfolding stop_reading
  stop_reading-IsSafe r r' s e = record {
    bounded = ground arith;
    registered = ground arith;
    one_discard = ground arith;
    flagged = λ h. ground arith;
    unflagged = λ h. ground arith;
    no_readers = λ h. ground arith;
    emptied = λ h. ground arith;
  }

  pub leave_reader-IsSafe : (r r' : BufferRoom T) → IsSafe r → leave_reader r ≡ some r' → IsSafe r'
  unfolding leave_reader
  leave_reader-IsSafe r r' s e = record {
    bounded = ground arith;
    registered = ground arith;
    one_discard = ground arith;
    flagged = λ h. ground arith;
    unflagged = λ h. ground arith;
    no_readers = λ h. ground arith;
    emptied = λ h. ground arith;
  }

  pub pass_wait-IsSafe : (r r' : BufferRoom T) → IsSafe r → pass_wait r ≡ some r' → IsSafe r'
  unfolding pass_wait
  pass_wait-IsSafe r r' s e = record {
    bounded = ground arith;
    registered = ground arith;
    one_discard = ground arith;
    flagged = λ h. ground arith;
    unflagged = λ h. ground arith;
    no_readers = λ h. ground arith;
    emptied = λ h. ground arith;
  }

  pub clear_items-IsSafe : (r r' : BufferRoom T) → IsSafe r → clear_items r ≡ some r' → IsSafe r'
  unfolding clear_items
  clear_items-IsSafe r r' s e = record {
    bounded = ground arith;
    registered = ground arith;
    one_discard = ground arith;
    flagged = λ h. ground arith;
    unflagged = λ h. ground arith;
    no_readers = λ h. ground arith;
    emptied = λ h. ground arith;
  }

  pub finish_discard-IsSafe :
      (r r' : BufferRoom T) → IsSafe r → finish_discard r ≡ some r' → IsSafe r'
  unfolding finish_discard
  finish_discard-IsSafe r r' s e = record {
    bounded = ground arith;
    registered = ground arith;
    one_discard = ground arith;
    flagged = λ h. ground arith;
    unflagged = λ h. ground arith;
    no_readers = λ h. ground arith;
    emptied = λ h. ground arith;
  }

  pub start_discard-IsSafe :
      (r : BufferRoom T) → IsSafe r → discards r ≡ 0 → IsSafe (start_discard r)
  unfolding start_discard
  start_discard-IsSafe r s e = record {
    bounded = ground arith;
    registered = ground arith;
    one_discard = ground arith;
    flagged = λ h. ground arith;
    unflagged = λ h. ground arith;
    no_readers = λ h. ground arith;
    emptied = λ h. ground arith;
  }
