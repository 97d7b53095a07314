-- ===== src/BufferRoom/Steps.antt =====
-- The threads at a buffer room, of which one at a time may be in Discard.
use wedding_cake_cpp.Base.{
  ◌+◌, ◌<◌, ◌≡◌, refl, sym, ap, ◌∙◌, List, [], Bool, true, false, some, length, arith,
}
use wedding_cake_cpp.BufferRoom.{
  BufferRoom, feed, enter_when_filled, enter_current, start_reading, stop_reading, leave_reader,
  start_discard, pass_wait, clear_items, finish_discard,
}
use wedding_cake_cpp.BufferRoom.Safety.{
  discards, IsSafe, feed-IsSafe, enter_when_filled-IsSafe, enter_current-IsSafe,
  start_reading-IsSafe, stop_reading-IsSafe, leave_reader-IsSafe, pass_wait-IsSafe,
  clear_items-IsSafe, finish_discard-IsSafe, start_discard-IsSafe,
}

module _ {T : Type 0} where
  -- One operation of one thread. A new call of Discard begins when no other is under way.
  pub data Step : BufferRoom T → BufferRoom T → Type 0 where
    fed : (item : T) (r r' : BufferRoom T) → feed item r ≡ some r' → Step r r'
    filled :
        (ready : Bool) (r r' : BufferRoom T) → enter_when_filled r ≡ some (ready, r') → Step r r'
    looked : (r : BufferRoom T) → Step r (enter_current r).1
    started : (seen : List T) (r r' : BufferRoom T) → start_reading r ≡ some (seen, r') → Step r r'
    stopped : (r r' : BufferRoom T) → stop_reading r ≡ some r' → Step r r'
    left : (r r' : BufferRoom T) → leave_reader r ≡ some r' → Step r r'
    discarding : (r : BufferRoom T) → discards r ≡ 0 → Step r (start_discard r)
    passed : (r r' : BufferRoom T) → pass_wait r ≡ some r' → Step r r'
    cleared : (r r' : BufferRoom T) → clear_items r ≡ some r' → Step r r'
    finished : (r r' : BufferRoom T) → finish_discard r ≡ some r' → Step r r'

  pub data Run (r : BufferRoom T) : BufferRoom T → Type 0 where
    here : Run r r
    next : {s t : BufferRoom T} → Run r s → Step s t → Run r t

  Step-IsSafe : {r r' : BufferRoom T} → Step r r' → IsSafe r → IsSafe r'
  Step-IsSafe (fed item r r' e) s = feed-IsSafe item r r' s e
  Step-IsSafe (filled ready r r' e) s = enter_when_filled-IsSafe ready r r' s e
  Step-IsSafe (looked r) s = enter_current-IsSafe r s
  Step-IsSafe (started seen r r' e) s = start_reading-IsSafe seen r r' s e
  Step-IsSafe (stopped r r' e) s = stop_reading-IsSafe r r' s e
  Step-IsSafe (left r r' e) s = leave_reader-IsSafe r r' s e
  Step-IsSafe (discarding r e) s = start_discard-IsSafe r s e
  Step-IsSafe (passed r r' e) s = pass_wait-IsSafe r r' s e
  Step-IsSafe (cleared r r' e) s = clear_items-IsSafe r r' s e
  Step-IsSafe (finished r r' e) s = finish_discard-IsSafe r r' s e

  -- With one call of Discard at a time, every run of producers, workers, readers and the
  -- discarding caller keeps a room safe: its items do not pass the capacity, readers are
  -- registered while they read, the flag is set exactly while a discard is under way, and the
  -- items are cleared only when no reader is registered.
  pub Run-IsSafe : {r r' : BufferRoom T} → Run r r' → IsSafe r → IsSafe r'
  Run-IsSafe here s = s
  Run-IsSafe (next run step) s = Step-IsSafe step (Run-IsSafe run s)

  -- While a reader is registered, a step leaves a filled room's items as they are.
  pub Step-filled :
      {r r' : BufferRoom T}
      → Step r r'
      → IsSafe r
      → length r.items ≡ r.capacity
      → 0 < r.active_readers
      → r'.items ≡ r.items
  unfolding feed enter_when_filled enter_current start_reading stop_reading leave_reader
      start_discard pass_wait clear_items finish_discard
  Step-filled (fed item r r' e) s full reader = ground arith
  Step-filled (filled ready r r' e) s full reader = ground arith
  Step-filled (looked r) s full reader = ground arith
  Step-filled (started seen r r' e) s full reader = ground arith
  Step-filled (stopped r r' e) s full reader = ground arith
  Step-filled (left r r' e) s full reader = ground arith
  Step-filled (discarding r e) s full reader = refl
  Step-filled (passed r r' e) s full reader = ground arith
  Step-filled (cleared r r' e) s full reader = ground arith
  Step-filled (finished r r' e) s full reader = ground arith

  -- Steps among which some reader is always registered.
  pub data Watched (r : BufferRoom T) : BufferRoom T → Type 0 where
    here : Watched r r
    next : {s t : BufferRoom T} → Watched r s → 0 < s.active_readers → Step s t → Watched r t

  Step-capacity : {r r' : BufferRoom T} → Step r r' → r'.capacity ≡ r.capacity
  unfolding feed enter_when_filled enter_current start_reading stop_reading leave_reader
      start_discard pass_wait clear_items finish_discard
  Step-capacity (fed item r r' e) = ground arith
  Step-capacity (filled ready r r' e) = ground arith
  Step-capacity (looked r) = ground arith
  Step-capacity (started seen r r' e) = ground arith
  Step-capacity (stopped r r' e) = ground arith
  Step-capacity (left r r' e) = ground arith
  Step-capacity (discarding r e) = refl
  Step-capacity (passed r r' e) = ground arith
  Step-capacity (cleared r r' e) = ground arith
  Step-capacity (finished r r' e) = ground arith

  watched :
      {r r' : BufferRoom T}
      → Watched r r'
      → IsSafe r
      → length r.items ≡ r.capacity
      → IsSafe r' × (r'.items ≡ r.items) × (r'.capacity ≡ r.capacity)
  watched here s full = (s, refl, refl)
  watched {r = r} (next {s = m} run reader step) s full =
      let (safe, same, cap) = watched run s full in
      let still : length m.items ≡ m.capacity = ap (length {A = T}) same ∙ full ∙ sym cap in
      (Step-IsSafe step safe, Step-filled step safe still reader ∙ same, Step-capacity step ∙ cap)

  -- In a room that is safe, a worker that was let in because the room was full sees exactly the
  -- items of that moment, as many as the capacity, however the other threads go on while some
  -- reader stays registered, a discard that begins meanwhile included.
  pub filled_view :
      (r entered watched_end reading : BufferRoom T) (seen : List T)
      → IsSafe r
      → enter_when_filled r ≡ some (true, entered)
      → Watched entered watched_end
      → start_reading watched_end ≡ some (seen, reading)
      → (seen ≡ r.items) × (length seen ≡ r.capacity)
  unfolding enter_when_filled start_reading
  filled_view r entered watched_end reading seen s e run view =
      let full : length r.items ≡ r.capacity = ground arith in
      let same : entered.items ≡ r.items = ground arith in
      let cap : entered.capacity ≡ r.capacity = ground arith in
      let safe = enter_when_filled-IsSafe true r entered s e in
      let still : length entered.items ≡ entered.capacity =
        ap (length {A = T}) same ∙ full ∙ sym cap in
      let kept = (watched run safe still).1 in
      let all : seen ≡ watched_end.items = ground arith in
      let found : seen ≡ r.items = all ∙ kept ∙ same in (found, ap (length {A = T}) found ∙ full)

  -- In a safe room without readers and without a discard under way, Discard runs through all of
  -- its steps, and afterwards the room is empty, no longer discarding, and without readers.
  pub discard_completes :
      (r : BufferRoom T)
      → IsSafe r
      → discards r ≡ 0
      → r.active_readers ≡ 0
      → (r₁ : BufferRoom T) × (r₂ : BufferRoom T) × (r₃ : BufferRoom T) × (pass_wait
            (start_discard r)
          ≡ some r₁)
        × (clear_items r₁ ≡ some r₂)
        × (finish_discard r₂ ≡ some r₃)
        × (r₃.items ≡ [])
        × (r₃.is_discarding ≡ false)
        × (discards r₃ ≡ 0)
        × (r₃.active_readers ≡ 0)
  unfolding start_discard pass_wait clear_items finish_discard
  discard_completes r s none_running no_reader =
      let r₀ = start_discard r in
      let r₁ : BufferRoom T = record r₀ {
        waiting_discards = r.waiting_discards;
        clearing_discards = r.clearing_discards + 1;
      } in
      let r₂ : BufferRoom T = record r₁ {
        items = [];
        clearing_discards = r.clearing_discards;
        resetting_discards = r.resetting_discards + 1;
      } in
      let r₃ : BufferRoom T = record r₂ {
        is_discarding = false;
        resetting_discards = r.resetting_discards;
      } in
      (r₁, r₂, r₃, ground arith, ground arith, ground arith, refl, refl, none_running, no_reader)
