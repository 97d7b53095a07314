-- ===== src/BufferRoom/Examples.antt =====
-- A room for two numbers.
use wedding_cake_cpp.Base.{ℕ, ◌≡◌, refl, List, [], ◌∷◌, true, false, some, length, arith}
use wedding_cake_cpp.BufferRoom.{
  BufferRoom, feed, enter_when_filled, start_reading, start_discard, pass_wait, clear_items,
  finish_discard, enter_reader,
}
use wedding_cake_cpp.BufferRoom.Safety.{IsSafe, discards}
use wedding_cake_cpp.BufferRoom.Steps.{
  Step, Run, Watched, Run-IsSafe, filled_view, discard_completes,
}

abbrev room : List ℕ → BufferRoom ℕ
room items = record {
  capacity = 2;
  items = items;
  active_readers = 0;
  is_discarding = false;
  reading = 0;
  waiting_discards = 0;
  clearing_discards = 0;
  resetting_discards = 0;
}

room-IsSafe : IsSafe (room [])
room-IsSafe = record {
  bounded = omega arith;
  registered = omega arith;
  one_discard = omega arith;
  flagged = λ h. absurd (omega arith);
  unflagged = λ h. refl;
  no_readers = λ h. absurd (omega arith);
  emptied = λ h. absurd (omega arith);
}

feed_7 : feed 7 (room []) ≡ some (room (7 ∷ []))
unfolding feed
feed_7 = refl

feed_8 : feed 8 (room (7 ∷ [])) ≡ some (room (7 ∷ 8 ∷ []))
unfolding feed
feed_8 = refl

abbrev filling : Run (room []) (room (7 ∷ 8 ∷ []))
filling =
    Run.next (Run.next Run.here (Step.fed 7 (room []) (room (7 ∷ [])) feed_7))
      (Step.fed 8 (room (7 ∷ [])) (room (7 ∷ 8 ∷ [])) feed_8)

Run-IsSafe_example : IsSafe (room (7 ∷ 8 ∷ []))
Run-IsSafe_example = Run-IsSafe filling room-IsSafe

full-IsSafe : IsSafe (room (7 ∷ 8 ∷ []))
full-IsSafe = record {
  bounded = omega arith;
  registered = omega arith;
  one_discard = omega arith;
  flagged = λ h. absurd (omega arith);
  unflagged = λ h. refl;
  no_readers = λ h. absurd (omega arith);
  emptied = λ h. absurd (omega arith);
}

abbrev entered : BufferRoom ℕ
entered = enter_reader (room (7 ∷ 8 ∷ []))

entered_lem : enter_when_filled (room (7 ∷ 8 ∷ [])) ≡ some (true, entered)
unfolding enter_when_filled
entered_lem = refl

-- A discard begins while the worker is registered.
abbrev interrupted : BufferRoom ℕ
interrupted = record entered { is_discarding = true; waiting_discards = 1 }

interrupted_lem : start_discard entered ≡ interrupted
unfolding start_discard
interrupted_lem = refl

interruption : Watched entered interrupted
unfolding start_discard
interruption = Watched.next Watched.here (omega arith) (Step.discarding entered refl)

abbrev seen : List ℕ
seen = 7 ∷ 8 ∷ []

reading_lem : start_reading interrupted ≡ some (7 ∷ 8 ∷ [], record interrupted { reading = 1 })
unfolding start_reading
reading_lem = refl

filled_view_example : (seen ≡ seen) × (length seen ≡ 2)
filled_view_example =
    filled_view (room (7 ∷ 8 ∷ [])) entered interrupted (record interrupted { reading = 1 }) seen
      full-IsSafe entered_lem interruption reading_lem

discard_completes_example :
    (r₁ : BufferRoom ℕ) × (r₂ : BufferRoom ℕ) × (r₃ : BufferRoom ℕ) × (pass_wait
        (start_discard (room (7 ∷ 8 ∷ [])))
      ≡ some r₁)
    × (clear_items r₁ ≡ some r₂)
    × (finish_discard r₂ ≡ some r₃)
    × (r₃.items ≡ [])
    × (r₃.is_discarding ≡ false)
    × (discards r₃ ≡ 0)
    × (r₃.active_readers ≡ 0)
discard_completes_example = discard_completes (room (7 ∷ 8 ∷ [])) full-IsSafe refl refl
