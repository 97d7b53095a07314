-- ===== src/LookupableRoom/Examples.antt =====
-- Two donuts of two places each, from index 4.
use wedding_cake_cpp.Base.{
  ℕ, ◌+◌, ◌≡◌, refl, [], ◌∷◌, false, some, if◌then◌else◌, list_eq, nat_Eq, ok, arith,
}
use wedding_cake_cpp.Types.{global_pi_no_match}
use wedding_cake_cpp.Lookup.{Lookupable, contains_pi}
use wedding_cake_cpp.BufferRoom.{BufferRoom}
use wedding_cake_cpp.LookupableRoom.{forward_lookup, reverse_lookup}
use wedding_cake_cpp.LookupableRoom.Laws.{Follows, forward_lookup-donut, reverse_lookup-donut}

-- Its first place holds the hash of one byte, `first`; the second has none.
abbrev donut : ℕ → Lookupable
donut first = record {
  first_offset = record { value = first };
  next_offset = record { value = first + 2 };
  forward_lookup = λ pi. ok (some (pi.value ∷ []));
  reverse_lookup =
      λ h. if list_eq h (first ∷ []) then record { value = first } else global_pi_no_match;
}

abbrev room : BufferRoom Lookupable
room = record {
  capacity = 4;
  items = donut 4 ∷ donut 6 ∷ [];
  active_readers = 1;
  is_discarding = false;
  reading = 1;
  waiting_discards = 0;
  clearing_discards = 0;
  resetting_discards = 0;
}

follows : Follows 4 (donut 4 ∷ donut 6 ∷ [])
follows = (refl, omega arith, (refl, omega arith, tt))

forward_lookup-donut_example : forward_lookup room (record { value = 5 }) ≡ ok (some (5 ∷ []))
unfolding contains_pi
forward_lookup-donut_example =
    forward_lookup-donut (record { value = 5 }) 4 (donut 4) (donut 6 ∷ []) room [] follows refl

reverse_lookup-donut_example : reverse_lookup room (6 ∷ []) ≡ record { value = 6 }
reverse_lookup-donut_example =
    reverse_lookup-donut room (6 ∷ []) (donut 4 ∷ []) [] (donut 6) (refl, tt)
      (λ e. ground (arith, e))
