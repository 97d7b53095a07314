-- ===== src/HashesOrderFile/Examples.antt =====
-- apps/wedding_cake/include/hashes_order_file.hpp: runs of the code, and the theorems at concrete
-- inputs.
use wedding_cake_cpp.Base.{
  ℕ, ◌≡◌, refl, sym, List, [], ◌∷◌, true, false, ok, inl, arith, err, out_of_bounds,
}
use wedding_cake_cpp.Base.Bytes.{to_le}
use wedding_cake_cpp.Types.{local_pi_no_match}
use wedding_cake_cpp.FileStream.{IsAt, opened, peek_eof, read}
use wedding_cake_cpp.HashesOrderFile.{
  Format, Entry, Reader, append, entry_bytes, has_more, seek_entry, read_next, read_field,
  new_format,
}
use wedding_cake_cpp.HashesOrderFile.Fields.{IsFormat, stored_entry}
use wedding_cake_cpp.HashesOrderFile.RoundTrip.{
  append_all, seek_entry-read_next, IsFitting, read_next-IsFitting,
}
use wedding_cake_cpp.HashesOrderFile.Ends.{seek_entry-has_more}

abbrev narrow : Format
narrow = record {
  local_pi_bytes_count = 1;
  ms_prefix_bits_count = 12;
  ms_prefix_bits_bytes_count = 2;
  entry_bytes_count = 3;
}

narrow_made : new_format 1 12 ≡ ok narrow
unfolding new_format
narrow_made = refl

narrow-IsFormat : IsFormat narrow
narrow-IsFormat = record {
  some_pi = omega arith;
  pi_fits = omega arith;
  below_64 = omega arith;
  field_bytes = refl;
  entry_size = refl;
}

abbrev two_entries : List Entry
two_entries =
    record { local_pi = record { value = 5 }; ms_prefix_bits = 0x123; spare_bits = 7 }
    ∷ record { local_pi = local_pi_no_match; ms_prefix_bits = 1; spare_bits = 0 }
    ∷ []

abbrev second_entry : Entry
second_entry = record { local_pi = local_pi_no_match; ms_prefix_bits = 1; spare_bits = 0 }

abbrev two_written : List ℕ
two_written = 5 ∷ 0x23 ∷ 0x71 ∷ 0xff ∷ 1 ∷ 0 ∷ []

two_entries_written :
    (append_all (record { format = narrow; file = [] }) two_entries).file ≡ two_written
unfolding append entry_bytes to_le
two_entries_written = refl

seek_entry-read_next_example :
    ((seek_entry (record { format = narrow; file = opened two_written }) 1).0 ≡ true)
    × (r : Reader) × (read_next
          (seek_entry (record { format = narrow; file = opened two_written }) 1).1
        ≡ ok (stored_entry narrow second_entry, r))
seek_entry-read_next_example =
    seek_entry-read_next narrow two_entries 1 second_entry (opened two_written) narrow-IsFormat refl
      (sym two_entries_written) refl (omega arith)

second_entry-IsFitting : IsFitting narrow second_entry
second_entry-IsFitting = record {
  pi_below = inl refl;
  prefix_below = omega arith;
  spare_below = omega arith;
}

read_next-IsFitting_example :
    (r : Reader) × (read_next
        (seek_entry (record { format = narrow; file = opened two_written }) 1).1
      ≡ ok (second_entry, r))
read_next-IsFitting_example =
    read_next-IsFitting narrow two_entries 1 second_entry (opened two_written) narrow-IsFormat
      second_entry-IsFitting refl (sym two_entries_written) refl (omega arith)

empty-IsAt : IsAt (opened []) []
empty-IsAt = record { no_eof = refl; no_fail = refl; rest = refl }

seek_entry-has_more_example :
    ((has_more (record { format = narrow; file = opened [] })).0 ≡ false)
    × ((has_more (has_more (record { format = narrow; file = opened [] })).1).0 ≡ false)
    × ((seek_entry (has_more (has_more (record { format = narrow; file = opened [] })).1).1 0).0
        ≡ false)
seek_entry-has_more_example = seek_entry-has_more narrow (opened []) 0 empty-IsAt

-- An index whose bytes are all ones is read as the sentinel.
all_ones_index :
    (stored_entry narrow
      (record { local_pi = record { value = 255 }; ms_prefix_bits = 0; spare_bits = 0 })).local_pi
    ≡ local_pi_no_match
all_ones_index = refl

abbrev wide : Format
wide = record {
  local_pi_bytes_count = 1;
  ms_prefix_bits_count = 64;
  ms_prefix_bits_bytes_count = 8;
  entry_bytes_count = 9;
}

-- A prefix of 64 bits is shifted by 64.
wide_shift :
    read_next (record { format = wide; file = opened (5 ∷ 0 ∷ 0 ∷ 0 ∷ 0 ∷ 0 ∷ 0 ∷ 0 ∷ 0 ∷ []) })
    ≡ err out_of_bounds
unfolding read_next has_more read_field peek_eof read
wide_shift = refl
