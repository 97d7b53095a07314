-- ===== src/LsSuffixEntriesFile/Examples.antt =====
-- apps/wedding_cake/include/ls_suffix_entries_file.hpp: runs of the code, and the theorem at a
-- concrete input.
use wedding_cake_cpp.Base.{ℕ, ◌≡◌, refl, List, [], ◌∷◌, true, ok, arith}
use wedding_cake_cpp.Base.Bytes.{to_le}
use wedding_cake_cpp.FileStream.{opened}
use wedding_cake_cpp.LsSuffixEntriesFile.{
  Format, new_format, Entry, Reader, append, seek_entry, read_next,
}
use wedding_cake_cpp.LsSuffixEntriesFile.RoundTrip.{
  IsFormat, append_all, read_next-seek_entry, entry_read,
}

-- Hashes of 3 bytes with a prefix of 12 bits.
abbrev narrow : Format
narrow = record {
  hash_bytes_count = 3;
  local_pi_bytes_count = 1;
  ms_prefix_bits_count = 12;
  ls_suffix_bytes_count = 2;
  suffix_start_idx = 1;
  entry_bytes = 3;
}

narrow_made : new_format 3 1 12 ≡ ok narrow
unfolding new_format
narrow_made = refl

narrow-IsFormat : IsFormat narrow
narrow-IsFormat = record {
  some_pi = omega arith;
  pi_fits = omega arith;
  suffix_fits = refl;
  entry_size = refl;
}

abbrev one_entry : Entry
one_entry = record { hash = 1 ∷ 2 ∷ 3 ∷ []; local_pi = record { value = 9 } }

abbrev one_entries : List Entry
one_entries = one_entry ∷ []

-- The least significant byte of the hash, which is its first, is the one that is left out.
abbrev one_written : List ℕ
one_written = 2 ∷ 3 ∷ 9 ∷ []

one_entry_written :
    append_all (record { format = narrow; file = [] }) one_entries
    ≡ ok (record { format = narrow; file = one_written })
unfolding append to_le
one_entry_written = refl

read_next-seek_entry_example :
    ((seek_entry (record { format = narrow; file = opened one_written }) 0).0 ≡ true)
    × (r : Reader) × (read_next
          (seek_entry (record { format = narrow; file = opened one_written }) 0).1
          (0 ∷ 0 ∷ 0 ∷ [])
          (record { value = 0 })
        ≡ ok (entry_read narrow one_entry (0 ∷ 0 ∷ 0 ∷ []) r))
read_next-seek_entry_example =
    read_next-seek_entry narrow one_entries (record { format = narrow; file = one_written }) 0
      one_entry (opened one_written) (0 ∷ 0 ∷ 0 ∷ []) (record { value = 0 }) narrow-IsFormat
      (refl, tt) one_entry_written refl refl (omega arith) (omega arith)
