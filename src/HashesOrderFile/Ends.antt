-- ===== src/HashesOrderFile/Ends.antt =====
-- apps/wedding_cake/include/hashes_order_file.hpp: the reader at the end of its file.
use wedding_cake_cpp.Base.{ℕ, ◌*◌, ◌%◌, ◌^◌, ◌≡◌, refl, [], true, false}
use wedding_cake_cpp.FileStream.{InStream, IsAt, good, peek_eof, peek_eof-end, seekg}
use wedding_cake_cpp.HashesOrderFile.{Format, has_more, seek_entry}

-- Asking once more makes the stream fail.
peek_eof-again :
    (file : InStream)
    → peek_eof (record file { eofbit = true })
      ≡ (true, record file { eofbit = true; failbit = true })
unfolding peek_eof
peek_eof-again file = refl

seekg-failed :
    (offset : ℕ) (file : InStream)
    → good (seekg offset (record file { eofbit = true; failbit = true })) ≡ false
unfolding seekg
seekg-failed offset file = refl

-- At the end of the file the reader says twice that there is no more, and can then no longer
-- seek to any entry.
pub seek_entry-has_more :
    (f : Format) (file : InStream) (index : ℕ)
    → IsAt file []
    → ((has_more (record { format = f; file = file })).0 ≡ false)
      × ((has_more (has_more (record { format = f; file = file })).1).0 ≡ false)
      × ((seek_entry (has_more (has_more (record { format = f; file = file })).1).1 index).0
          ≡ false)
unfolding has_more seek_entry
seek_entry-has_more f file index at =
    rw (peek_eof-end file at, peek_eof-again file)
      (refl, refl, seekg-failed (index * f.entry_bytes_count % 2 ^ 64) file)
