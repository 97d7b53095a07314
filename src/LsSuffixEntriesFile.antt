-- ===== src/LsSuffixEntriesFile.antt =====
-- apps/wedding_cake/include/ls_suffix_entries_file.hpp: the writer and the reader of a file of
-- suffix entries. A writer's file is the bytes that it holds once the writer is closed.
pub mod RoundTrip
mod Examples
use wedding_cake_cpp.Base.{
  ℕ, zero, suc, ◌+◌, ◌-◌, ◌*◌, ◌/◌, ◌%◌, ◌^◌, List, [], ◌∷◌, ◌++◌, Bool, true, false, not, ◌||◌,
  if◌then◌else◌, ltb, leb, nat_eq, bit_and, length, Result, ok, invalid_argument, guard, ◌>>=◌,
  ◌>>◌,
}
use wedding_cake_cpp.Base.Bytes.{to_le, from_le, write_at, u64_max}
use wedding_cake_cpp.Types.{Hash, LocalPi}
use wedding_cake_cpp.Hash.{subspan}
use wedding_cake_cpp.FileStream.{InStream, peek_eof, read, seekg, good, clear}

-- The base class. The number of bytes of a hash is the template's argument.
pub record Format : Type 0 where
  pub hash_bytes_count : ℕ
  pub local_pi_bytes_count : ℕ
  pub ms_prefix_bits_count : ℕ
  pub ls_suffix_bytes_count : ℕ
  pub suffix_start_idx : ℕ
  pub entry_bytes : ℕ

unfoldable pub new_format : ℕ → ℕ → ℕ → Result Format
new_format hash_bytes_count local_pi_bytes_count ms_prefix_bits_count = do
  let total_hash_bits = hash_bytes_count * 8
  guard (ltb ms_prefix_bits_count total_hash_bits) invalid_argument
  guard (not (nat_eq local_pi_bytes_count 0 || ltb 8 local_pi_bytes_count)) invalid_argument
  let ls_suffix_bits = total_hash_bits - ms_prefix_bits_count
  let ls_suffix_bytes_count = (ls_suffix_bits + 7) / 8
  ok (record {
    hash_bytes_count = hash_bytes_count;
    local_pi_bytes_count = local_pi_bytes_count;
    ms_prefix_bits_count = ms_prefix_bits_count;
    ls_suffix_bytes_count = ls_suffix_bytes_count;
    suffix_start_idx = hash_bytes_count - ls_suffix_bytes_count;
    entry_bytes = ls_suffix_bytes_count + local_pi_bytes_count;
  })

pub record Entry : Type 0 where
  pub hash : Hash
  pub local_pi : LocalPi

pub record Writer : Type 0 where
  pub format : Format
  pub file : List ℕ

-- The bytes that append() writes.
abbrev pub suffix_entry_bytes : Format → Entry → List ℕ
suffix_entry_bytes f entry =
    subspan entry.hash f.suffix_start_idx f.ls_suffix_bytes_count
    ++ to_le f.local_pi_bytes_count entry.local_pi.value

unfoldable pub append : Writer → Entry → Result Writer
append w entry = do
  guard (not (ltb (length entry.hash) w.format.hash_bytes_count)) invalid_argument
  ok (record w { file = w.file ++ suffix_entry_bytes w.format entry })

pub record Reader : Type 0 where
  pub format : Format
  pub file : InStream

abbrev pub seeked : Reader → ℕ → InStream
seeked r index = seekg (index * r.format.entry_bytes % 2 ^ 64) (clear r.file)

unfoldable pub seek_entry : Reader → ℕ → Bool × Reader
seek_entry r index = (good (seeked r index), record r { file = seeked r index })

-- `if (!file_ || entry_bytes_ == 0)`
abbrev pub is_unusable : Reader → Bool
is_unusable r = r.file.failbit || nat_eq r.format.entry_bytes 0

unfoldable pub has_more : Reader → Bool × Reader
has_more r =
    let (at_end, file') = peek_eof r.file in
    if is_unusable r
    then (false, r)
    else (if at_end
        then (false, record r { file = clear file' })
        else (true, record r { file = file' }))

-- `(local_pi_bytes_count_ == 8) ? ~0ULL : ((1ULL << (local_pi_bytes_count_ * 8)) - 1)`
abbrev pub pi_mask : Format → ℕ
pi_mask f =
    if nat_eq f.local_pi_bytes_count 8 then u64_max else 2 ^ (f.local_pi_bytes_count * 8) - 1

-- What read_next leaves behind: whether it read an entry, the caller's buffer and index, and the
-- reader.
pub record ReadNext : Type 0 where
  pub success : Bool
  pub out_hash_buf : List ℕ
  pub out_local_pi : LocalPi
  pub reader : Reader

-- The second half of read_next, behind the suffix.
unfoldable pub read_local_pi : Reader → List ℕ → LocalPi → ReadNext
read_local_pi r out_hash_buf out_local_pi =
    let (pi_bytes, file') = read r.format.local_pi_bytes_count r.file in
    if ltb (length pi_bytes) r.format.local_pi_bytes_count
    then record {
      success = false;
      out_hash_buf = out_hash_buf;
      out_local_pi = out_local_pi;
      reader = record r { file = file' };
    }
    else record {
      success = true;
      out_hash_buf = out_hash_buf;
      out_local_pi = record { value = bit_and (from_le pi_bytes) (pi_mask r.format) };
      reader = record r { file = file' };
    }

unfoldable pub read_next : Reader → List ℕ → LocalPi → Result ReadNext
read_next r out_hash_buf out_local_pi =
    if is_unusable r
    then ok (record {
      success = false;
      out_hash_buf = out_hash_buf;
      out_local_pi = out_local_pi;
      reader = r;
    })
    else (do
      guard (not (ltb (length out_hash_buf) r.format.hash_bytes_count)) invalid_argument
      let (suffix, file') = read r.format.ls_suffix_bytes_count r.file
      let buf = write_at out_hash_buf r.format.suffix_start_idx suffix
      let r' = record r { file = file' }
      if ltb (length suffix) r.format.ls_suffix_bytes_count
          then ok (record {
            success = false;
            out_hash_buf = buf;
            out_local_pi = out_local_pi;
            reader = r';
          })
          else ok (read_local_pi r' buf out_local_pi))
