-- ===== src/HashesOrderFile.antt =====
-- apps/wedding_cake/include/hashes_order_file.hpp: the writer and the reader of HashesOrder.bin. A
-- writer's file is the bytes that it holds once the writer is closed.
pub mod Fields
pub mod RoundTrip
mod Examples
pub mod Ends
use wedding_cake_cpp.Base.{
  ℕ, zero, suc, ◌+◌, ◌-◌, ◌*◌, ◌/◌, ◌%◌, ◌^◌, List, [], ◌∷◌, ◌++◌, Bool, true, false, not, ◌||◌,
  if◌then◌else◌, ltb, leb, nat_eq, bit_and, bit_or, Result, ok, err, invalid_argument,
  out_of_bounds, guard, ◌>>=◌, ◌>>◌,
}
use wedding_cake_cpp.Base.Bytes.{to_le, from_le, u64_max}
use wedding_cake_cpp.Types.{LocalPi, local_pi_no_match, is_no_match}
use wedding_cake_cpp.FileStream.{InStream, peek_eof, read, seekg, good, opened}

-- The base class.
pub record Format : Type 0 where
  pub local_pi_bytes_count : ℕ
  pub ms_prefix_bits_count : ℕ
  pub ms_prefix_bits_bytes_count : ℕ
  pub entry_bytes_count : ℕ

unfoldable pub new_format : ℕ → ℕ → Result Format
new_format local_pi_bytes_count ms_prefix_bits_count = do
  let ms_prefix_bits_bytes_count = (ms_prefix_bits_count + 7) / 8
  guard (not (nat_eq local_pi_bytes_count 0 || ltb 8 local_pi_bytes_count)) invalid_argument
  guard (leb ms_prefix_bits_count 64) invalid_argument
  ok (record {
    local_pi_bytes_count = local_pi_bytes_count;
    ms_prefix_bits_count = ms_prefix_bits_count;
    ms_prefix_bits_bytes_count = ms_prefix_bits_bytes_count;
    entry_bytes_count = local_pi_bytes_count + ms_prefix_bits_bytes_count;
  })

-- The top bits of the prefix field that the prefix leaves.
abbrev pub spare_bits_count : Format → ℕ
spare_bits_count f = f.ms_prefix_bits_bytes_count * 8 - f.ms_prefix_bits_count

pub record Entry : Type 0 where
  pub local_pi : LocalPi
  pub ms_prefix_bits : ℕ
  pub spare_bits : ℕ

abbrev pub default_entry : Entry
default_entry = record { local_pi = local_pi_no_match; ms_prefix_bits = 0; spare_bits = 0 }

-- `(bits == 64) ? ~0ULL : ((1ULL << bits) - 1)`
abbrev pub low_mask_u64 : ℕ → ℕ
low_mask_u64 bits = if nat_eq bits 64 then u64_max else 2 ^ bits - 1

-- `pi_raw`: all ones for the sentinel.
abbrev pub pi_raw : LocalPi → ℕ
pi_raw local_pi = if is_no_match local_pi.value then u64_max else local_pi.value

abbrev pub prefix_part : Format → Entry → ℕ
prefix_part f entry =
    if ltb 0 f.ms_prefix_bits_count
    then bit_and entry.ms_prefix_bits (low_mask_u64 f.ms_prefix_bits_count)
    else 0

abbrev pub prefix_field_raw : Format → Entry → ℕ
prefix_field_raw f entry =
    if ltb 0 (spare_bits_count f)
    then bit_or (prefix_part f entry) (
        bit_and entry.spare_bits (low_mask_u64 (spare_bits_count f))
        * 2 ^ f.ms_prefix_bits_count
        % 2 ^ 64)
    else prefix_part f entry

abbrev pub prefix_field_bytes : Format → Entry → List ℕ
prefix_field_bytes f entry =
    if ltb 0 f.ms_prefix_bits_bytes_count
    then to_le f.ms_prefix_bits_bytes_count (prefix_field_raw f entry)
    else []

-- The bytes that append() writes.
unfoldable pub entry_bytes : Format → Entry → List ℕ
entry_bytes f entry =
    to_le f.local_pi_bytes_count (pi_raw entry.local_pi) ++ prefix_field_bytes f entry

pub record Writer : Type 0 where
  pub format : Format
  pub file : List ℕ

unfoldable pub append : Writer → Entry → Writer
append w entry = record w { file = w.file ++ entry_bytes w.format entry }

pub record Reader : Type 0 where
  pub format : Format
  pub file : InStream

abbrev pub seeked : Reader → ℕ → InStream
seeked r index = seekg (index * r.format.entry_bytes_count % 2 ^ 64) r.file

unfoldable pub seek_entry : Reader → ℕ → Bool × Reader
seek_entry r index = (good (seeked r index), record r { file = seeked r index })

unfoldable pub has_more : Reader → Bool × Reader
has_more r = let (at_end, file') = peek_eof r.file in (not at_end, record r { file = file' })

-- A local index from its field.
abbrev pub pi_from_raw : Format → ℕ → LocalPi
pi_from_raw f raw =
    let max_pi_mask = low_mask_u64 (f.local_pi_bytes_count * 8) in
    if nat_eq (bit_and raw max_pi_mask) max_pi_mask
    then local_pi_no_match
    else record { value = bit_and raw max_pi_mask }

-- The prefix and the spare bits from their field; a shift by 64 is undefined, and the spare bits
-- are a uint8_t.
abbrev pub split_field : Format → ℕ → Result (ℕ × ℕ)
split_field f raw =
    if nat_eq f.ms_prefix_bits_count 0
    then ok (0, raw % 256)
    else (if ltb f.ms_prefix_bits_count 64
        then ok (
          bit_and raw (low_mask_u64 f.ms_prefix_bits_count),
          raw / 2 ^ f.ms_prefix_bits_count % 256,
        )
        else err out_of_bounds)

-- The second half of read_next(), behind the local index.
unfoldable pub read_field : Reader → LocalPi → Result (Entry × Reader)
read_field r local_pi =
    if ltb 0 r.format.ms_prefix_bits_bytes_count
    then (do
      let (bytes, file') = read r.format.ms_prefix_bits_bytes_count r.file
      (ms_prefix_bits, spare_bits) ← split_field r.format (from_le bytes)
      ok (
        record { local_pi = local_pi; ms_prefix_bits = ms_prefix_bits; spare_bits = spare_bits },
        record r { file = file' },
      ))
    else ok (record default_entry { local_pi = local_pi }, r)

unfoldable pub read_next : Reader → Result (Entry × Reader)
read_next r =
    if nat_eq r.format.entry_bytes_count 0
    then ok (default_entry, r)
    else (let (more, r') = has_more r in
        if more
        then (let (bytes, file') = read r'.format.local_pi_bytes_count r'.file in
            read_field (record r' { file = file' }) (pi_from_raw r'.format (from_le bytes)))
        else ok (default_entry, r'))
