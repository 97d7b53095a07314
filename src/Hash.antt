-- ===== src/Hash.antt =====
-- apps/wedding_cake/include/hash_prefix_suffix.hpp: the prefix and the suffix of a hash.
-- `hash_bytes_count` is the template parameter HashBytesCount; a hash is a list of that many bytes,
-- the least significant first, and `prefix_bits_count` a uint8_t. A span is the list that it shows.
pub mod Masks
use wedding_cake_cpp.Base.{
  ℕ, zero, suc, ◌+◌, ◌-◌, ◌*◌, ◌/◌, ◌%◌, ◌^◌, ◌≤◌, List, [], ◌∷◌, if◌then◌else◌, ltb, leb, nat_eq,
  bit_and, min, Bool, length, take, drop, get_or, set, Result, ok, err, Error, assertion_failed,
  guard, ◌>>=◌, ◌>>◌, out_of_bounds,
}
use wedding_cake_cpp.Base.Bytes.{from_le, u64_max}
use wedding_cake_cpp.Types.{Hash}

-- (n + 7) / 8
abbrev pub prefix_bytes_count : ℕ → ℕ
prefix_bytes_count prefix_bits_count = (prefix_bits_count + 7) / 8

abbrev pub suffix_bits_count : ℕ → ℕ → ℕ
suffix_bits_count hash_bytes_count prefix_bits_count = hash_bytes_count * 8 - prefix_bits_count

abbrev pub suffix_bytes_count : ℕ → ℕ → ℕ
suffix_bytes_count hash_bytes_count prefix_bits_count =
    (suffix_bits_count hash_bytes_count prefix_bits_count + 7) / 8

-- `full_span.subspan(offset, count)`.
abbrev pub subspan : List ℕ → ℕ → ℕ → List ℕ
subspan bytes offset count = take count (drop offset bytes)

unfoldable pub ms_prefix_bytes : ℕ → Hash → ℕ → List ℕ
ms_prefix_bytes hash_bytes_count hash prefix_bits_count =
    subspan hash (hash_bytes_count - prefix_bytes_count prefix_bits_count)
      (prefix_bytes_count prefix_bits_count)

unfoldable pub ls_suffix_bytes : ℕ → Hash → ℕ → List ℕ
ls_suffix_bytes hash_bytes_count hash prefix_bits_count =
    subspan hash 0 (suffix_bytes_count hash_bytes_count prefix_bits_count)

-- static_cast<uint8_t>(0xFFu << num_zero_bits) and static_cast<uint8_t>(0xFFu >> num_zero_bits).
abbrev pub high_mask : ℕ → ℕ
high_mask num_zero_bits = 255 * 2 ^ num_zero_bits % 256

abbrev pub low_mask : ℕ → ℕ
low_mask num_zero_bits = 255 / 2 ^ num_zero_bits

-- `vec.bytes[i] &= mask`.
abbrev pub and_at : List ℕ → ℕ → ℕ → List ℕ
and_at bytes i mask = set bytes i (bit_and (get_or bytes i 0) mask)

unfoldable pub ms_prefix_bytes_masked : ℕ → Hash → ℕ → List ℕ
ms_prefix_bytes_masked hash_bytes_count hash prefix_bits_count =
    let vec = ms_prefix_bytes hash_bytes_count hash prefix_bits_count in
    let num_zero_bits = prefix_bytes_count prefix_bits_count * 8 - prefix_bits_count in
    if ltb 0 num_zero_bits then and_at vec 0 (high_mask num_zero_bits) else vec

unfoldable pub ls_suffix_bytes_masked : ℕ → Hash → ℕ → List ℕ
ls_suffix_bytes_masked hash_bytes_count hash prefix_bits_count =
    let vec = ls_suffix_bytes hash_bytes_count hash prefix_bits_count in
    let suffix_bytes = length vec in
    let num_zero_bits = suffix_bytes * 8 - suffix_bits_count hash_bytes_count prefix_bits_count in
    if ltb 0 num_zero_bits then and_at vec (suffix_bytes - 1) (low_mask num_zero_bits) else vec

-- The window is the last 8 bytes of the hash at most, read as a little-endian uint64_t. A prefix
-- of more bits than the window has makes the subtraction wrap around to a shift past the width.
unfoldable pub ms_prefix_index : ℕ → Hash → ℕ → Result ℕ
ms_prefix_index hash_bytes_count hash prefix_bits_count = do
  guard (leb prefix_bits_count 64) assertion_failed
  let bytes_to_copy = min hash_bytes_count 8
  let msb_window = from_le (subspan hash (hash_bytes_count - bytes_to_copy) bytes_to_copy)
  let unused_bits_in_window = bytes_to_copy * 8 - prefix_bits_count
  if nat_eq prefix_bits_count 0 then ok 0 else (do
    guard (leb prefix_bits_count (bytes_to_copy * 8)) out_of_bounds
    ok (msb_window / 2 ^ unused_bits_in_window))

unfoldable pub ms_prefix_index_max : ℕ → Result ℕ
ms_prefix_index_max prefix_bits_count = do
  guard (leb prefix_bits_count 64) assertion_failed
  if nat_eq prefix_bits_count 0
      then ok 0
      else ok (if nat_eq prefix_bits_count 64 then u64_max else 2 ^ prefix_bits_count - 1)
