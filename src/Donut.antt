-- ===== src/Donut.antt =====
-- apps/wedding_cake/include/donut_entries_calculator.hpp: the entries of a donut's two files,
-- HashesOrder.bin and LsSuffixEntries.bin, as bytes. A caller's buffer is a list of bytes, and a
-- writer returns the count of bytes written with the buffer.
pub mod Join
pub mod RoundTrip
pub mod Entries
mod Examples
use wedding_cake_cpp.Base.{
  ℕ, zero, suc, ◌+◌, ◌-◌, ◌*◌, ◌/◌, ◌%◌, List, [], ◌∷◌, Bool, true, false, not, ◌&&◌, Option, none,
  some, if◌then◌else◌, ltb, leb, nat_eq, bit_or, length, take, get_or, set, replicate, Result, ok,
  invalid_argument, assertion_failed, guard, ◌>>=◌, ◌>>◌,
}
use wedding_cake_cpp.Base.Bytes.{to_le, from_le, write_at, u64_max}
use wedding_cake_cpp.Types.{Hash, GlobalPi, LocalPi, sub_base}
use wedding_cake_cpp.Hash.{ms_prefix_bytes_masked, ls_suffix_bytes_masked, subspan}

-- std::bit_width, by repeated halving; 64 rounds are enough for a size_t.
unfoldable pub bit_width_fuel : ℕ → ℕ → ℕ
bit_width_fuel zero n = 0
bit_width_fuel (suc fuel) n =
    let rest = bit_width_fuel fuel (n / 2) in if nat_eq n 0 then 0 else suc rest

unfoldable pub bit_width : ℕ → ℕ
unfolding bit_width_fuel
bit_width n = bit_width_fuel 64 n

unfoldable pub calculate_bytes_per_local_pi : ℕ → Result ℕ
calculate_bytes_per_local_pi entries_per_donut = do
  guard (not (nat_eq entries_per_donut 0)) invalid_argument
  let bytes_needed = (bit_width entries_per_donut + 7) / 8
  guard (leb bytes_needed 8) assertion_failed
  ok bytes_needed

-- DonutEntriesWriteCalculator and DonutEntriesCalculator, which adds no field.
pub record Calculator : Type 0 where
  pub hash_bytes_count : ℕ
  pub prefix_bits_count : ℕ
  pub suffix_bits_count : ℕ
  pub prefix_bytes_count : ℕ
  pub suffix_bytes_count : ℕ
  pub first_global_pi : GlobalPi
  pub entries_per_donut : ℕ
  pub bytes_per_local_pi : ℕ

unfoldable pub new_calculator : ℕ → ℕ → GlobalPi → ℕ → Result Calculator
new_calculator hash_bytes_count prefix_bits_count first_global_pi entries_per_donut = do
  let suffix_bits_count = hash_bytes_count * 8 - prefix_bits_count
  bytes_per_local_pi ← calculate_bytes_per_local_pi entries_per_donut
  ok (record {
    hash_bytes_count = hash_bytes_count;
    prefix_bits_count = prefix_bits_count;
    suffix_bits_count = suffix_bits_count;
    prefix_bytes_count = (prefix_bits_count + 7) / 8;
    suffix_bytes_count = (suffix_bits_count + 7) / 8;
    first_global_pi = first_global_pi;
    entries_per_donut = entries_per_donut;
    bytes_per_local_pi = bytes_per_local_pi;
  })

abbrev pub hashes_order_entry_size : Calculator → ℕ → ℕ
hashes_order_entry_size c bytes_per_suffix_index = c.prefix_bytes_count + bytes_per_suffix_index

abbrev pub suffixes_entry_size : Calculator → ℕ
suffixes_entry_size c = c.suffix_bytes_count + c.bytes_per_local_pi

-- Whether all bytes of a span are 0xFF, as the two loops with `break` test it.
unfoldable pub all_ones : List ℕ → Bool
all_ones [] = true
all_ones (b ∷ bs) = nat_eq b 0xff && all_ones bs

unfoldable pub write_hashes_order_file_entry :
    Calculator → Option Hash → ℕ → ℕ → List ℕ → Result (ℕ × List ℕ)
write_hashes_order_file_entry c none suffix_index bytes_per_suffix_index out_buffer = do
  let required_bytes = hashes_order_entry_size c bytes_per_suffix_index
  guard (leb required_bytes (length out_buffer)) assertion_failed
  guard (leb bytes_per_suffix_index 8) assertion_failed
  ok (required_bytes, write_at out_buffer 0 (replicate required_bytes 0xff))
write_hashes_order_file_entry c (some hash) suffix_index bytes_per_suffix_index out_buffer = do
  let required_bytes = hashes_order_entry_size c bytes_per_suffix_index
  guard (leb required_bytes (length out_buffer)) assertion_failed
  guard (leb bytes_per_suffix_index 8) assertion_failed
  let prefix_masked = ms_prefix_bytes_masked c.hash_bytes_count hash (c.prefix_bits_count % 256)
  let with_prefix = write_at out_buffer 0 (take c.prefix_bytes_count prefix_masked)
  let written =
      write_at with_prefix c.prefix_bytes_count (to_le bytes_per_suffix_index suffix_index)
  guard (not (all_ones (subspan written c.prefix_bytes_count bytes_per_suffix_index)))
      assertion_failed
  ok (required_bytes, written)

unfoldable pub write_suffixes_file_entry :
    Calculator → Option Hash → GlobalPi → List ℕ → Result (ℕ × List ℕ)
write_suffixes_file_entry c none global_pi out_buffer = do
  guard (leb (suffixes_entry_size c) (length out_buffer)) assertion_failed
  ok (0, out_buffer)
write_suffixes_file_entry c (some hash) global_pi out_buffer = do
  let required_bytes = suffixes_entry_size c
  guard (leb required_bytes (length out_buffer)) assertion_failed
  let suffix_masked = ls_suffix_bytes_masked c.hash_bytes_count hash (c.prefix_bits_count % 256)
  let with_suffix = write_at out_buffer 0 (take c.suffix_bytes_count suffix_masked)
  let local_pi_int = (sub_base global_pi c.first_global_pi).value
  ok (
    required_bytes,
    write_at with_suffix c.suffix_bytes_count (to_le c.bytes_per_local_pi local_pi_int),
  )

unfoldable pub hashes_order_file_entry : Calculator → Option Hash → ℕ → ℕ → Result (List ℕ)
hashes_order_file_entry c optional_hash suffix_index bytes_per_suffix_index = do
  let result = replicate (hashes_order_entry_size c bytes_per_suffix_index) 0
  (count, written) ←
      write_hashes_order_file_entry c optional_hash suffix_index bytes_per_suffix_index result
  guard (nat_eq count (length written)) assertion_failed
  ok written

unfoldable pub suffixes_file_entry : Calculator → Hash → GlobalPi → Result (List ℕ)
suffixes_file_entry c hash global_pi = do
  (count, written) ←
      write_suffixes_file_entry c (some hash) global_pi (replicate (suffixes_entry_size c) 0)
  ok written

pub record HashesOrderEntry : Type 0 where
  pub ms_prefix_bytes : List ℕ
  pub suffixes_file_index : ℕ
  pub is_sentinel : Bool

pub record LsSuffixEntriesEntry : Type 0 where
  pub ls_suffix_bytes : List ℕ
  pub local_pi : LocalPi

-- The overlapping byte is the suffix's and the prefix's, joined by `|=`.
unfoldable pub hash_from_prefix_suffix : Calculator → List ℕ → List ℕ → Hash
hash_from_prefix_suffix c ms_prefix ls_suffix =
    let with_suffix =
      write_at (replicate c.hash_bytes_count 0) 0 (take c.suffix_bytes_count ls_suffix) in
    let prefix_start_idx = c.hash_bytes_count - c.prefix_bytes_count in
    let with_high =
      if ltb 1 c.prefix_bytes_count
      then write_at with_suffix (prefix_start_idx + 1)
          (subspan ms_prefix 1 (c.prefix_bytes_count - 1))
      else with_suffix in
    if nat_eq (c.prefix_bits_count % 8) 0
    then write_at with_suffix prefix_start_idx (take c.prefix_bytes_count ms_prefix)
    else set with_high prefix_start_idx
        (bit_or (get_or with_high prefix_start_idx 0) (get_or ms_prefix 0 0))

unfoldable pub read_hashes_order_entry_from_bytes :
    Calculator → List ℕ → ℕ → Result HashesOrderEntry
read_hashes_order_entry_from_bytes c bytes bytes_per_suffix_index = do
  let required = hashes_order_entry_size c bytes_per_suffix_index
  guard (leb required (length bytes)) assertion_failed
  if all_ones (take required bytes)
      then ok (record {
        ms_prefix_bytes = subspan bytes 0 c.prefix_bytes_count;
        suffixes_file_index = u64_max;
        is_sentinel = true;
      })
      else ok (record {
        ms_prefix_bytes = subspan bytes 0 c.prefix_bytes_count;
        suffixes_file_index = from_le (subspan bytes c.prefix_bytes_count bytes_per_suffix_index);
        is_sentinel = false;
      })

unfoldable pub read_ls_suffixes_entry_from_bytes : Calculator → List ℕ → Result LsSuffixEntriesEntry
read_ls_suffixes_entry_from_bytes c bytes = do
  guard (leb (suffixes_entry_size c) (length bytes)) assertion_failed
  ok (record {
    ls_suffix_bytes = subspan bytes 0 c.suffix_bytes_count;
    local_pi = record { value = from_le (subspan bytes c.suffix_bytes_count c.bytes_per_local_pi) };
  })
