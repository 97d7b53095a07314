-- ===== src/PrefixPath.antt =====
-- apps/wedding_cake/include/hash_prefix_suffix.hpp: make_ms_prefix_path, as the list of the
-- components of the path.
use wedding_cake_cpp.Base.{
  ℕ, zero, suc, ◌+◌, ◌-◌, ◌*◌, ◌/◌, ◌%◌, ◌^◌, ◌≡◌, refl, List, [], ◌∷◌, ◌++◌, if◌then◌else◌, ltb,
  leb, nat_eq, bit_and, Result, ok, invalid_argument, guard, ◌>>◌,
}
use wedding_cake_cpp.Base.Bytes.{u64_max}
use wedding_cake_cpp.ObjectFolder.{FileName, codes}

-- An uppercase hexadecimal digit.
abbrev pub hex_digit : ℕ → ℕ
hex_digit n = if ltb n 10 then 48 + n else 55 + n

abbrev pub hex_byte : ℕ → FileName
hex_byte byte_val = hex_digit (byte_val / 16) ∷ hex_digit (byte_val % 16) ∷ []

-- The loop over the levels, with `left` levels behind this one.
unfoldable pub prefix_levels : ℕ → ℕ → List FileName
prefix_levels zero masked_index =
    (hex_byte (masked_index % 256) ++ codes "_LsSuffixEntries.bin") ∷ []
prefix_levels (suc left) masked_index =
    hex_byte (masked_index / 2 ^ (suc left * 8) % 256) ∷ prefix_levels left masked_index

abbrev pub max_bits_mask : ℕ → ℕ
max_bits_mask prefix_bits_count =
    if nat_eq prefix_bits_count 64 then u64_max else 2 ^ prefix_bits_count - 1

unfoldable pub make_ms_prefix_path : List FileName → ℕ → ℕ → Result (List FileName)
make_ms_prefix_path base_dir prefix_bits_count ms_prefix_index = do
  guard (leb prefix_bits_count 64) invalid_argument
  let num_levels = (prefix_bits_count + 7) / 8
  let masked_index = bit_and ms_prefix_index (max_bits_mask prefix_bits_count)
  if nat_eq prefix_bits_count 0
      then ok (base_dir ++ (codes "HashEntries.bin" ∷ []))
      else ok (base_dir ++ (codes "MsPrefix" ∷ prefix_levels (num_levels - 1) masked_index))

-- The path of the code's own comment.
path_of_123456 :
    make_ms_prefix_path [] 24 0x123456
    ≡ ok (codes "MsPrefix" ∷ codes "12" ∷ codes "34" ∷ codes "56_LsSuffixEntries.bin" ∷ [])
unfolding make_ms_prefix_path prefix_levels
path_of_123456 = refl
