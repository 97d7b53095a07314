-- ===== src/Donut/Examples.antt =====
-- Entries of four-byte hashes with a prefix of eleven bits.
use wedding_cake_cpp.Base.{
  ℕ, ◌-◌, ◌^◌, ◌≤◌, ◌<◌, ◌≡◌, refl, [], ◌∷◌, All, some, false, ok, ◌>>=◌, arith,
}
use wedding_cake_cpp.Base.Bytes.{IsByte}
use wedding_cake_cpp.Types.{Hash, sub_base}
use wedding_cake_cpp.Hash.{ms_prefix_bytes_masked, ls_suffix_bytes_masked}
use wedding_cake_cpp.Donut.{
  Calculator, calculate_bytes_per_local_pi, bit_width, hash_from_prefix_suffix,
  hashes_order_file_entry, suffixes_file_entry,
}
use wedding_cake_cpp.Donut.Join.{IsValid, hash_from_prefix_suffix-masked}
use wedding_cake_cpp.Donut.RoundTrip.{
  calculate_bytes_per_local_pi_least, read_back, read_back_written,
}

abbrev calculator : Calculator
calculator = record {
  hash_bytes_count = 4;
  prefix_bits_count = 11;
  suffix_bits_count = 21;
  prefix_bytes_count = 2;
  suffix_bytes_count = 3;
  first_global_pi = record { value = 100 };
  entries_per_donut = 1000;
  bytes_per_local_pi = 2;
}

abbrev hash : Hash
hash = 1 ∷ 2 ∷ 0xb7 ∷ 0xab ∷ []

hash-IsByte : All IsByte hash
hash-IsByte = (omega arith, (omega arith, (omega arith, (omega arith, tt))))

calculator-IsValid : IsValid calculator
calculator-IsValid = record {
  prefix_fits = omega arith;
  prefix_small = omega arith;
  suffix_bits = refl;
  prefix_bytes = refl;
  suffix_bytes = refl;
}

two_bytes_of_1000 : calculate_bytes_per_local_pi 1000 ≡ ok 2
unfolding calculate_bytes_per_local_pi bit_width
two_bytes_of_1000 = refl

calculate_bytes_per_local_pi_least_example :
    (b : ℕ) × (calculate_bytes_per_local_pi 65535 ≡ ok b)
    × (1 ≤ b)
    × (b ≤ 8)
    × (65535 < 256 ^ b)
    × (256 ^ (b - 1) ≤ 65535)
calculate_bytes_per_local_pi_least_example =
    calculate_bytes_per_local_pi_least 65535 (omega arith) (omega arith)

hash_from_prefix_suffix-masked_example :
    hash_from_prefix_suffix calculator
      (ms_prefix_bytes_masked 4 hash 11)
      (ls_suffix_bytes_masked 4 hash 11)
    ≡ hash
hash_from_prefix_suffix-masked_example =
    hash_from_prefix_suffix-masked calculator hash calculator-IsValid refl hash-IsByte

read_back_written_example :
    (do
      order_bytes ← hashes_order_file_entry calculator (some hash) 5 2
      suffix_bytes ← suffixes_file_entry calculator hash (record { value = 103 })
      read_back calculator 2 order_bytes suffix_bytes)
    ≡ ok (hash, record { value = 3 }, 5, false)
unfolding sub_base
read_back_written_example =
    read_back_written calculator hash (record { value = 103 }) 5 2 calculator-IsValid refl
      hash-IsByte (omega arith) (omega arith) (omega arith)
