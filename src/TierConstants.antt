-- ===== src/TierConstants.antt =====
-- apps/wedding_cake/include/tier_constants.hpp.
use wedding_cake_cpp.Base.{ℕ, zero, suc, ◌+◌, ◌*◌, ◌/◌, ◌%◌, ◌^◌, ◌≡◌, refl, nat_eq, if◌then◌else◌}
use wedding_cake_cpp.Donut.{bit_width}

abbrev pub ingester_donut_capacity : ℕ
ingester_donut_capacity = 65535

abbrev pub tier_fanout_bit_count : ℕ
tier_fanout_bit_count = 2

-- 1 << tier_fanout_bit_count
abbrev pub tier_fanout : ℕ
tier_fanout = 4

unfoldable pub bytes_for : ℕ → ℕ
bytes_for n = if nat_eq n 0 then 0 else (bit_width n + 7) / 8

abbrev pub ingester_donut_local_pi_bytes : ℕ
ingester_donut_local_pi_bytes = 2

ingester_donut_local_pi_bytes_lem :
    bytes_for ingester_donut_capacity ≡ ingester_donut_local_pi_bytes
unfolding bytes_for bit_width
ingester_donut_local_pi_bytes_lem = refl

-- The loop of pi_bytes_count_for_tier, on size_t.
unfoldable pub total_fanout : ℕ → ℕ → ℕ
total_fanout zero acc = acc
total_fanout (suc n) acc = total_fanout n (acc * tier_fanout % 2 ^ 64)

unfoldable pub pi_bytes_count_for_tier : ℕ → ℕ
unfolding total_fanout
pi_bytes_count_for_tier n = bytes_for (total_fanout n 1 * ingester_donut_capacity % 2 ^ 64)

unfoldable pub ms_prefix_bits_for_tier : ℕ → ℕ
ms_prefix_bits_for_tier n = n * tier_fanout
