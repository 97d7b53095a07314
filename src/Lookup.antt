-- ===== src/Lookup.antt =====
-- apps/wedding_cake/include/concepts_lookup.hpp: containers of a range of presentation indices.
pub mod Index
use wedding_cake_cpp.Base.{Bool, Result, ◌&&◌, leb, ltb}
use wedding_cake_cpp.Types.{Hash, HashItem, GlobalPi}

-- The concept Lookupable, as the operations of one object.
pub record Lookupable : Type 0 where
  pub first_offset : GlobalPi
  pub next_offset : GlobalPi
  pub forward_lookup : GlobalPi → Result HashItem
  pub reverse_lookup : Hash → GlobalPi

-- contains_pi, from the container's two offsets.
unfoldable pub contains_pi : GlobalPi → GlobalPi → GlobalPi → Bool
contains_pi first_offset next_offset global_pi =
    leb first_offset.value global_pi.value && ltb global_pi.value next_offset.value
