-- ===== src/Types.antt =====
-- apps/wedding_cake/include/types.hpp: presentation indices and hashes.
mod Examples
use wedding_cake_cpp.Base.{
  Option, ℕ, ◌+◌, ◌-◌, ◌%◌, ◌^◌, ◌<◌, ◌≡◌, refl, Bool, true, false, ◌||◌, ◌&&◌, not, List, [], ◌∷◌,
  if◌then◌else◌, ltb, nat_eq, arith, length, list_eq, nat_Eq,
}
use wedding_cake_cpp.Base.Bytes.{u64_max}

-- StrongIndex<Tag>: the tag makes the two indices different types.
pub record LocalPi : Type 0 where
  pub value : ℕ

pub record GlobalPi : Type 0 where
  pub value : ℕ

abbrev pub pi_no_match_val : ℕ
pi_no_match_val = u64_max

abbrev pub local_pi_no_match : LocalPi
local_pi_no_match = record { value = pi_no_match_val }

abbrev pub global_pi_no_match : GlobalPi
global_pi_no_match = record { value = pi_no_match_val }

abbrev pub is_no_match : ℕ → Bool
is_no_match value = nat_eq value pi_no_match_val

-- LocalPi + GlobalPi, on uint64_t, which wraps.
unfoldable pub add_base : LocalPi → GlobalPi → GlobalPi
add_base local base_offset =
    if is_no_match local.value || is_no_match base_offset.value
    then global_pi_no_match
    else record { value = (local.value + base_offset.value) % 2 ^ 64 }

-- GlobalPi - GlobalPi.
unfoldable pub sub_base : GlobalPi → GlobalPi → LocalPi
sub_base target base_offset =
    if is_no_match target.value
      || (is_no_match base_offset.value || ltb target.value base_offset.value)
    then local_pi_no_match
    else record { value = target.value - base_offset.value }

-- GlobalPi - LocalPi.
unfoldable pub sub_local : GlobalPi → LocalPi → GlobalPi
sub_local target local =
    if is_no_match target.value || (is_no_match local.value || ltb target.value local.value)
    then global_pi_no_match
    else record { value = target.value - local.value }

unfoldable pub distance : GlobalPi → GlobalPi → ℕ
distance high low =
    if is_no_match high.value || (is_no_match low.value || ltb high.value low.value)
    then 0
    else high.value - low.value

-- The bytes of a hash, least significant first.
abbrev pub Hash : Type 0
Hash = List ℕ

-- HashItem of the ingester: an entry may have no hash.
abbrev pub HashItem : Type 0
HashItem = Option Hash

-- HashView::operator==. The sizes are compared first, so `std::equal` stays in bounds.
unfoldable pub view_eq : List ℕ → List ℕ → Bool
view_eq xs ys = if nat_eq (length xs) (length ys) then list_eq xs ys else false

-- operator< of two hashes: std::lexicographical_compare.
unfoldable pub hash_lt : Hash → Hash → Bool
hash_lt [] [] = false
hash_lt [] (y ∷ ys) = true
hash_lt (x ∷ xs) [] = false
hash_lt (x ∷ xs) (y ∷ ys) = ltb x y || (nat_eq x y && hash_lt xs ys)

-- For a local index and a base whose sum is below the sentinel, subtracting the base from their
-- sum gives the local index, subtracting the local index gives the base, and the distance from
-- the base is the local index.
pub sub_base-add_base :
    (local : LocalPi) (base : GlobalPi)
    → local.value + base.value < pi_no_match_val
    → (sub_base (add_base local base) base ≡ local)
      × (sub_local (add_base local base) local ≡ base)
      × (distance (add_base local base) base ≡ local.value)
unfolding add_base sub_base sub_local distance
sub_base-add_base local base h = ground arith

-- The order of hashes is transitive.
hash_lt_trans : (x y z : Hash) → hash_lt x y ≡ true → hash_lt y z ≡ true → hash_lt x z ≡ true
unfolding hash_lt
hash_lt_trans [] [] z p q = cc
hash_lt_trans [] (y ∷ ys) [] p q = cc
hash_lt_trans [] (y ∷ ys) (z ∷ zs) p q = refl
hash_lt_trans (x ∷ xs) [] z p q = cc
hash_lt_trans (x ∷ xs) (y ∷ ys) [] p q = cc
hash_lt_trans (x ∷ xs) (y ∷ ys) (z ∷ zs) p q = ground (arith, hash_lt_trans xs ys zs)

-- One hash is before another exactly when their bytes differ and the other is not before it, so
-- that two keys of a map are equivalent only if their bytes agree.
pub hash_lt_trichotomy : (x y : Hash) → hash_lt x y ≡ not (list_eq x y || hash_lt y x)
unfolding hash_lt
hash_lt_trichotomy [] [] = refl
hash_lt_trichotomy [] (y ∷ ys) = refl
hash_lt_trichotomy (x ∷ xs) [] = refl
hash_lt_trichotomy (x ∷ xs) (y ∷ ys) = ground (arith, hash_lt_trichotomy xs ys)
