-- ===== src/ShallowTree/Search.antt =====
-- include/wedding_cake/shallow_tree.hpp: lookup_hash_unique_reassured_candidate.
use wedding_cake_cpp.Base.{
  ℕ, zero, suc, ◌-◌, List, [], ◌∷◌, Bool, true, false, Option, none, some, if◌then◌else◌, leb,
  nat_eq, length, get_or, set, Result, ok, err, out_of_bounds,
}
use wedding_cake_cpp.Types.{Hash, LocalPi, local_pi_no_match}
use wedding_cake_cpp.ShallowTree.{
  Node, Slots, slots, end, empty_slot, full_slot, leaf, ShallowTree, initial_mask, handled_bytes,
}

-- The bytes of a leaf against those of the hash not yet examined; `left` is how many more are to
-- be matched.
unfoldable pub reassure : List Bool → Hash → List ℕ → ℕ → LocalPi → Result LocalPi
reassure [] target_hash bytes left pi = ok pi
reassure (bit ∷ unused_mask) [] bytes left pi = ok pi
reassure (false ∷ unused_mask) (t ∷ target_hash) bytes left pi =
    reassure unused_mask target_hash bytes left pi
reassure (true ∷ unused_mask) (t ∷ target_hash) [] left pi = err out_of_bounds
reassure (true ∷ unused_mask) (t ∷ target_hash) (byte ∷ bytes) left pi =
    let rest = reassure unused_mask target_hash bytes (left - 1) pi in
    if nat_eq t byte then (if leb left 1 then ok pi else rest) else ok local_pi_no_match

-- The walk from a node down; a slot is taken by its index.
unfoldable mutual
  pub lookup_node : ℕ → List Bool → Hash → Node → Result LocalPi
  lookup_node count unused_mask target_hash (leaf depth l) =
      reassure unused_mask target_hash l.reassurance_hash_bytes count l.presentation_index
  lookup_node count unused_mask target_hash (slots depth byte_idx s) =
      lookup_slot count (set unused_mask byte_idx false) target_hash s
        (get_or target_hash byte_idx 0)

  pub lookup_slot : ℕ → List Bool → Hash → Slots → ℕ → Result LocalPi
  lookup_slot count unused_mask target_hash end i = err out_of_bounds
  lookup_slot count unused_mask target_hash (empty_slot s) zero = ok local_pi_no_match
  lookup_slot count unused_mask target_hash (full_slot node s) zero =
      lookup_node count unused_mask target_hash node
  lookup_slot count unused_mask target_hash (empty_slot s) (suc i) =
      lookup_slot count unused_mask target_hash s i
  lookup_slot count unused_mask target_hash (full_slot node s) (suc i) =
      lookup_slot count unused_mask target_hash s i

unfoldable pub lookup_root : ShallowTree → Hash → Option Node → Result LocalPi
lookup_root t target_hash none = ok local_pi_no_match
lookup_root t target_hash (some node) =
    lookup_node t.reassurance_bytes_count
      (initial_mask t.hash_bytes_count (handled_bytes t.ls_tail_bits_count)) target_hash node

unfoldable pub lookup_hash_unique_reassured_candidate : ShallowTree → Hash → Result LocalPi
lookup_hash_unique_reassured_candidate t target_hash =
    if nat_eq (length target_hash) t.hash_bytes_count
    then lookup_root t target_hash t.root_slot
    else ok local_pi_no_match
