-- ===== src/ShallowTree/Examples.antt =====
-- include/wedding_cake/shallow_tree.hpp: runs of the tree's code, and the theorems at concrete
-- inputs.
use wedding_cake_cpp.Base.{
  ℕ, zero, suc, ◌<◌, ◌≤◌, ◌≡◌, refl, [], ◌∷◌, ◌++◌, true, false, arith, get_or, All, some, ok, err,
  runtime_error, out_of_bounds, drop, length,
}
use wedding_cake_cpp.Base.Bytes.{IsByte}
use wedding_cake_cpp.Types.{Hash, LocalPi}
use wedding_cake_cpp.ShallowTree.{
  HashLocalPresentation, Items, ShallowTree, leaf, new_shallow_tree, initial_mask, root_of,
  bucket_partition_by_byte, best_byte_index, byte_sum_sq, make_leaf_node, reassurance_bytes, tally,
  sum_squares, best_from,
}
use wedding_cake_cpp.ShallowTree.Search.{lookup_hash_unique_reassured_candidate}
use wedding_cake_cpp.ShallowTree.Buckets.{buckets_from, concat, lengths}
use wedding_cake_cpp.ShallowTree.Partition.{bucket_partition_by_byte-buckets}
use wedding_cake_cpp.ShallowTree.Entropy.{collisions, best_byte_index-least}
use wedding_cake_cpp.ShallowTree.Masks.{agrees}
use wedding_cake_cpp.ShallowTree.Members.{IsItem, Distinct}
use wedding_cake_cpp.ShallowTree.Lookups.{Candidate}
use wedding_cake_cpp.ShallowTree.Visit.{nodes_in, visit_all_nodes, count_leaves, count_nodes}
use wedding_cake_cpp.ShallowTree.Construction.{
  IsShape, new_shallow_tree-Distinct, new_shallow_tree_duplicates, lookup-Candidate,
  visit_all_nodes-leaves,
}

get_or-IsByte : (hash : Hash) (b : ℕ) → All IsByte hash → get_or hash b 0 < 256
get_or-IsByte [] b h = omega arith
get_or-IsByte (x ∷ hash) zero h = h.0
get_or-IsByte (x ∷ hash) (suc b) h = get_or-IsByte hash b h.1

abbrev item : Hash → ℕ → HashLocalPresentation
item hash pi = record { hash = hash; presentation_index = record { value = pi } }

abbrev two_items : Items
two_items = item (7 ∷ 5 ∷ []) 0 ∷ item (7 ∷ 3 ∷ []) 1 ∷ []

two_items-IsItem : All (IsItem 2) two_items
two_items-IsItem = (
  record {
    size = refl;
    bytes = λ b. get_or-IsByte (7 ∷ 5 ∷ []) b (omega arith, (omega arith, tt));
  },
  (
    record {
      size = refl;
      bytes = λ b. get_or-IsByte (7 ∷ 3 ∷ []) b (omega arith, (omega arith, tt));
    },
    tt,
  ),
)

two_items-Distinct : Distinct (initial_mask 2 0) two_items
unfolding agrees
two_items-Distinct = ((refl, tt), (tt, tt))

two_bytes-IsShape : IsShape 2 0
two_bytes-IsShape = record {
  some_bytes = omega arith;
  few_bytes = omega arith;
  tail_fits = omega arith;
}

-- The second byte tells the hashes apart.
best_byte_of_two : best_byte_index two_items (true ∷ true ∷ []) ≡ 1
unfolding best_byte_index best_from byte_sum_sq sum_squares tally
best_byte_of_two = refl

bucket_partition_example : bucket_partition_by_byte two_items 1 two_items ≡ (
  lengths (buckets_from 1 0 256 two_items),
  concat (buckets_from 1 0 256 two_items),
  concat (buckets_from 1 0 256 two_items) ++ drop (length two_items) two_items,
)
bucket_partition_example =
    bucket_partition_by_byte-buckets two_items two_items 1 (omega arith, (omega arith, tt))
      (omega arith)

best_byte_index_example :
    (get_or (true ∷ true ∷ []) (best_byte_index two_items (true ∷ true ∷ [])) false ≡ true)
    × (collisions (buckets_from (best_byte_index two_items (true ∷ true ∷ [])) 0 256 two_items)
        ≤ collisions (buckets_from 0 0 256 two_items))
best_byte_index_example =
    best_byte_index-least 2 two_items (true ∷ true ∷ []) 0 two_items-IsItem refl

new_shallow_tree_example :
    (t : ShallowTree) × (new_shallow_tree 2 two_items 0 1 ≡ ok t)
    × All
        (λ (x : HashLocalPresentation).
          lookup_hash_unique_reassured_candidate t x.hash ≡ ok x.presentation_index)
        two_items
new_shallow_tree_example =
    new_shallow_tree-Distinct 2 0 0 two_items two_bytes-IsShape two_items-IsItem two_items-Distinct

abbrev twins : Items
twins = item (7 ∷ 5 ∷ []) 0 ∷ item (7 ∷ 5 ∷ []) 1 ∷ []

twins-IsItem : All (IsItem 2) twins
twins-IsItem = (two_items-IsItem.0, (record { size = refl; bytes = two_items-IsItem.0.bytes }, tt))

twins_differ : ¬ Distinct (initial_mask 2 0) twins
unfolding agrees
twins_differ d = let e = d.0.0 in cc

duplicates_example : new_shallow_tree 2 twins 0 1 ≡ err runtime_error
duplicates_example =
    new_shallow_tree_duplicates 2 0 0 twins two_bytes-IsShape twins-IsItem twins_differ

-- A tree of one hash.
abbrev one_tree : ShallowTree
one_tree = record {
  hash_bytes_count = 2;
  ls_tail_bits_count = 0;
  reassurance_bytes_count = 1;
  hash_count = 1;
  root_slot = some (
      leaf 0
        (record { reassurance_hash_bytes = 7 ∷ []; presentation_index = record { value = 0 } }));
}

one_item-IsItem : All (IsItem 2) (item (7 ∷ 5 ∷ []) 0 ∷ [])
one_item-IsItem = (two_items-IsItem.0, tt)

one_tree_made : new_shallow_tree 2 (item (7 ∷ 5 ∷ []) 0 ∷ []) 0 1 ≡ ok one_tree
unfolding new_shallow_tree root_of make_leaf_node reassurance_bytes
one_tree_made = refl

-- A hash whose first byte is the one that the leaf keeps is a false positive.
lookup-Candidate_example :
    (pi : LocalPi) × (lookup_hash_unique_reassured_candidate one_tree (7 ∷ 9 ∷ []) ≡ ok pi)
    × Candidate 1 (initial_mask 2 0) (7 ∷ 9 ∷ []) (item (7 ∷ 5 ∷ []) 0 ∷ []) pi
lookup-Candidate_example =
    lookup-Candidate 2 0 0 (item (7 ∷ 5 ∷ []) 0 ∷ []) two_bytes-IsShape one_item-IsItem one_tree
      (7 ∷ 9 ∷ []) one_tree_made refl
      (λ b. get_or-IsByte (7 ∷ 9 ∷ []) b (omega arith, (omega arith, tt)))

visit_example : (count_leaves (visit_all_nodes 1 one_tree) ≡ 1) × (count_nodes 1 one_tree ≡ 1)
unfolding nodes_in
visit_example =
    visit_all_nodes-leaves 2 0 0 (item (7 ∷ 5 ∷ []) 0 ∷ []) two_bytes-IsShape one_item-IsItem 1
      one_tree one_tree_made (omega arith)

-- Without reassurance bytes, a leaf writes to the first byte of an empty vector.
no_reassurance : new_shallow_tree 2 (item (7 ∷ 5 ∷ []) 0 ∷ []) 0 0 ≡ err out_of_bounds
unfolding new_shallow_tree root_of make_leaf_node reassurance_bytes
no_reassurance = refl
