-- ===== src/ShallowTree.antt =====
-- include/wedding_cake/shallow_tree.hpp: a tree in memory from hashes to presentation indices,
-- which examines the bytes of a hash in an order of its own. The bit mask of the unused bytes
-- is the list of its bits, the least significant first, one for each byte of a hash.
pub mod Buckets
pub mod Segments
pub mod Partition
pub mod Search
pub mod Masks
pub mod Members
pub mod Build
pub mod Lookups
pub mod Entropy
pub mod Visit
mod Nodes
pub mod Construction
mod Examples
use wedding_cake_cpp.Base.{
  ℕ, zero, suc, ◌+◌, ◌-◌, ◌*◌, ◌/◌, List, [], ◌∷◌, ◌++◌, Bool, true, false, not, ◌&&◌, ◌||◌, Option,
  none, some, if◌then◌else◌, ltb, leb, nat_eq, length, take, drop, get_or, set, replicate, Result,
  ok, err, invalid_argument, runtime_error, logic_error, assertion_failed, out_of_bounds, guard,
  ◌>>=◌, ◌>>◌,
}
use wedding_cake_cpp.Types.{Hash, LocalPi, local_pi_no_match}

pub record HashLocalPresentation : Type 0 where
  pub hash : Hash
  pub presentation_index : LocalPi

pub record LeafNode : Type 0 where
  pub reassurance_hash_bytes : List ℕ
  pub presentation_index : LocalPi

-- A node with its level_byte_depth: a leaf, or the index of a byte of the hash and the slots of
-- the byte's values. A slot is empty or holds the next node.
mutual
  pub data Node : Type 0 where
    leaf : ℕ → LeafNode → Node
    slots : ℕ → ℕ → Slots → Node

  pub data Slots : Type 0 where
    end : Slots
    empty_slot : Slots → Slots
    full_slot : Node → Slots → Slots

pub record ShallowTree : Type 0 where
  pub hash_bytes_count : ℕ
  pub ls_tail_bits_count : ℕ
  pub reassurance_bytes_count : ℕ
  pub hash_count : ℕ
  pub root_slot : Option Node

abbrev pub Items : Type 0
Items = List HashLocalPresentation

abbrev pub byte_of : ℕ → HashLocalPresentation → ℕ
byte_of byte_index item = get_or item.hash byte_index 0

-- `counts[i]++`
abbrev pub increment : List ℕ → ℕ → List ℕ
increment counts i = set counts i (suc (get_or counts i 0))

-- The loop that counts the values of a byte.
unfoldable pub tally : ℕ → List ℕ → Items → List ℕ
tally byte_index counts [] = counts
tally byte_index counts (item ∷ input) =
    tally byte_index (increment counts (byte_of byte_index item)) input

abbrev pub byte_counts : ℕ → Items → List ℕ
byte_counts byte_index input = tally byte_index (replicate 256 0) input

-- The offsets of the buckets: the sums of the counts before each.
unfoldable pub offsets_from : ℕ → List ℕ → List ℕ
offsets_from start [] = []
offsets_from start (count ∷ counts) = start ∷ offsets_from (start + count) counts

-- The loop that copies each item to the running offset of its bucket.
unfoldable pub scatter : ℕ → List ℕ → Items → Items → Items
scatter byte_index running_offsets [] scratch_buffer = scratch_buffer
scatter byte_index running_offsets (item ∷ input) scratch_buffer =
    scatter byte_index (increment running_offsets (byte_of byte_index item)) input
      (set scratch_buffer (get_or running_offsets (byte_of byte_index item) 0) item)

-- The counts, and the input and the scratch buffer afterwards.
unfoldable pub bucket_partition_by_byte : Items → ℕ → Items → List ℕ × Items × Items
bucket_partition_by_byte input byte_index scratch_buffer =
    let counts = byte_counts byte_index input in
    let scattered = scatter byte_index (offsets_from 0 counts) input scratch_buffer in
    (counts, take (length input) scattered, scattered)

-- The bytes not yet examined, in order; the rest of the vector is zero.
unfoldable pub reassurance_bytes : List Bool → Hash → ℕ → Result (List ℕ)
reassurance_bytes [] hash left = ok (replicate left 0)
reassurance_bytes (bit ∷ unused_mask) [] left = ok (replicate left 0)
reassurance_bytes (false ∷ unused_mask) (byte ∷ hash) left = reassurance_bytes unused_mask hash left
reassurance_bytes (true ∷ unused_mask) (byte ∷ hash) zero = err out_of_bounds
reassurance_bytes (true ∷ unused_mask) (byte ∷ hash) (suc zero) = ok (byte ∷ [])
reassurance_bytes (true ∷ unused_mask) (byte ∷ hash) (suc (suc left)) = do
  rest ← reassurance_bytes unused_mask hash (suc left)
  ok (byte ∷ rest)

unfoldable pub make_leaf_node : ℕ → HashLocalPresentation → List Bool → ℕ → Result Node
make_leaf_node reassurance_bytes_count hp unused_mask level_depth = do
  bytes ← reassurance_bytes unused_mask hp.hash reassurance_bytes_count
  ok (
      leaf level_depth
        (record { reassurance_hash_bytes = bytes; presentation_index = hp.presentation_index }))

unfoldable pub sum_squares : List ℕ → ℕ
sum_squares [] = 0
sum_squares (count ∷ counts) = count * count + sum_squares counts

-- calculate_byte_entropy is minus this number: more entropy is a smaller sum.
unfoldable pub byte_sum_sq : Items → ℕ → ℕ
byte_sum_sq input byte_index = sum_squares (byte_counts byte_index input)

-- `if (entropy > max_entropy)`, with the best byte so far and its sum.
abbrev pub better : Option (ℕ × ℕ) → ℕ → ℕ → Option (ℕ × ℕ)
better none b sum_sq = some (b, sum_sq)
better (some (best, best_sum)) b sum_sq =
    if ltb sum_sq best_sum then some (b, sum_sq) else some (best, best_sum)

-- The loop over the bytes that looks for the most entropy, from byte `b` on.
unfoldable pub best_from : Items → List Bool → ℕ → Option (ℕ × ℕ) → Option (ℕ × ℕ)
best_from input [] b best = best
best_from input (false ∷ unused_mask) b best = best_from input unused_mask (suc b) best
best_from input (true ∷ unused_mask) b best =
    best_from input unused_mask (suc b) (better best b (byte_sum_sq input b))

abbrev pub index_or_zero : Option (ℕ × ℕ) → ℕ
index_or_zero none = 0
index_or_zero (some (best, best_sum)) = best

unfoldable pub best_byte_index : Items → List Bool → ℕ
best_byte_index input unused_mask = index_or_zero (best_from input unused_mask 0 none)

-- Whether a mask is not 0.
unfoldable pub any_unused : List Bool → Bool
any_unused [] = false
any_unused (bit ∷ unused_mask) = bit || any_unused unused_mask

-- What makes the node of a larger bucket: from its items and the scratch buffer, the node and the
-- scratch buffer afterwards.
abbrev pub Subtree : Type 0
Subtree = Items → Items → Result (Node × Items)

-- The loop over the values of the byte; `input` is the part from `start_index` on.
unfoldable pub fill_slots :
    (HashLocalPresentation → Result Node)
    → Subtree
    → List ℕ
    → Items
    → Items
    → Result (Slots × Items)
fill_slots single subtree [] input scratch = ok (end, scratch)
fill_slots single subtree (zero ∷ counts) input scratch = do
  (rest, scratch') ← fill_slots single subtree counts input scratch
  ok (empty_slot rest, scratch')
fill_slots single subtree (suc zero ∷ counts) [] scratch = err out_of_bounds
fill_slots single subtree (suc zero ∷ counts) (hp ∷ input) scratch = do
  node ← single hp
  (rest, scratch') ← fill_slots single subtree counts input scratch
  ok (full_slot node rest, scratch')
fill_slots single subtree (suc (suc n) ∷ counts) input scratch = do
  (node, scratch1) ← subtree (take (suc (suc n)) input) scratch
  (rest, scratch') ← fill_slots single subtree counts (drop (suc (suc n)) input) scratch1
  ok (full_slot node rest, scratch')

-- `reassurance_bytes_count` is the tree's. Each call clears a bit of the mask, so that one more
-- round than there are bits is enough; assertion_failed is where the rounds run out.
unfoldable pub recurse_generate_node : ℕ → ℕ → List Bool → ℕ → Items → Items → Result (Node × Items)
recurse_generate_node zero reassurance_bytes_count unused_mask level_depth input scratch_buffer =
    err assertion_failed
recurse_generate_node (suc fuel) reassurance_bytes_count unused_mask level_depth input
      scratch_buffer =
    do
      guard (not (ltb (length input) 2)) logic_error
      guard (any_unused unused_mask) runtime_error
      let b = best_byte_index input unused_mask
      let mask' = set unused_mask b false
      let partition = bucket_partition_by_byte input b scratch_buffer
      (filled, scratch') ←
          fill_slots (λ hp. make_leaf_node reassurance_bytes_count hp mask' (level_depth + 1))
            (λ sub scratch.
              recurse_generate_node fuel reassurance_bytes_count mask' (level_depth + 1) sub
                scratch)
            partition.0 partition.1 partition.2
      ok (slots level_depth b filled, scratch')

-- The mask of the bytes that the tail does not touch.
abbrev pub initial_mask : ℕ → ℕ → List Bool
initial_mask hash_bytes_count handled_bytes =
    replicate handled_bytes false ++ replicate (hash_bytes_count - handled_bytes) true

abbrev pub handled_bytes : ℕ → ℕ
handled_bytes ls_tail_bits_count = (ls_tail_bits_count + 7) / 8

-- A buffer of default items.
abbrev pub scratch_of : Items → Items
scratch_of input =
    replicate (length input) (record { hash = []; presentation_index = local_pi_no_match })

unfoldable pub root_of : ℕ → ℕ → ℕ → Items → Result (Option Node)
root_of hash_bytes_count handled reassurance_bytes_count [] = ok none
root_of hash_bytes_count handled reassurance_bytes_count (hp ∷ []) = do
  node ← make_leaf_node reassurance_bytes_count hp (initial_mask hash_bytes_count handled) handled
  ok (some node)
root_of hash_bytes_count handled reassurance_bytes_count (hp ∷ hp' ∷ input) = do
  (node, scratch) ←
      recurse_generate_node (suc hash_bytes_count) reassurance_bytes_count
        (initial_mask hash_bytes_count handled) handled (hp ∷ hp' ∷ input)
        (scratch_of (hp ∷ hp' ∷ input))
  ok (some node)

unfoldable pub new_shallow_tree : ℕ → Items → ℕ → ℕ → Result ShallowTree
new_shallow_tree hash_bytes_count input ls_tail_bits_count reassurance_bytes_count = do
  let handled = handled_bytes ls_tail_bits_count
  guard (not (ltb hash_bytes_count 1 || ltb 64 hash_bytes_count)) invalid_argument
  guard (leb handled hash_bytes_count) invalid_argument
  root ← root_of hash_bytes_count handled reassurance_bytes_count input
  ok (record {
    hash_bytes_count = hash_bytes_count;
    ls_tail_bits_count = ls_tail_bits_count;
    reassurance_bytes_count = reassurance_bytes_count;
    hash_count = length input;
    root_slot = root;
  })
