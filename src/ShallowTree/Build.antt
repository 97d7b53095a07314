-- ===== src/ShallowTree/Build.antt =====
-- include/wedding_cake/shallow_tree.hpp: how recurse_generate_node ends, and what holds of each
-- node that it makes.
use wedding_cake_cpp.Base.{
  ℕ, zero, suc, ◌+◌, ◌<◌, ◌≤◌, ◌≡◌, refl, ◌∙◌, List, [], ◌∷◌, ◌++◌, Bool, true, false, arith,
  length, take, drop, set, get_or, All, Result, ok, Error, Outcome, >>=-Outcome, runtime_error,
  take-append, drop-append, length-append, length-drop, length-set, replicate, le→ltb, Bool-cases,
  inl, inr,
}
use wedding_cake_cpp.Types.{Hash}
use wedding_cake_cpp.ShallowTree.{
  HashLocalPresentation, Items, Node, Slots, slots, end, empty_slot, full_slot, Subtree, any_unused,
  best_byte_index, fill_slots, make_leaf_node, recurse_generate_node, reassurance_bytes, leaf,
}
use wedding_cake_cpp.ShallowTree.Buckets.{buckets_from, concat, lengths, HasByteBelow}
use wedding_cake_cpp.ShallowTree.Partition.{
  bucket_partition_by_byte-buckets, length-concat, sum-buckets,
}
use wedding_cake_cpp.ShallowTree.Masks.{
  best_byte_index-unused, bits_left, bits_left-set, agrees_none,
}
use wedding_cake_cpp.ShallowTree.Members.{
  In-All, All-In, IsItem, buckets-All, Distinct, Distinct-buckets,
}

-- The slots of these buckets: an empty bucket has an empty slot, and the node of another one
-- satisfies `P` with its items.
abbrev pub SlotsHold : (Node → Items → Type 0) → Slots → List Items → Type 0
SlotsHold P end [] = Unit
SlotsHold P end (items ∷ bs) = ⊥
SlotsHold P (empty_slot s) [] = ⊥
SlotsHold P (empty_slot s) (items ∷ bs) = (items ≡ []) × SlotsHold P s bs
SlotsHold P (full_slot node s) [] = ⊥
SlotsHold P (full_slot node s) (items ∷ bs) = P node items × SlotsHold P s bs

-- A duplicate on the mask, with the exception that it makes.
abbrev pub Duplicates : List Bool → Items → Error → Type 0
Duplicates mask input error = (error ≡ runtime_error) × ¬ Distinct mask input

abbrev SomeDuplicates : List Bool → List Items → Error → Type 0
SomeDuplicates mask bs error = (error ≡ runtime_error) × ¬ All (Distinct mask) bs

abbrev pub Made : (Node → Items → Type 0) → Items → Items → Node × Items → Type 0
Made P input scratch made = P made.0 input × (length made.1 ≡ length scratch)

abbrev Filled : (Node → Items → Type 0) → List Items → Items → Slots × Items → Type 0
Filled P bs scratch filled = SlotsHold P filled.0 bs × (length filled.1 ≡ length scratch)

module _ (Good : HashLocalPresentation → Type 0) (P : Node → Items → Type 0) (mask : List Bool)
    (single : HashLocalPresentation → Result Node) (subtree : Subtree)
    (single-P : (hp : HashLocalPresentation)
      → Good hp
      → Outcome (λ node. P node (hp ∷ [])) (λ error. ⊥) (single hp))
    (subtree-P : (input scratch : Items)
      → 2 ≤ length input
      → All Good input
      → length input ≤ length scratch
      → Outcome (Made P input scratch) (Duplicates mask input) (subtree input scratch)) where
  fill_slots-Outcome :
      (bs : List Items) (scratch : Items)
      → All (All Good) bs
      → length (concat bs) ≤ length scratch
      → Outcome
          (Filled P bs scratch)
          (SomeDuplicates mask bs)
          (fill_slots single subtree (lengths bs) (concat bs) scratch)
  unfolding fill_slots
  fill_slots-Outcome [] scratch g room = (tt, refl)
  fill_slots-Outcome ([] ∷ bs) scratch g room =
      >>=-Outcome (Filled P bs scratch) _ (SomeDuplicates mask bs) _ _ _
        (fill_slots-Outcome bs scratch g.1 room) (λ r h. ((refl, h.0), h.1))
        (λ error h. (h.0, λ d. h.1 d.1))
  fill_slots-Outcome ((x ∷ []) ∷ bs) scratch g room =
      >>=-Outcome (λ node. P node (x ∷ [])) _ (λ error. ⊥) _ _ _ (single-P x g.0.0)
        (λ node p.
          >>=-Outcome (Filled P bs scratch) _ (SomeDuplicates mask bs) _ _ _
            (fill_slots-Outcome bs scratch g.1 (omega arith)) (λ r h. ((p, h.0), h.1))
            (λ error h. (h.0, λ d. h.1 d.1)))
        (λ error h. absurd h)
  fill_slots-Outcome ((x ∷ y ∷ xs) ∷ bs) scratch g room =
      let two = x ∷ y ∷ xs in
      let front : take (length two) (two ++ concat bs) ≡ two =
        take-append (length two) two (concat bs) refl in
      let back : drop (length two) (two ++ concat bs) ≡ concat bs =
        drop-append (length two) two (concat bs) refl in
      rw (front, back)
        (>>=-Outcome (Made P two scratch) _ (Duplicates mask two) _ _ _
          (subtree-P two scratch (omega arith) g.0 (omega (arith, length-append two (concat bs))))
          (λ made p.
            >>=-Outcome (Filled P bs made.1) _ (SomeDuplicates mask bs) _ _ _
              (fill_slots-Outcome bs made.1 g.1 (omega (arith, length-append two (concat bs), p.1)))
              (λ r h. ((p.0, h.0), h.1 ∙ p.1)) (λ error h. (h.0, λ d. h.1 d.1)))
          (λ error h. (h.0, λ d. h.1 d.0)))

-- A leaf can be made when it keeps some byte.
reassurance_some :
    (mask : List Bool) (hash : Hash) (left : ℕ)
    → (bytes : List ℕ) × (reassurance_bytes mask hash (suc left) ≡ ok bytes)
unfolding reassurance_bytes
reassurance_some [] hash left = (replicate (suc left) 0, refl)
reassurance_some (bit ∷ mask) [] left = (replicate (suc left) 0, refl)
reassurance_some (false ∷ mask) (byte ∷ hash) left = reassurance_some mask hash left
reassurance_some (true ∷ mask) (byte ∷ hash) zero = (byte ∷ [], refl)
reassurance_some (true ∷ mask) (byte ∷ hash) (suc left) =
    let (bytes, e) = reassurance_some mask hash left in (byte ∷ bytes, rw e refl)

no_bits :
    (mask : List Bool) (input : Items)
    → any_unused mask ≡ false
    → 2 ≤ length input
    → ¬ Distinct mask input
no_bits mask [] h l d = absurd (omega arith)
no_bits mask (x ∷ []) h l d = absurd (omega arith)
no_bits mask (x ∷ y ∷ input) h l d =
    let agree = agrees_none mask x.hash y.hash h in let differ = d.0.0 in cc

module _ (count : ℕ) (P : List Bool → Node → Items → Type 0)
    (leaf-P : (mask : List Bool) (hp : HashLocalPresentation) (depth : ℕ) (bytes : List ℕ)
      → IsItem (length mask) hp
      → reassurance_bytes mask hp.hash (suc count) ≡ ok bytes
      → P mask
          (leaf depth
            (record { reassurance_hash_bytes = bytes; presentation_index = hp.presentation_index }))
          (hp ∷ []))
    (slots-P : (mask : List Bool) (b depth : ℕ) (s : Slots) (input : Items)
      → get_or mask b false ≡ true
      → All (IsItem (length mask)) input
      → SlotsHold (P (set mask b false)) s (buckets_from b 0 256 input)
      → P mask (slots depth b s) input) where
  pub make_leaf_node-Outcome :
      (mask : List Bool) (hp : HashLocalPresentation) (depth : ℕ)
      → IsItem (length mask) hp
      → Outcome
          (λ node. P mask node (hp ∷ []))
          (λ error. ⊥)
          (make_leaf_node (suc count) hp mask depth)
  unfolding make_leaf_node
  make_leaf_node-Outcome mask hp depth item =
      let (bytes, e) = reassurance_some mask hp.hash count in
      rw e (leaf-P mask hp depth bytes item e)

  pub recurse_generate_node-Outcome :
      (fuel : ℕ) (mask : List Bool) (depth : ℕ) (input scratch : Items)
      → bits_left mask < fuel
      → 2 ≤ length input
      → All (IsItem (length mask)) input
      → length input ≤ length scratch
      → Outcome
          (Made (P mask) input scratch)
          (Duplicates mask input)
          (recurse_generate_node fuel (suc count) mask depth input scratch)
  unfolding recurse_generate_node
  recurse_generate_node-Outcome zero mask depth input scratch f l items room = absurd (omega arith)
  recurse_generate_node-Outcome (suc fuel) mask depth input scratch f l items room =
      elim (Bool-cases (any_unused mask)) [
        | inr none_left ↦
            rw (le→ltb (length input) 2 l, none_left) ((refl, no_bits mask input none_left l))
        | inl some_left ↦
            let b = best_byte_index input mask in
            let mask' = set mask b false in
            let unused = best_byte_index-unused input mask some_left in
            let below =
              All-In (HasByteBelow b 256) input
                (λ x i. (In-All (IsItem (length mask)) input x items i).bytes b) in
            let bs = buckets_from b 0 256 input in
            let len : length (concat bs) ≤ length (concat bs ++ drop (length input) scratch) =
              omega (arith, length-append (concat bs) (drop (length input) scratch)) in
            let len' : length (concat bs ++ drop (length input) scratch) ≡ length scratch = omega (
              arith,
              length-append (concat bs) (drop (length input) scratch),
              length-drop (length input) scratch,
              length-concat bs,
              sum-buckets b 256 input below,
            ) in
            let same : length mask' ≡ length mask = length-set mask b false in
            rw (le→ltb (length input) 2 l, some_left)
              (rw (bucket_partition_by_byte-buckets input scratch b below room) (
                >>=-Outcome (Filled (P mask') bs (concat bs ++ drop (length input) scratch)) _
                  (SomeDuplicates mask' bs) _ _ _
                  (fill_slots-Outcome (IsItem (length mask)) (P mask') mask' _ _
                    (λ hp g. make_leaf_node-Outcome mask' hp (depth + 1) (rw same g))
                    (λ sub sc two g r.
                      recurse_generate_node-Outcome fuel mask' (depth + 1) sub sc
                        (omega (arith, bits_left-set mask b unused)) two (rw same g) r)
                    bs (concat bs ++ drop (length input) scratch)
                    (buckets-All (IsItem (length mask)) b 0 256 input items) len)
                  (λ r h. (slots-P mask b depth r.0 input unused items h.0, h.1 ∙ len'))
                  (λ error h.
                    (h.0, λ d. h.1 (Distinct-buckets mask b unused 0 256 input items d)))))
      ]
