-- ===== src/ShallowTree/Nodes.antt =====
-- include/wedding_cake/shallow_tree.hpp: what the constructor makes of a node's items.
use wedding_cake_cpp.Base.{
  ℕ, zero, suc, ◌+◌, ◌<◌, ◌≡◌, refl, ◌∙◌, List, [], ◌∷◌, Bool, true, false, arith, length, set,
  get_or, All, ok, Option, none, some,
}
use wedding_cake_cpp.ShallowTree.{
  HashLocalPresentation, Items, Node, Slots, slots, end, empty_slot, full_slot, leaf,
  reassurance_bytes,
}
use wedding_cake_cpp.ShallowTree.Buckets.{bucket, buckets_from, lengths, HasByteBelow}
use wedding_cake_cpp.ShallowTree.Segments.{sum}
use wedding_cake_cpp.ShallowTree.Partition.{sum-buckets}
use wedding_cake_cpp.ShallowTree.Visit.{leaves_in, leaves_below}
use wedding_cake_cpp.ShallowTree.Members.{In-All, All-In, IsItem, Distinct, buckets-Distinct}
use wedding_cake_cpp.ShallowTree.Build.{SlotsHold}
use wedding_cake_cpp.ShallowTree.Lookups.{
  Found, leaf-Found, slots-Found, Sound, leaf-Sound, slots-Sound,
}

-- What the theorems say of a node and the items that it was made from.
abbrev pub Right : ℕ → List Bool → Node → Items → Type 0
Right count mask node input =
    Found count mask node input
    × Sound count mask node input
    × Distinct mask input
    × (leaves_in node ≡ length input)

SlotsHold-map :
    (P Q : Node → Items → Type 0) (s : Slots) (bs : List Items)
    → ((node : Node) (items : Items) → P node items → Q node items)
    → SlotsHold P s bs
    → SlotsHold Q s bs
SlotsHold-map P Q end [] f h = tt
SlotsHold-map P Q end (items ∷ bs) f h = h
SlotsHold-map P Q (empty_slot s) [] f h = h
SlotsHold-map P Q (empty_slot s) (items ∷ bs) f h = (h.0, SlotsHold-map P Q s bs f h.1)
SlotsHold-map P Q (full_slot node s) [] f h = h
SlotsHold-map P Q (full_slot node s) (items ∷ bs) f h =
    (f node items h.0, SlotsHold-map P Q s bs f h.1)

-- The buckets of slots whose nodes' items are distinct.
SlotsHold-Distinct :
    (mask : List Bool) (b v n i : ℕ) (s : Slots) (input : Items)
    → SlotsHold (λ node items. Distinct mask items) s (buckets_from b v n input)
    → i < n
    → Distinct mask (bucket b (v + i) input)
unfolding buckets_from
SlotsHold-Distinct mask b v zero i s input h l = absurd (omega arith)
SlotsHold-Distinct mask b v (suc n) i end input h l = absurd h
SlotsHold-Distinct mask b v (suc n) zero (empty_slot s) input h l =
    let z : v + 0 ≡ v = omega arith in rw (z, h.0) tt
SlotsHold-Distinct mask b v (suc n) zero (full_slot node s) input h l =
    let z : v + 0 ≡ v = omega arith in rw z h.0
SlotsHold-Distinct mask b v (suc n) (suc i) (empty_slot s) input h l =
    let z : v + suc i ≡ suc v + i = omega arith in
    rw z (SlotsHold-Distinct mask b (suc v) n i s input h.1 (omega arith))
SlotsHold-Distinct mask b v (suc n) (suc i) (full_slot node s) input h l =
    let z : v + suc i ≡ suc v + i = omega arith in
    rw z (SlotsHold-Distinct mask b (suc v) n i s input h.1 (omega arith))

SlotsHold-leaves :
    (s : Slots) (bs : List Items)
    → SlotsHold (λ node items. leaves_in node ≡ length items) s bs
    → leaves_below s ≡ sum (lengths bs)
unfolding leaves_in
SlotsHold-leaves end [] h = refl
SlotsHold-leaves end (items ∷ bs) h = absurd h
SlotsHold-leaves (empty_slot s) [] h = absurd h
SlotsHold-leaves (empty_slot s) (items ∷ bs) h = rw h.0 (omega (arith, SlotsHold-leaves s bs h.1))
SlotsHold-leaves (full_slot node s) [] h = absurd h
SlotsHold-leaves (full_slot node s) (items ∷ bs) h = omega (arith, h.0, SlotsHold-leaves s bs h.1)

pub leaf-Right :
    (count : ℕ) (mask : List Bool) (hp : HashLocalPresentation) (depth : ℕ) (bytes : List ℕ)
    → IsItem (length mask) hp
    → reassurance_bytes mask hp.hash (suc count) ≡ ok bytes
    → Right
        (suc count)
        mask
        (leaf depth
          (record { reassurance_hash_bytes = bytes; presentation_index = hp.presentation_index }))
        (hp ∷ [])
unfolding leaves_in
leaf-Right count mask hp depth bytes item e = (
  leaf-Found count mask hp depth bytes e,
  leaf-Sound count mask hp depth bytes item.size e,
  (tt, tt),
  refl,
)

pub slots-Right :
    (count : ℕ) (mask : List Bool) (b depth : ℕ) (s : Slots) (input : Items)
    → get_or mask b false ≡ true
    → All (IsItem (length mask)) input
    → SlotsHold (Right count (set mask b false)) s (buckets_from b 0 256 input)
    → Right count mask (slots depth b s) input
unfolding leaves_in
slots-Right count mask b depth s input unused items h =
    let mask' = set mask b false in
    let bs = buckets_from b 0 256 input in
    let one = Right count mask' in
    (
      slots-Found count mask b depth s input unused items
          (SlotsHold-map one (Found count mask') s bs (λ node xs r. r.0) h),
      slots-Sound count mask b depth s input unused items
          (SlotsHold-map one (Sound count mask') s bs (λ node xs r. r.1) h),
      buckets-Distinct mask b unused input items (λ v l.
          let d =
            SlotsHold-Distinct mask' b 0 256 v s input
              (SlotsHold-map one (λ node xs. Distinct mask' xs) s bs (λ node xs r. r.2) h) l in
          let z : 0 + v ≡ v = omega arith in rw z at d),
      (let below =
            All-In (HasByteBelow b 256) input
              (λ x i. (In-All (IsItem (length mask)) input x items i).bytes b) in
          SlotsHold-leaves s bs
            (SlotsHold-map one (λ node xs. leaves_in node ≡ length xs) s bs (λ node xs r. r.3) h)
          ∙ sum-buckets b 256 input below),
    )

abbrev pub RootRight : ℕ → List Bool → Items → Option Node → Type 0
RootRight count mask input none = input ≡ []
RootRight count mask input (some node) = Right count mask node input
