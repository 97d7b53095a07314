-- ===== src/ShallowTree/Lookups.antt =====
-- include/wedding_cake/shallow_tree.hpp: lookups in the nodes that were made from some items.
use wedding_cake_cpp.Base.{
  ℕ, zero, suc, ◌+◌, ◌-◌, ◌<◌, ◌≤◌, ◌≡◌, refl, sym, subst, ◌∙◌, List, [], ◌∷◌, Bool, true, false,
  arith, length, set, get_or, length-set, All, ok, Outcome, Outcome-map, >>=-eq-ok, Bool-cases, inl,
  inr, ◌⊎◌, nat_eq, nat_eq_iff, leb,
}
use wedding_cake_cpp.Types.{Hash, LocalPi, local_pi_no_match}
use wedding_cake_cpp.ShallowTree.{
  HashLocalPresentation, Items, Node, Slots, slots, end, empty_slot, full_slot, byte_of, leaf,
  reassurance_bytes,
}
use wedding_cake_cpp.ShallowTree.Search.{reassure, lookup_node, lookup_slot}
use wedding_cake_cpp.ShallowTree.Buckets.{bucket, buckets_from}
use wedding_cake_cpp.ShallowTree.Masks.{bits_left, bits_left-set, agrees, agrees-set}
use wedding_cake_cpp.ShallowTree.Members.{In, In-All, All-In, IsItem, In-bucket, bucket-In}
use wedding_cake_cpp.ShallowTree.Build.{SlotsHold}

-- Each of the items is found.
abbrev pub Found : ℕ → List Bool → Node → Items → Type 0
Found count mask node input =
    All
      (λ (x : HashLocalPresentation). lookup_node count mask x.hash node ≡ ok x.presentation_index)
      input

reassure-own :
    (mask : List Bool) (hash : Hash) (left : ℕ) (bytes : List ℕ) (pi : LocalPi)
    → reassurance_bytes mask hash left ≡ ok bytes
    → reassure mask hash bytes left pi ≡ ok pi
unfolding reassurance_bytes reassure
reassure-own [] hash left bytes pi e = refl
reassure-own (bit ∷ mask) [] left bytes pi e = refl
reassure-own (false ∷ mask) (byte ∷ hash) left bytes pi e = reassure-own mask hash left bytes pi e
reassure-own (true ∷ mask) (byte ∷ hash) zero bytes pi e = cc
reassure-own (true ∷ mask) (byte ∷ hash) (suc zero) [] pi e = cc
reassure-own (true ∷ mask) (byte ∷ hash) (suc zero) (x ∷ bytes) pi e =
    let h : byte ≡ x = cc in ground arith
reassure-own (true ∷ mask) (byte ∷ hash) (suc (suc left)) bytes pi e =
    let (rest, e1, e2) = >>=-eq-ok (reassurance_bytes mask hash (suc left)) _ e in
    let again = reassure-own mask hash (suc left) rest pi e1 in
    let l : suc (suc left) - 1 ≡ suc left = omega arith in
    let all : byte ∷ rest ≡ bytes = cc in rw (sym all) (rw l (ground (arith, again)))

pub leaf-Found :
    (count : ℕ) (mask : List Bool) (hp : HashLocalPresentation) (depth : ℕ) (bytes : List ℕ)
    → reassurance_bytes mask hp.hash (suc count) ≡ ok bytes
    → Found
        (suc count)
        mask
        (leaf depth
          (record { reassurance_hash_bytes = bytes; presentation_index = hp.presentation_index }))
        (hp ∷ [])
unfolding lookup_node
leaf-Found count mask hp depth bytes e =
    (reassure-own mask hp.hash (suc count) bytes hp.presentation_index e, tt)

slot-Found :
    (count b v n i : ℕ) (mask : List Bool) (s : Slots) (input : Items) (x : HashLocalPresentation)
    → SlotsHold (Found count mask) s (buckets_from b v n input)
    → In x input
    → byte_of b x ≡ v + i
    → i < n
    → lookup_slot count mask x.hash s i ≡ ok x.presentation_index
unfolding buckets_from lookup_node
slot-Found count b v zero i mask s input x h j e l = absurd (omega arith)
slot-Found count b v (suc n) i mask end input x h j e l = absurd h
slot-Found count b v (suc n) zero mask (empty_slot s) input x h j e l =
    absurd (subst (In x) h.0 (bucket-In b v input x j (omega arith)))
slot-Found count b v (suc n) zero mask (full_slot node s) input x h j e l =
    In-All _ (bucket b v input) x h.0 (bucket-In b v input x j (omega arith))
slot-Found count b v (suc n) (suc i) mask (empty_slot s) input x h j e l =
    slot-Found count b (suc v) n i mask s input x h.1 j (omega arith) (omega arith)
slot-Found count b v (suc n) (suc i) mask (full_slot node s) input x h j e l =
    slot-Found count b (suc v) n i mask s input x h.1 j (omega arith) (omega arith)

pub slots-Found :
    (count : ℕ) (mask : List Bool) (b depth : ℕ) (s : Slots) (input : Items)
    → get_or mask b false ≡ true
    → All (IsItem (length mask)) input
    → SlotsHold (Found count (set mask b false)) s (buckets_from b 0 256 input)
    → Found count mask (slots depth b s) input
unfolding lookup_node
slots-Found count mask b depth s input unused items h = All-In _ input (λ x i.
    slot-Found count b 0 256 (byte_of b x) (set mask b false) s input x h i (omega arith)
      ((In-All (IsItem (length mask)) input x items i).bytes b))

-- What a lookup may return: no match, or the index of an item that agrees on the unused bytes when
-- the leaves keep that many.
abbrev pub Candidate : ℕ → List Bool → Hash → Items → LocalPi → Type 0
Candidate count mask target input pi =
    (pi ≡ local_pi_no_match)
    ⊎ ((x : HashLocalPresentation) × In x input
        × (x.presentation_index ≡ pi)
        × (bits_left mask ≤ count → agrees mask target x.hash ≡ true))

-- No lookup of a hash of the size reads out of bounds, and what it returns is a candidate.
abbrev pub Sound : ℕ → List Bool → Node → Items → Type 0
Sound count mask node input =
    (target : Hash)
    → length target ≡ length mask
    → ((b : ℕ) → get_or target b 0 < 256)
    → Outcome (Candidate count mask target input) (λ error. ⊥) (lookup_node count mask target node)

agrees_zero : (mask : List Bool) (xs ys : Hash) → bits_left mask ≤ 0 → agrees mask xs ys ≡ true
unfolding agrees bits_left
agrees_zero [] xs ys h = refl
agrees_zero (bit ∷ mask) [] ys h = refl
agrees_zero (bit ∷ mask) (x ∷ xs) [] h = refl
agrees_zero (false ∷ mask) (x ∷ xs) (y ∷ ys) h = agrees_zero mask xs ys h
agrees_zero (true ∷ mask) (x ∷ xs) (y ∷ ys) h = absurd (omega arith)

abbrev Reassured : ℕ → List Bool → Hash → Hash → LocalPi → LocalPi → Type 0
Reassured left mask target hash pi p =
    (p ≡ local_pi_no_match) ⊎ ((p ≡ pi) × (bits_left mask ≤ left → agrees mask target hash ≡ true))

Reassured-true :
    (left byte t : ℕ) (mask : List Bool) (target hash : Hash) (pi p : LocalPi)
    → t ≡ byte
    → Reassured left mask target hash pi p
    → Reassured (suc left) (true ∷ mask) (t ∷ target) (byte ∷ hash) pi p
unfolding agrees bits_left
Reassured-true left byte t mask target hash pi p e (inl n) = inl n
Reassured-true left byte t mask target hash pi p e (inr (q, a)) =
    inr (q, λ l. let h = a (omega arith) in ground (arith, nat_eq_iff t byte))

reassure-Outcome :
    (mask : List Bool) (target hash : Hash) (left : ℕ) (bytes : List ℕ) (pi : LocalPi)
    → length target ≡ length mask
    → length hash ≡ length mask
    → reassurance_bytes mask hash (suc left) ≡ ok bytes
    → Outcome
        (Reassured (suc left) mask target hash pi)
        (λ error. ⊥)
        (reassure mask target bytes (suc left) pi)
unfolding reassurance_bytes reassure agrees bits_left
reassure-Outcome [] target hash left bytes pi lt lh e = inr (refl, λ l. refl)
reassure-Outcome (bit ∷ mask) [] hash left bytes pi lt lh e = absurd (omega arith)
reassure-Outcome (bit ∷ mask) (t ∷ target) [] left bytes pi lt lh e = absurd (omega arith)
reassure-Outcome (false ∷ mask) (t ∷ target) (byte ∷ hash) left bytes pi lt lh e =
    reassure-Outcome mask target hash left bytes pi (omega arith) (omega arith) e
reassure-Outcome (true ∷ mask) (t ∷ target) (byte ∷ hash) zero bytes pi lt lh e =
    let all : byte ∷ [] ≡ bytes = cc in
    rw (sym all) (elim (Bool-cases (nat_eq t byte)) [
      | inr d ↦ rw d (inl refl)
      | inl h ↦ rw h (
          Reassured-true zero byte t mask target hash pi pi ((nat_eq_iff t byte).0 h)
            (inr (refl, agrees_zero mask target hash)))
    ])
reassure-Outcome (true ∷ mask) (t ∷ target) (byte ∷ hash) (suc left) bytes pi lt lh e =
    let (rest, e1, e2) = >>=-eq-ok (reassurance_bytes mask hash (suc left)) _ e in
    let again = reassure-Outcome mask target hash left rest pi (omega arith) (omega arith) e1 in
    let all : byte ∷ rest ≡ bytes = cc in
    let l : suc (suc left) - 1 ≡ suc left = omega arith in
    let more : leb (suc (suc left)) 1 ≡ false = ground arith in
    rw (sym all) (elim (Bool-cases (nat_eq t byte)) [
      | inr d ↦ rw d (inl refl)
      | inl h ↦
          rw (h, more, l)
            (Outcome-map _ _ _ (reassure mask target rest (suc left) pi) again (λ p.
              Reassured-true (suc left) byte t mask target hash pi p ((nat_eq_iff t byte).0 h)))
    ])

pub leaf-Sound :
    (count : ℕ) (mask : List Bool) (hp : HashLocalPresentation) (depth : ℕ) (bytes : List ℕ)
    → length hp.hash ≡ length mask
    → reassurance_bytes mask hp.hash (suc count) ≡ ok bytes
    → Sound
        (suc count)
        mask
        (leaf depth
          (record { reassurance_hash_bytes = bytes; presentation_index = hp.presentation_index }))
        (hp ∷ [])
unfolding lookup_node
leaf-Sound count mask hp depth bytes size e target lt below =
    Outcome-map _ _ _ (reassure mask target bytes (suc count) hp.presentation_index)
      (reassure-Outcome mask target hp.hash count bytes hp.presentation_index lt size e)
      (λ p r. elim r [ inl n ↦ inl n | inr (q, a) ↦ inr (hp, inl refl, sym q, a) ])

-- The slot of the hash's byte: its items are those of the input with that byte.
slot-Sound :
    (count b v n i : ℕ) (mask : List Bool) (s : Slots) (input : Items) (target : Hash)
    → SlotsHold (Sound count mask) s (buckets_from b v n input)
    → length target ≡ length mask
    → ((k : ℕ) → get_or target k 0 < 256)
    → get_or target b 0 ≡ v + i
    → i < n
    → Outcome
        (Candidate count mask target (bucket b (v + i) input))
        (λ error. ⊥)
        (lookup_slot count mask target s i)
unfolding buckets_from lookup_node
slot-Sound count b v zero i mask s input target h lt below e l = absurd (omega arith)
slot-Sound count b v (suc n) i mask end input target h lt below e l = absurd h
slot-Sound count b v (suc n) zero mask (empty_slot s) input target h lt below e l = inl refl
slot-Sound count b v (suc n) zero mask (full_slot node s) input target h lt below e l =
    let z : v + 0 ≡ v = omega arith in rw z (h.0 target lt below)
slot-Sound count b v (suc n) (suc i) mask (empty_slot s) input target h lt below e l =
    let z : v + suc i ≡ suc v + i = omega arith in
    rw z (slot-Sound count b (suc v) n i mask s input target h.1 lt below (e ∙ z) (omega arith))
slot-Sound count b v (suc n) (suc i) mask (full_slot node s) input target h lt below e l =
    let z : v + suc i ≡ suc v + i = omega arith in
    rw z (slot-Sound count b (suc v) n i mask s input target h.1 lt below (e ∙ z) (omega arith))

pub slots-Sound :
    (count : ℕ) (mask : List Bool) (b depth : ℕ) (s : Slots) (input : Items)
    → get_or mask b false ≡ true
    → All (IsItem (length mask)) input
    → SlotsHold (Sound count (set mask b false)) s (buckets_from b 0 256 input)
    → Sound count mask (slots depth b s) input
unfolding lookup_node
slots-Sound count mask b depth s input unused items h target lt below =
    let mask' = set mask b false in
    let v = get_or target b 0 in
    let z : 0 + v ≡ v = omega arith in
    let same : length mask' ≡ length mask = length-set mask b false in
    let found : Outcome (Candidate count mask' target (bucket b (0 + v) input)) (λ error. ⊥)
        (lookup_slot count mask' target s v) =
      slot-Sound count b 0 256 v mask' s input target h (lt ∙ sym same) below (sym z) (below b) in
    Outcome-map _ _ _ (lookup_slot count mask' target s v) found (λ p c. elim c [
      | inl n ↦ inl n
      | inr (x, i, q, a) ↦
          let (j, g) = In-bucket b (0 + v) input x i in
          let ix = In-All (IsItem (length mask)) input x items j in
          inr (
            x,
            j,
            q,
            λ (r : bits_left mask ≤ count).
                agrees-set mask b target x.hash unused lt ix.size (sym (g ∙ z))
                ∙ a (omega (arith, bits_left-set mask b unused)),
          )
    ])
