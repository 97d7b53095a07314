-- ===== src/ShallowTree/Entropy.antt =====
-- include/wedding_cake/shallow_tree.hpp: the byte that recurse_generate_node splits by has the most
-- entropy, which is the smallest sum of squared counts.
use wedding_cake_cpp.Base.{
  ℕ, zero, suc, ◌+◌, ◌≤◌, ◌≡◌, refl, List, [], ◌∷◌, Bool, true, false, Option, none, some, arith,
  get_or, ltb, length, ap, ◌∙◌, ◌*◌, All, Bool-cases, ltb→lt, inl, inr,
}
use native.Mathlib.Nat.{zero-add}
use wedding_cake_cpp.ShallowTree.{
  Items, better, best_from, best_byte_index, byte_sum_sq, index_or_zero, sum_squares, any_unused,
}
use wedding_cake_cpp.ShallowTree.Buckets.{buckets_from, lengths, HasByteBelow}
use wedding_cake_cpp.ShallowTree.Partition.{counts-buckets}
use wedding_cake_cpp.ShallowTree.Masks.{best_byte_index-unused}
use wedding_cake_cpp.ShallowTree.Members.{In-All, All-In, IsItem}

-- The best byte so far has the sum that is kept with it.
abbrev IsMeasured : Items → Option (ℕ × ℕ) → Type 0
IsMeasured input none = Unit
IsMeasured input (some (best, best_sum)) = best_sum ≡ byte_sum_sq input best

-- There is a best byte, and its sum is at most `bound`.
abbrev AtMost : Items → ℕ → Option (ℕ × ℕ) → Type 0
AtMost input bound none = ⊥
AtMost input bound (some (best, best_sum)) =
    (best_sum ≡ byte_sum_sq input best) × (best_sum ≤ bound)

better-AtMost :
    (input : Items) (b bound : ℕ) (best : Option (ℕ × ℕ))
    → AtMost input bound best
    → AtMost input bound (better best b (byte_sum_sq input b))
better-AtMost input b bound none h = absurd h
better-AtMost input b bound (some (best, best_sum)) h =
    elim (Bool-cases (ltb (byte_sum_sq input b) best_sum)) [
      | inl e ↦ rw e (refl, omega (arith, ltb→lt (byte_sum_sq input b) best_sum e))
      | inr e ↦ rw e h
    ]

better-AtMost_new :
    (input : Items) (b : ℕ) (best : Option (ℕ × ℕ))
    → IsMeasured input best
    → AtMost input (byte_sum_sq input b) (better best b (byte_sum_sq input b))
better-AtMost_new input b none h = (refl, omega arith)
better-AtMost_new input b (some (best, best_sum)) h =
    elim (Bool-cases (ltb (byte_sum_sq input b) best_sum)) [
      | inl e ↦ rw e (refl, omega arith)
      | inr e ↦ rw e (h, ground arith)
    ]

AtMost-IsMeasured :
    (input : Items) (bound : ℕ) (best : Option (ℕ × ℕ))
    → AtMost input bound best
    → IsMeasured input best
AtMost-IsMeasured input bound none h = tt
AtMost-IsMeasured input bound (some (best, best_sum)) h = h.0

best_from-AtMost :
    (input : Items) (mask : List Bool) (b bound : ℕ) (best : Option (ℕ × ℕ))
    → AtMost input bound best
    → AtMost input bound (best_from input mask b best)
unfolding best_from
best_from-AtMost input [] b bound best h = h
best_from-AtMost input (false ∷ mask) b bound best h =
    best_from-AtMost input mask (suc b) bound best h
best_from-AtMost input (true ∷ mask) b bound best h =
    best_from-AtMost input mask (suc b) bound (better best b (byte_sum_sq input b))
      (better-AtMost input b bound best h)

best_from_least :
    (input : Items) (mask : List Bool) (b i : ℕ) (best : Option (ℕ × ℕ))
    → IsMeasured input best
    → get_or mask i false ≡ true
    → AtMost input (byte_sum_sq input (b + i)) (best_from input mask b best)
unfolding best_from
best_from_least input [] b i best h u = cc
best_from_least input (false ∷ mask) b zero best h u = cc
best_from_least input (true ∷ mask) b zero best h u =
    let z : b + 0 ≡ b = omega arith in
    rw z (
      best_from-AtMost input mask (suc b) (byte_sum_sq input b)
        (better best b (byte_sum_sq input b)) (better-AtMost_new input b best h))
best_from_least input (false ∷ mask) b (suc i) best h u =
    let z : b + suc i ≡ suc b + i = omega arith in
    rw z (best_from_least input mask (suc b) i best h u)
best_from_least input (true ∷ mask) b (suc i) best h u =
    let z : b + suc i ≡ suc b + i = omega arith in
    rw z (
      best_from_least input mask (suc b) i (better best b (byte_sum_sq input b))
        (AtMost-IsMeasured input (byte_sum_sq input b) (better best b (byte_sum_sq input b))
          (better-AtMost_new input b best h))
        u)

AtMost-index :
    (input : Items) (bound : ℕ) (best : Option (ℕ × ℕ))
    → AtMost input bound best
    → byte_sum_sq input (index_or_zero best) ≤ bound
AtMost-index input bound none h = absurd h
AtMost-index input bound (some (best, best_sum)) h = omega (arith, h.0, h.1)

best_byte_index-smallest :
    (input : Items) (mask : List Bool) (i : ℕ)
    → get_or mask i false ≡ true
    → byte_sum_sq input (best_byte_index input mask) ≤ byte_sum_sq input i
unfolding best_byte_index
best_byte_index-smallest input mask i u =
    let h = best_from_least input mask 0 i none tt u in
    let h' : AtMost input (byte_sum_sq input i) (best_from input mask 0 none) =
      rw (zero-add i) at h in
    AtMost-index input (byte_sum_sq input i) (best_from input mask 0 none) h'

-- The sum over some buckets of the squares of their sizes.
abbrev pub collisions : List Items → ℕ
collisions [] = 0
collisions (items ∷ bs) = length items * length items + collisions bs

sum_squares-lengths : (bs : List Items) → sum_squares (lengths bs) ≡ collisions bs
unfolding sum_squares
sum_squares-lengths [] = refl
sum_squares-lengths (items ∷ bs) = ap (◌+◌ (length items * length items)) (sum_squares-lengths bs)

byte_sum_sq-buckets :
    (n b : ℕ) (input : Items)
    → All (IsItem n) input
    → byte_sum_sq input b ≡ collisions (buckets_from b 0 256 input)
unfolding byte_sum_sq
byte_sum_sq-buckets n b input items =
    let bytes =
      All-In (HasByteBelow b 256) input (λ x i. (In-All (IsItem n) input x items i).bytes b) in
    ap sum_squares (counts-buckets b 256 input bytes)
    ∙ sum_squares-lengths (buckets_from b 0 256 input)

any_unused-get_or : (mask : List Bool) (i : ℕ) → get_or mask i false ≡ true → any_unused mask ≡ true
unfolding any_unused
any_unused-get_or [] i u = cc
any_unused-get_or (true ∷ mask) i u = refl
any_unused-get_or (false ∷ mask) zero u = cc
any_unused-get_or (false ∷ mask) (suc i) u = any_unused-get_or mask i u

-- For items of one hash size and a mask with an unused byte, the byte that a node splits by is
-- unused, and the sum of the squared sizes of the 256 buckets that it splits the items into is
-- at most that of each unused byte.
pub best_byte_index-least :
    (n : ℕ) (input : Items) (mask : List Bool) (i : ℕ)
    → All (IsItem n) input
    → get_or mask i false ≡ true
    → (get_or mask (best_byte_index input mask) false ≡ true)
      × (collisions (buckets_from (best_byte_index input mask) 0 256 input)
          ≤ collisions (buckets_from i 0 256 input))
best_byte_index-least n input mask i items u =
    let chosen = best_byte_index input mask in
    (
      best_byte_index-unused input mask (any_unused-get_or mask i u),
      omega (
        arith,
        best_byte_index-smallest input mask i u,
        byte_sum_sq-buckets n chosen input items,
        byte_sum_sq-buckets n i input items,
      ),
    )
