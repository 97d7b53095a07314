-- ===== src/ShallowTree/Masks.antt =====
-- include/wedding_cake/shallow_tree.hpp: the mask of the unused bytes, hashes that agree on it, and
-- the byte that the entropy chooses.
use wedding_cake_cpp.Base.{
  ℕ, zero, suc, ◌+◌, ◌≤◌, ◌≡◌, refl, ap, subst, ◌∙◌, List, [], ◌∷◌, Bool, true, false, ◌&&◌, Option,
  none, some, nat_eq, nat_eq_iff, arith, length, get_or, set, if◌then◌else◌, ltb,
}
use native.Mathlib.Nat.{zero-add}
use wedding_cake_cpp.Types.{Hash}
use wedding_cake_cpp.ShallowTree.{
  Items, any_unused, better, best_from, best_byte_index, byte_sum_sq,
}

-- Whether two hashes have the same unused bytes.
unfoldable pub agrees : List Bool → Hash → Hash → Bool
agrees [] xs ys = true
agrees (bit ∷ mask) [] ys = true
agrees (bit ∷ mask) (x ∷ xs) [] = true
agrees (false ∷ mask) (x ∷ xs) (y ∷ ys) = agrees mask xs ys
agrees (true ∷ mask) (x ∷ xs) (y ∷ ys) = nat_eq x y && agrees mask xs ys

-- How many bytes are unused.
unfoldable pub bits_left : List Bool → ℕ
bits_left [] = 0
bits_left (false ∷ mask) = bits_left mask
bits_left (true ∷ mask) = suc (bits_left mask)

pub agrees_refl : (mask : List Bool) (xs : Hash) → agrees mask xs xs ≡ true
unfolding agrees
agrees_refl [] xs = refl
agrees_refl (bit ∷ mask) [] = refl
agrees_refl (false ∷ mask) (x ∷ xs) = agrees_refl mask xs
agrees_refl (true ∷ mask) (x ∷ xs) = ground (arith, nat_eq_iff x x, agrees_refl mask xs)

pub agrees_none :
    (mask : List Bool) (xs ys : Hash) → any_unused mask ≡ false → agrees mask xs ys ≡ true
unfolding agrees any_unused
agrees_none [] xs ys h = refl
agrees_none (bit ∷ mask) [] ys h = refl
agrees_none (bit ∷ mask) (x ∷ xs) [] h = refl
agrees_none (false ∷ mask) (x ∷ xs) (y ∷ ys) h = agrees_none mask xs ys h
agrees_none (true ∷ mask) (x ∷ xs) (y ∷ ys) h = cc

-- Two hashes with the same byte `b` agree when they agree on the other bytes.
pub agrees-set :
    (mask : List Bool) (b : ℕ) (xs ys : Hash)
    → get_or mask b false ≡ true
    → length xs ≡ length mask
    → length ys ≡ length mask
    → get_or xs b 0 ≡ get_or ys b 0
    → agrees mask xs ys ≡ agrees (set mask b false) xs ys
unfolding agrees
agrees-set [] b xs ys h lx ly e = refl
agrees-set (bit ∷ mask) b [] ys h lx ly e = absurd (omega arith)
agrees-set (bit ∷ mask) b (x ∷ xs) [] h lx ly e = absurd (omega arith)
agrees-set (false ∷ mask) zero (x ∷ xs) (y ∷ ys) h lx ly e = cc
agrees-set (true ∷ mask) zero (x ∷ xs) (y ∷ ys) h lx ly e = ground (arith, nat_eq_iff x y)
agrees-set (false ∷ mask) (suc b) (x ∷ xs) (y ∷ ys) h lx ly e =
    agrees-set mask b xs ys h (omega arith) (omega arith) e
agrees-set (true ∷ mask) (suc b) (x ∷ xs) (y ∷ ys) h lx ly e =
    ap (λ (t : Bool). nat_eq x y && t) (agrees-set mask b xs ys h (omega arith) (omega arith) e)

-- A byte that differs.
pub agrees_other :
    (mask : List Bool) (b : ℕ) (xs ys : Hash)
    → get_or mask b false ≡ true
    → length xs ≡ length mask
    → length ys ≡ length mask
    → nat_eq (get_or xs b 0) (get_or ys b 0) ≡ false
    → agrees mask xs ys ≡ false
unfolding agrees
agrees_other [] b xs ys h lx ly e = cc
agrees_other (bit ∷ mask) b [] ys h lx ly e = absurd (omega arith)
agrees_other (bit ∷ mask) b (x ∷ xs) [] h lx ly e = absurd (omega arith)
agrees_other (false ∷ mask) zero (x ∷ xs) (y ∷ ys) h lx ly e = cc
agrees_other (true ∷ mask) zero (x ∷ xs) (y ∷ ys) h lx ly e = rw e refl
agrees_other (false ∷ mask) (suc b) (x ∷ xs) (y ∷ ys) h lx ly e =
    agrees_other mask b xs ys h (omega arith) (omega arith) e
agrees_other (true ∷ mask) (suc b) (x ∷ xs) (y ∷ ys) h lx ly e =
    let rest = agrees_other mask b xs ys h (omega arith) (omega arith) e in ground (arith, rest)

pub bits_left-set :
    (mask : List Bool) (b : ℕ)
    → get_or mask b false ≡ true
    → suc (bits_left (set mask b false)) ≡ bits_left mask
unfolding bits_left
bits_left-set [] b h = cc
bits_left-set (false ∷ mask) zero h = cc
bits_left-set (true ∷ mask) zero h = refl
bits_left-set (false ∷ mask) (suc b) h = bits_left-set mask b h
bits_left-set (true ∷ mask) (suc b) h = ap suc (bits_left-set mask b h)

pub bits_left-le : (mask : List Bool) → bits_left mask ≤ length mask
unfolding bits_left
bits_left-le [] = omega arith
bits_left-le (false ∷ mask) = omega (arith, bits_left-le mask)
bits_left-le (true ∷ mask) = omega (arith, bits_left-le mask)

-- The best byte so far is one of the mask's.
abbrev IsUnused : List Bool → Option (ℕ × ℕ) → Type 0
IsUnused mask none = Unit
IsUnused mask (some (best, best_sum)) = get_or mask best false ≡ true

if-IsUnused :
    (mask : List Bool) (test : Bool) (x y : Option (ℕ × ℕ))
    → IsUnused mask x
    → IsUnused mask y
    → IsUnused mask (if test then x else y)
if-IsUnused mask true x y hx hy = hx
if-IsUnused mask false x y hx hy = hy

better-IsUnused :
    (mask : List Bool) (best : Option (ℕ × ℕ)) (b sum_sq : ℕ)
    → get_or mask b false ≡ true
    → IsUnused mask best
    → IsUnused mask (better best b sum_sq)
better-IsUnused mask none b sum_sq h u = h
better-IsUnused mask (some (best, best_sum)) b sum_sq h u =
    if-IsUnused mask (ltb sum_sq best_sum) (some (b, sum_sq)) (some (best, best_sum)) h u

-- `mask` shows the bits of `whole` from byte `b` on.
abbrev Shows : List Bool → ℕ → List Bool → Type 0
Shows whole b mask = (i : ℕ) → get_or whole (b + i) false ≡ get_or mask i false

Shows-next :
    (whole : List Bool) (b : ℕ) (bit : Bool) (mask : List Bool)
    → Shows whole b (bit ∷ mask)
    → Shows whole (suc b) mask
Shows-next whole b bit mask h i =
    let e : suc b + i ≡ b + suc i = omega arith in
    ap (λ (k : ℕ). get_or whole k false) e ∙ h (suc i)

best_from-IsUnused :
    (input : Items) (whole mask : List Bool) (b : ℕ) (best : Option (ℕ × ℕ))
    → Shows whole b mask
    → IsUnused whole best
    → IsUnused whole (best_from input mask b best)
unfolding best_from
best_from-IsUnused input whole [] b best h u = u
best_from-IsUnused input whole (false ∷ mask) b best h u =
    best_from-IsUnused input whole mask (suc b) best (Shows-next whole b false mask h) u
best_from-IsUnused input whole (true ∷ mask) b best h u =
    let e : b ≡ b + 0 = omega arith in
    let here : get_or whole b false ≡ true = ap (λ (k : ℕ). get_or whole k false) e ∙ h 0 in
    best_from-IsUnused input whole mask (suc b) (better best b (byte_sum_sq input b))
      (Shows-next whole b true mask h) (better-IsUnused whole best b (byte_sum_sq input b) here u)

if_some : (test : Bool) (x y : ℕ × ℕ) → (p : ℕ × ℕ) × ((if test then some x else some y) ≡ some p)
if_some true x y = (x, refl)
if_some false x y = (y, refl)

better-some : (best : Option (ℕ × ℕ)) (b sum_sq : ℕ) → (p : ℕ × ℕ) × (better best b sum_sq ≡ some p)
better-some none b sum_sq = ((b, sum_sq), refl)
better-some (some (best, best_sum)) b sum_sq =
    if_some (ltb sum_sq best_sum) (b, sum_sq) (best, best_sum)

best_from-some :
    (input : Items) (mask : List Bool) (b : ℕ) (x : ℕ × ℕ)
    → (p : ℕ × ℕ) × (best_from input mask b (some x) ≡ some p)
unfolding best_from
best_from-some input [] b x = (x, refl)
best_from-some input (false ∷ mask) b x = best_from-some input mask (suc b) x
best_from-some input (true ∷ mask) b x =
    let (q, e) = better-some (some x) b (byte_sum_sq input b) in
    rw e (best_from-some input mask (suc b) q)

best_from_any :
    (input : Items) (mask : List Bool) (b : ℕ)
    → any_unused mask ≡ true
    → (p : ℕ × ℕ) × (best_from input mask b none ≡ some p)
unfolding best_from any_unused
best_from_any input [] b h = cc
best_from_any input (false ∷ mask) b h = best_from_any input mask (suc b) h
best_from_any input (true ∷ mask) b h = best_from-some input mask (suc b) (b, byte_sum_sq input b)

-- The byte chosen is an unused one, when there is one.
pub best_byte_index-unused :
    (input : Items) (mask : List Bool)
    → any_unused mask ≡ true
    → get_or mask (best_byte_index input mask) false ≡ true
unfolding best_byte_index
best_byte_index-unused input mask h =
    let (p, e) = best_from_any input mask 0 h in
    let shows : Shows mask 0 mask = λ i. ap (λ (k : ℕ). get_or mask k false) (zero-add i) in
    let u = best_from-IsUnused input mask mask 0 none shows tt in
    let u' : IsUnused mask (some p) = subst (IsUnused mask) e u in rw e u'
