-- ===== src/ShallowTree/Segments.antt =====
-- include/wedding_cake/shallow_tree.hpp: the scratch buffer while bucket_partition_by_byte fills
-- it. The segment of each value is what has been copied there, then old items to be overwritten.
use wedding_cake_cpp.Base.{
  ℕ, zero, suc, ◌+◌, ◌<◌, ◌≤◌, ◌≡◌, refl, ap, sym, subst, ◌∙◌, List, [], ◌∷◌, ◌++◌, arith, length,
  get_or, set, take, drop, All, append-nil, append_assoc, length-append, length-take, length-drop,
  take-append-drop, drop-drop,
}
use wedding_cake_cpp.ShallowTree.{
  HashLocalPresentation, Items, byte_of, increment, scatter, offsets_from,
}
use wedding_cake_cpp.ShallowTree.Buckets.{
  bucket, buckets_from, concat, lengths, push, HasByteBelow, buckets_from-cons,
}

abbrev Segments : Type 0
Segments = List (Items × Items)

abbrev pub flat : Segments → Items
flat [] = []
flat ((filled, old) ∷ rest) = filled ++ (old ++ flat rest)

-- Where each segment goes on, from `base` on.
abbrev starts : ℕ → Segments → List ℕ
starts base [] = []
starts base ((filled, old) ∷ rest) =
    (base + length filled) ∷ starts (base + (length filled + length old)) rest

abbrev position : ℕ → Segments → ℕ
position i [] = 0
position zero ((filled, old) ∷ rest) = length filled
position (suc i) ((filled, old) ∷ rest) = length filled + (length old + position i rest)

abbrev place : ℕ → HashLocalPresentation → Segments → Segments
place i x [] = []
place zero x ((filled, old) ∷ rest) = (filled ++ (x ∷ []), drop 1 old) ∷ rest
place (suc i) x (p ∷ rest) = p ∷ place i x rest

-- The segments have room for these buckets exactly.
abbrev Fits : Segments → List Items → Type 0
Fits [] [] = Unit
Fits [] (items ∷ bs) = ⊥
Fits (p ∷ rest) [] = ⊥
Fits ((filled, old) ∷ rest) (items ∷ bs) = (length old ≡ length items) × Fits rest bs

abbrev finals : Segments → List Items → List Items
finals [] bs = []
finals (p ∷ rest) [] = []
finals ((filled, old) ∷ rest) (items ∷ bs) = (filled ++ items) ∷ finals rest bs

set-skip :
    (xs ys : Items) (k : ℕ) (x : HashLocalPresentation)
    → set (xs ++ ys) (length xs + k) x ≡ xs ++ set ys k x
set-skip [] ys k x = ap (λ (i : ℕ). set ys i x) (omega arith)
set-skip (y ∷ xs) ys k x =
    let e : length (y ∷ xs) + k ≡ suc (length xs + k) = omega arith in
    rw e (ap (◌∷◌ y) (set-skip xs ys k x))

starts-position :
    (base i : ℕ) (s : Segments) → i < length s → get_or (starts base s) i 0 ≡ base + position i s
starts-position base i [] h = absurd (omega arith)
starts-position base zero (p ∷ s) h = refl
starts-position base (suc i) ((filled, old) ∷ s) h =
    omega (arith, starts-position (base + (length filled + length old)) i s (omega arith))

-- One item more: the buffer, the running offsets, the room and the result.
set-place :
    (i : ℕ) (x : HashLocalPresentation) (s : Segments) (bs : List Items) (tail : Items)
    → Fits s (push i x bs)
    → i < length s
    → set (flat s ++ tail) (position i s) x ≡ flat (place i x s) ++ tail
set-place i x [] bs tail f h = absurd (omega arith)
set-place i x (p ∷ s) [] tail f h = absurd f
set-place zero x ((filled, []) ∷ s) (items ∷ bs) tail f h = absurd (omega (arith, f.0))
set-place zero x ((filled, o ∷ old) ∷ s) (items ∷ bs) tail f h =
    let e : length filled ≡ length filled + 0 = omega arith in
    rw (append_assoc filled) (
      rw (ap (λ (k : ℕ). set (filled ++ (o ∷ ((old ++ flat s) ++ tail))) k x) e) (
        rw (set-skip filled (o ∷ ((old ++ flat s) ++ tail)) 0 x)
          (rw (append_assoc filled, append_assoc filled) refl)))
set-place (suc i) x ((filled, old) ∷ s) (items ∷ bs) tail f h =
    rw (append_assoc filled, append_assoc old, append_assoc filled, append_assoc old)
      (rw (set-skip filled, set-skip old, set-place i x s bs tail f.1 (omega arith)) refl)

increment-starts :
    (base i : ℕ) (x : HashLocalPresentation) (s : Segments) (bs : List Items)
    → Fits s (push i x bs)
    → i < length s
    → increment (starts base s) i ≡ starts base (place i x s)
increment-starts base i x [] bs f h = absurd (omega arith)
increment-starts base i x (p ∷ s) [] f h = absurd f
increment-starts base zero x ((filled, []) ∷ s) (items ∷ bs) f h = absurd (omega (arith, f.0))
increment-starts base zero x ((filled, o ∷ old) ∷ s) (items ∷ bs) f h =
    let e : suc (base + length filled) ≡ base + length (filled ++ (x ∷ [])) =
      omega (arith, length-append filled (x ∷ [])) in
    let g : base + (length filled + suc (length old))
        ≡ base + (length (filled ++ (x ∷ [])) + length old) =
      omega (arith, length-append filled (x ∷ [])) in
    rw (e, g) refl
increment-starts base (suc i) x ((filled, old) ∷ s) (items ∷ bs) f h =
    ap (◌∷◌ (base + length filled))
      (increment-starts (base + (length filled + length old)) i x s bs f.1 (omega arith))

place-Fits :
    (i : ℕ) (x : HashLocalPresentation) (s : Segments) (bs : List Items)
    → Fits s (push i x bs)
    → i < length s
    → Fits (place i x s) bs
place-Fits i x [] bs f h = absurd (omega arith)
place-Fits i x (p ∷ s) [] f h = absurd f
place-Fits zero x ((filled, []) ∷ s) (items ∷ bs) f h = absurd (omega (arith, f.0))
place-Fits zero x ((filled, o ∷ old) ∷ s) (items ∷ bs) f h = (omega (arith, f.0), f.1)
place-Fits (suc i) x ((filled, old) ∷ s) (items ∷ bs) f h =
    (f.0, place-Fits i x s bs f.1 (omega arith))

finals-place :
    (i : ℕ) (x : HashLocalPresentation) (s : Segments) (bs : List Items)
    → finals (place i x s) bs ≡ finals s (push i x bs)
finals-place i x [] bs = refl
finals-place zero x (p ∷ s) [] = refl
finals-place (suc i) x (p ∷ s) [] = refl
finals-place zero x ((filled, old) ∷ s) (items ∷ bs) = rw (append_assoc filled) refl
finals-place (suc i) x ((filled, old) ∷ s) (items ∷ bs) =
    ap (◌∷◌ (filled ++ items)) (finals-place i x s bs)

length-place : (i : ℕ) (x : HashLocalPresentation) (s : Segments) → length (place i x s) ≡ length s
length-place i x [] = refl
length-place zero x (p ∷ s) = refl
length-place (suc i) x (p ∷ s) = ap suc (length-place i x s)

-- When all is copied, nothing old is left.
flat-finals :
    (b v : ℕ) (s : Segments)
    → Fits s (buckets_from b v (length s) [])
    → flat s ≡ concat (finals s (buckets_from b v (length s) []))
unfolding buckets_from bucket
flat-finals b v [] f = refl
flat-finals b v ((filled, o ∷ old) ∷ s) f = absurd (omega (arith, f.0))
flat-finals b v ((filled, []) ∷ s) f =
    rw (append-nil filled) (ap (λ (t : Items). filled ++ t) (flat-finals b (suc v) s f.1))

pub scatter-flat :
    (b n : ℕ) (input : Items) (s : Segments) (tail : Items)
    → length s ≡ n
    → All (HasByteBelow b n) input
    → Fits s (buckets_from b 0 n input)
    → scatter b (starts 0 s) input (flat s ++ tail)
      ≡ concat (finals s (buckets_from b 0 n input)) ++ tail
unfolding scatter
scatter-flat b n [] s tail len h f =
    let f' : Fits s (buckets_from b 0 (length s) []) = rw len f in
    ap (λ (t : Items). t ++ tail) (rw (sym len) (flat-finals b 0 s f'))
scatter-flat b n (x ∷ input) s tail len (hx, h) f =
    let i = byte_of b x in
    let below : i < length s = omega arith in
    let bs = buckets_from b 0 n input in
    let cons = buckets_from-cons b 0 n i x input (omega arith) hx in
    let f' : Fits s (push i x bs) = subst (Fits s) cons f in
    let pos : get_or (starts 0 s) i 0 ≡ position i s = omega (arith, starts-position 0 i s below) in
    let again =
      scatter-flat b n input (place i x s) tail (length-place i x s ∙ len) h
        (place-Fits i x s bs f' below) in
    let next : set (starts 0 s) i (suc (position i s)) ≡ starts 0 (place i x s) =
      rw (sym pos) (increment-starts 0 i x s bs f' below) in
    rw (pos, set-place i x s bs tail f' below, next, again, finals-place i x s bs, cons) refl

-- The segments at the start: a buffer cut into stretches.
abbrev pub cut : List ℕ → Items → Segments
cut [] scratch = []
cut (n ∷ ns) scratch = ([], take n scratch) ∷ cut ns (drop n scratch)

abbrev pub sum : List ℕ → ℕ
sum [] = 0
sum (n ∷ ns) = n + sum ns

pub flat-cut :
    (ns : List ℕ) (scratch : Items)
    → sum ns ≤ length scratch
    → flat (cut ns scratch) ++ drop (sum ns) scratch ≡ scratch
flat-cut [] scratch h = refl
flat-cut (n ∷ ns) scratch h =
    let rest = flat-cut ns (drop n scratch) (omega (arith, length-drop n scratch)) in
    rw (append_assoc (take n scratch), sym (drop-drop n (sum ns) scratch), rest)
      (take-append-drop n scratch)

pub starts-cut :
    (base : ℕ) (ns : List ℕ) (scratch : Items)
    → sum ns ≤ length scratch
    → starts base (cut ns scratch) ≡ offsets_from base ns
unfolding offsets_from
starts-cut base [] scratch h = refl
starts-cut base (n ∷ ns) scratch h =
    let here : base + 0 ≡ base = omega arith in
    let next : base + (0 + length (take n scratch)) ≡ base + n =
      omega (arith, length-take n scratch) in
    rw
      (here, next, starts-cut (base + n) ns (drop n scratch) (omega (arith, length-drop n scratch)))
      refl

pub cut-Fits :
    (bs : List Items) (scratch : Items)
    → sum (lengths bs) ≤ length scratch
    → Fits (cut (lengths bs) scratch) bs
cut-Fits [] scratch h = tt
cut-Fits (items ∷ bs) scratch h = (
  omega (arith, length-take (length items) scratch),
  cut-Fits bs (drop (length items) scratch) (omega (arith, length-drop (length items) scratch)),
)

pub finals-cut : (bs : List Items) (scratch : Items) → finals (cut (lengths bs) scratch) bs ≡ bs
finals-cut [] scratch = refl
finals-cut (items ∷ bs) scratch = ap (◌∷◌ items) (finals-cut bs (drop (length items) scratch))

pub length-cut : (bs : List Items) (scratch : Items) → length (cut (lengths bs) scratch) ≡ length bs
length-cut [] scratch = refl
length-cut (items ∷ bs) scratch = ap suc (length-cut bs (drop (length items) scratch))
